-- ===== src/Config/Watch.antt =====
-- pkg/config/watch.go. Each step comes with the file system at its moments: a poll asks for the
-- modification time, and later reads the file. `delivered` are the configs that `onChange` was called
-- with, and `reported` the errors that `onError` was called with, newest first.
pub mod Deliveries
use mcp_moqt_transport.Base.{
  ℕ, zero, suc, ◌≤◌, ◌≡◌, ◌≢◌, refl, ap, ◌∙◌, Bool, true, false, not, Option, none, some, List, [],
  ◌∷◌, String, if◌then◌else◌, ltb, leb, inl, inr, Bool-cases, Option-cases, arith, All, str_eq,
  eq_iff, ◌⊎◌,
}
use mcp_moqt_transport.Base.Word.{le_64}
use mcp_moqt_transport.Errors.{Error, Result, ok, err, text, wrap, Result-cases}
use mcp_moqt_transport.Config.{
  Config, Format, Os, load_from_file, validate, validate_cert, validate_ca, no_alpn,
}

pub record Watcher : Type 0 where
  pub path : String
  pub interval : ℕ
  pub has_on_error : Bool
  pub current : Config
  pub mod_time : ℕ
  pub stopped : Bool
  pub delivered : List Config
  pub reported : List Error

-- A deep copy of values that are not shared here.
unfoldable pub clone : Config → Config
clone c = c

unfoldable pub report_error : Error → Watcher → Watcher
report_error e w = if w.has_on_error then record w { reported = e ∷ w.reported } else w

unfoldable pub on_error : Watcher → Watcher
on_error w = record w { has_on_error = true }

unfoldable pub stop : Watcher → Watcher
stop w = record w { stopped = true }

pub data Event (D : Type 0) : Type 0 where
  polls : Os D → Os D → Event D
  sets_on_error stops : Event D

module _ {D : Type 0} (decode : Format → D → Config → Result Config) where
  -- `has_on_change` says that the callback is not nil; the file is read in `before`, its modification
  -- time asked for in `after`.
  unfoldable pub watch_file : String → ℕ → Bool → Os D → Os D → Result Watcher
  unfolding load_from_file validate clone
  watch_file path interval has_on_change before after =
      if not has_on_change
      then err (text "onChange must not be nil")
      else elim (load_from_file decode before path) [
        | err e ↦ err e
        | ok c ↦ elim (validate before.stat c) [
          | some e ↦ err e
          | none ↦ elim (after.mod_time path) [
            | err e ↦ err e
            | ok t ↦ ok (record {
              path = path;
              interval = if le_64 interval 0 then 1000000000 else interval;
              has_on_error = false;
              current = c;
              mod_time = t;
              stopped = false;
              delivered = clone c ∷ [];
              reported = [];
            })
          ]
        ]
      ]

  -- `poll` behind the test of the modification time `t`.
  unfoldable pub reload : ℕ → Os D → Watcher → Watcher
  unfolding load_from_file validate report_error clone
  reload t os w = elim (load_from_file decode os w.path) [
    | err e ↦ report_error (wrap "reload config" e) w
    | ok c ↦ elim (validate os.stat c) [
      | some e ↦ report_error (wrap "invalid config" e) w
      | none ↦ record w { mod_time = t; current = c; delivered = clone c ∷ w.delivered }
    ]
  ]

  unfoldable pub poll : Os D → Os D → Watcher → Watcher
  unfolding reload report_error
  poll before after w = elim (before.mod_time w.path) [
    | err e ↦ report_error (wrap "stat config" e) w
    | ok t ↦ if ltb w.mod_time t then reload t after w else w
  ]

  unfoldable pub step : Event D → Watcher → Watcher
  unfolding poll on_error stop
  step (polls before after) w = poll before after w
  step sets_on_error w = on_error w
  step stops w = stop w

  unfoldable pub run : List (Event D) → Watcher → Watcher
  unfolding step
  run [] w = w
  run (e ∷ es) w = run es (step e w)

  -- That many polls of one file system.
  unfoldable pub polled : ℕ → Os D → Watcher → Watcher
  unfolding poll
  polled zero os w = w
  polled (suc n) os w = polled n os (poll os os w)
