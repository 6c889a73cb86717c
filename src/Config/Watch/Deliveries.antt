-- ===== src/Config/Watch/Deliveries.antt =====
-- What a watcher's callback gets, and a change that it misses.
use mcp_moqt_transport.Base.{
  ℕ, zero, suc, ◌≡◌, ◌≢◌, refl, ap, ◌∙◌, Bool, false, Option, none, List, [], ◌∷◌, String, arith,
  All, ◌⊎◌,
}
use mcp_moqt_transport.Errors.{Error, Result, ok}
use mcp_moqt_transport.Config.{Config, Format, Os, load_from_file, no_alpn}
use mcp_moqt_transport.Config.Watch.{
  Watcher, watch_file, poll, Event, polls, sets_on_error, stops, polled,
}

-- A config that a transport can be built from.
abbrev pub IsUsable : Config → Type 0
IsUsable c = (c.addr ≢ "") × (no_alpn c.alpn ≡ false)

-- The moments of a file's system at which a watcher may read it: those after the polls, newest first.
abbrev pub moments : {D : Type 0} → List (Event D) → List (Os D) → List (Os D)
moments [] seen = seen
moments (polls before after ∷ es) seen = moments es (after ∷ seen)
moments (sets_on_error ∷ es) seen = moments es seen
moments (stops ∷ es) seen = moments es seen

-- Each file that the config names for TLS is there: a certificate and its key, if both are named, and the
-- CA file if it is.
abbrev pub HasFiles : (String → Option Error) → Config → Type 0
HasFiles stat c =
    (((c.tls.cert_file ≡ "") ⊎ (c.tls.key_file ≡ ""))
      ⊎ ((stat c.tls.cert_file ≡ none) × (stat c.tls.key_file ≡ none)))
    × ((c.tls.ca_file ≡ "") ⊎ (stat c.tls.ca_file ≡ none))

module _ {D : Type 0} (decode : Format → D → Config → Result Config) (path : String) where
  -- The config stood in the file at this moment, and a transport can be built from it.
  abbrev pub Stood : Os D → Config → Type 0
  Stood os c = (load_from_file decode os path ≡ ok c) × IsUsable c × HasFiles os.stat c

  -- It did so at one of the moments.
  abbrev pub Came : List (Os D) → Config → Type 0
  Came [] c = ⊥
  Came (os ∷ seen) c = Stood os c ⊎ Came seen c

  -- The newest config that was delivered is the current one, and each one that was came from the file.
  pub record Inv (seen : List (Os D)) (w : Watcher) : Type 0 where
    pub older : List Config
    pub newest : w.delivered ≡ w.current ∷ older
    pub came : All (Came seen) w.delivered
    pub its_path : w.path ≡ path

module _ {D : Type 0} (decode : Format → D → Config → Result Config) where
  watch_file-mod_time :
      (path : String) (interval : ℕ) (has_on_change : Bool) (before after : Os D) (w : Watcher)
      → watch_file decode path interval has_on_change before after ≡ ok w
      → after.mod_time w.path ≡ ok w.mod_time
  unfolding watch_file
  watch_file-mod_time path interval has_on_change before after w h = ground arith

  -- If the file changes after `WatchFile` has read it and before it asks for the modification time,
  -- and not again, the change is never seen: however often it is polled, the watcher stays as it is.
  watch_file_misses :
      (path : String) (interval : ℕ) (has_on_change : Bool) (before after : Os D) (w : Watcher)
      (n : ℕ)
      → watch_file decode path interval has_on_change before after ≡ ok w
      → polled decode n after w ≡ w
  unfolding polled
  watch_file_misses path interval has_on_change before after w zero h = refl
  watch_file_misses path interval has_on_change before after w (suc n) h =
      ap (polled decode n after) unchanged
      ∙ watch_file_misses path interval has_on_change before after w n h
    where
      unchanged : poll decode after after w ≡ w
      unchanged =
          let t = watch_file-mod_time path interval has_on_change before after w h in
          unfold poll in ground (arith, t)
