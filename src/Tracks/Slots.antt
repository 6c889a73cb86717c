-- ===== src/Tracks/Slots.antt =====
-- The publisher slot: the first publisher wins, its channel is closed once, and a cleared slot
-- hands out nothing more.
use mcp_moqt_transport.Base.{
  ℕ, ◌≡◌, ◌≢◌, refl, inl, inr, Bool, true, false, Option, none, some, List, [], ◌∷◌, arith,
  Bool-cases, is_some, ◌||◌,
}
use mcp_moqt_transport.Errors.{Error, sentinel, connection_closed}
use mcp_moqt_transport.Tracks.{Slot, new_slot, set, get, clear, blocked, failed, got}

-- The channel is closed exactly when a publisher was set; a publisher is there until it is cleared.
pub record IsSound (s : Slot) : Type 0 where
  pub held : s.ready ≡ true → s.cleared ≡ false → s.publisher ≢ none
  pub empty : s.ready ≡ false → s.publisher ≡ none
  pub dropped : s.cleared ≡ true → s.publisher ≡ none

-- What the holders of a slot call on it.
pub data Call : Type 0 where
  sets : ℕ → Call
  clears : Call

unfoldable pub call : Call → Slot → Option Slot
unfolding set clear
call (sets p) s = set (some p) s
call clears s = some (clear s)

abbrev pub continue : Option Slot → (Slot → Option Slot) → Option Slot
continue none f = none
continue (some s) f = f s

unfoldable pub calls : List Call → Slot → Option Slot
unfolding call
calls [] s = some s
calls (c ∷ cs) s = continue (call c s) (calls cs)

call-IsSound : (c : Call) (s : Slot) → IsSound s → (s' : Slot) × (call c s ≡ some s') × IsSound s'
unfolding call
call-IsSound (sets p) s v = elim (Bool-cases (is_some s.publisher || s.cleared)) [
  | inl kept ↦ (s, simp kept, v)
  | inr fresh ↦ elim (Bool-cases s.ready) [
    | inl r ↦ absurd (v.held r (ground arith) (ground arith))
    | inr r ↦ (
      record s { publisher = some p; ready = true },
      simp (fresh, r),
      record { held = λ _ _ e. cc; empty = λ e. cc; dropped = λ e. ground arith },
    )
  ]
]
call-IsSound clears s v = (
  clear s,
  refl,
  unfold clear in record { held = λ _ e. cc; empty = λ _. refl; dropped = λ _. refl },
)

calls-IsSound :
    (cs : List Call) (s : Slot) → IsSound s → (s' : Slot) × (calls cs s ≡ some s') × IsSound s'
unfolding calls
calls-IsSound [] s v = (s, refl, v)
calls-IsSound (c ∷ cs) s v = let (s', e, v') = call-IsSound c s v in rw e (calls-IsSound cs s' v')

-- However `Set` and `Clear` are called on a new slot, no call panics (the channel is closed at most
-- once), and a slot that is ready and not cleared holds a publisher.
calls-new_slot : (cs : List Call) → (s : Slot) × (calls cs new_slot ≡ some s) × IsSound s
calls-new_slot cs =
    calls-IsSound cs new_slot
      (unfold new_slot in record { held = λ e _. cc; empty = λ _. refl; dropped = λ _. refl })

-- The slot is cleared, and was never ready.
abbrev pub Dead : Slot → Type 0
Dead s = (s.cleared ≡ true) × (s.ready ≡ false)

call-Dead : (c : Call) (s : Slot) → Dead s → (s' : Slot) × (call c s ≡ some s') × Dead s'
unfolding call
call-Dead (sets p) s d = (s, ground arith, d)
call-Dead clears s d = (clear s, refl, unfold clear in (refl, d.1))

calls-Dead : (cs : List Call) (s : Slot) → Dead s → (s' : Slot) × (calls cs s ≡ some s') × Dead s'
unfolding calls
calls-Dead [] s d = (s, refl, d)
calls-Dead (c ∷ cs) s d = let (s', h, d') = call-Dead c s d in rw h (calls-Dead cs s' d')

-- A slot that is cleared before its first publisher never becomes ready: whatever is called on it
-- later, `Get` waits until its context is done, and then returns the context's error.
pub clear-get_waits :
    (s : Slot) (cs : List Call) (ready_first : Bool) (e : Error)
    → s.ready ≡ false
    → (s' : Slot) × (calls cs (clear s) ≡ some s')
      × (get none ready_first s' ≡ blocked)
      × (get (some e) ready_first s' ≡ failed e)
clear-get_waits s cs ready_first e r =
    let (s', h, d) = calls-Dead cs (clear s) (unfold clear in (refl, r)) in
    (s', h, unfold get in simp d.1, unfold get in simp d.1)

-- In a sound slot that is neither ready nor cleared the first publisher stays until the slot is
-- cleared: a later `Set` changes nothing, and `Get` with a context that is not done returns that
-- publisher; after `Clear` it reports the closed connection.
set-get :
    (p q : ℕ) (ready_first : Bool) (s s' : Slot)
    → IsSound s
    → s.ready ≡ false
    → s.cleared ≡ false
    → set (some p) s ≡ some s'
    → (get none ready_first s' ≡ got (some p))
      × (set (some q) s' ≡ some s')
      × (get none ready_first (clear s') ≡ failed (sentinel connection_closed))
unfolding set get clear
set-get p q ready_first s s' v r c h = ground (arith, v.empty r)
