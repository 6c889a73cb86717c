-- ===== src/Base/Map.antt =====
-- Go's maps as association lists. Iteration (`range`) visits the entries in the order of the list;
-- Go leaves that order open, and every list with the same entries models the same map.
use Prim.Native.Nat.{ℕ, ◌+◌}
use Prim.Native.String.{String}
use mathlib.Core.Path.{◌≡◌, refl}
use mathlib.Core.Logic.{◌↔◌}
use mathlib.Core.Bool.{Bool, true}
use mathlib.Core.Option.{Option, none, some}
use mathlib.Core.List.{List, [], ◌∷◌}
use native.Mathlib.Omega.{arith}
use text.Mathlib.Text.{◌==◌ as str_eq}
use text.Mathlib.TextEquality.{eq_iff}
use mcp_moqt_transport.Base.Tests.{◌==◌, if◌then◌else◌}
use mcp_moqt_transport.Base.Lists.{length}

-- What Go asks of a map's keys.
pub record Key {ℓ} (K : Type ℓ) : Type ℓ where
  pub same : K → K → Bool
  pub same_iff : (a b : K) → (same a b ≡ true) ↔ (a ≡ b)

pub nat_same_iff : (a b : ℕ) → ((a == b) ≡ true) ↔ (a ≡ b)
nat_same_iff a b = ground arith

instance abbrev pub nat_key : Key ℕ
nat_key = record { same = ◌==◌; same_iff = nat_same_iff }

instance abbrev pub string_key : Key String
string_key = record { same = str_eq; same_iff = eq_iff }

-- The sum of a measure of the values.
abbrev pub sum_by {ℓ κ} : {K : Type ℓ} {V : Type κ} → (V → ℕ) → List (K × V) → ℕ
sum_by f [] = 0
sum_by f ((a, v) ∷ m) = f v + sum_by f m

abbrev pub measure_at {κ} : {V : Type κ} → (V → ℕ) → Option V → ℕ
measure_at f none = 0
measure_at f (some v) = f v

module _ {ℓ κ} {K : Type ℓ} {V : Type κ} ⦃k : Key K⦄ where
  unfoldable pub lookup : K → List (K × V) → Option V
  lookup a [] = none
  lookup a ((b, v) ∷ m) = if k.same b a then some v else lookup a m

  unfoldable pub erase : K → List (K × V) → List (K × V)
  erase a [] = []
  erase a ((b, v) ∷ m) = let rest = erase a m in if k.same b a then rest else (b, v) ∷ rest

  unfoldable pub insert : K → V → List (K × V) → List (K × V)
  unfolding erase
  insert a v m = (a, v) ∷ erase a m

  pub lookup-erase :
      (a b : K) (m : List (K × V))
      → lookup b (erase a m) ≡ (if k.same a b then none else lookup b m)
  unfolding lookup erase
  lookup-erase a b [] = ground arith
  lookup-erase a b ((c, v) ∷ m) =
      ground (arith, k.same_iff a b, k.same_iff c a, k.same_iff c b, lookup-erase a b m)

  pub lookup-insert :
      (a b : K) (v : V) (m : List (K × V))
      → lookup b (insert a v m) ≡ (if k.same a b then some v else lookup b m)
  unfolding lookup insert
  lookup-insert a b v m = ground (arith, lookup-erase a b m)

  pub lookup-insert_self : (a : K) (v : V) (m : List (K × V)) → lookup a (insert a v m) ≡ some v
  lookup-insert_self a v m = ground (arith, lookup-insert a a v m, k.same_iff a a)

  pub lookup-erase_self : (a : K) (m : List (K × V)) → lookup a (erase a m) ≡ none
  lookup-erase_self a m = ground (arith, lookup-erase a a m, k.same_iff a a)

  -- No key stands twice, so the list's length is the map's `len`.
  abbrev pub IsUnique : List (K × V) → Type (ℓ ⊔ κ)
  IsUnique [] = Unit
  IsUnique ((a, v) ∷ m) = (lookup a m ≡ none) × IsUnique m

  pub erase-IsUnique : (a : K) (m : List (K × V)) → IsUnique m → IsUnique (erase a m)
  unfolding erase
  erase-IsUnique a [] u = tt
  erase-IsUnique a ((b, v) ∷ m) u = ground (arith, lookup-erase a b m, erase-IsUnique a m u.1)

  pub insert-IsUnique : (a : K) (v : V) (m : List (K × V)) → IsUnique m → IsUnique (insert a v m)
  unfolding insert
  insert-IsUnique a v m u = (lookup-erase_self a m, erase-IsUnique a m u)

  pub erase_absent : (a : K) (m : List (K × V)) → lookup a m ≡ none → erase a m ≡ m
  unfolding lookup erase
  erase_absent a [] h = refl
  erase_absent a ((b, v) ∷ m) h = ground (arith, erase_absent a m)

  pub sum_by-erase :
      (f : V → ℕ) (a : K) (m : List (K × V))
      → IsUnique m
      → sum_by f (erase a m) + measure_at f (lookup a m) ≡ sum_by f m
  unfolding lookup erase
  sum_by-erase f a [] u = omega arith
  sum_by-erase f a ((b, v) ∷ m) u =
      ground (arith, k.same_iff b a, sum_by-erase f a m u.1, erase_absent a m)

  pub sum_by-insert :
      (f : V → ℕ) (a : K) (v : V) (m : List (K × V))
      → IsUnique m
      → sum_by f (insert a v m) + measure_at f (lookup a m) ≡ sum_by f m + f v
  unfolding insert
  sum_by-insert f a v m u = omega (arith, sum_by-erase f a m u)

  pub length-erase :
      (a : K) (m : List (K × V))
      → IsUnique m
      → length (erase a m) + measure_at (λ _. 1) (lookup a m) ≡ length m
  unfolding lookup erase
  length-erase a [] u = omega arith
  length-erase a ((b, v) ∷ m) u =
      ground (arith, k.same_iff b a, length-erase a m u.1, erase_absent a m)
