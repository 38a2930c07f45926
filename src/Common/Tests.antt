-- ===== src/Common/Tests.antt =====
-- Boolean tests on the native numbers, and the conditional.
use Prim.Native.Nat.{ℕ, compare, Ordering, ◌≤◌}
use mathlib.Core.Path.{◌≡◌, refl}
use mathlib.Core.Logic.{◌↔◌, ◌⊎◌, inl, inr}
use mathlib.Core.Bool.{Bool, true, false, ◌&&◌}
use mathlib.Core.Option.{Option, none, some}
use native.Mathlib.Omega.{arith}
use native.Mathlib.Decide.{ℕ_discrete}

-- These compute to `compare`, which `ground` and `grind` read.
abbrev pub ltb : ℕ → ℕ → Bool
ltb a b = elim (compare a b) [ Ordering.lt ↦ true | _ ↦ false ]

abbrev pub leb : ℕ → ℕ → Bool
leb a b = elim (compare a b) [ Ordering.gt ↦ false | _ ↦ true ]

infix 50 ◌==◌
abbrev pub ◌==◌ : ℕ → ℕ → Bool
a == b = elim (compare a b) [ Ordering.eq ↦ true | _ ↦ false ]

infix 1 if◌then◌else◌
abbrev pub if◌then◌else◌ {ℓ} : {A : Type ℓ} → Bool → A → A → A
if true then x else y = x
if false then x else y = y

pub ==_iff : (a b : ℕ) → ((a == b) ≡ true) ↔ (a ≡ b)
==_iff a b = ground arith

pub &&_left : (a b : Bool) → (a && b) ≡ true → a ≡ true
&&_left a b h = ground arith

pub &&_right : (a b : Bool) → (a && b) ≡ true → b ≡ true
&&_right a b h = ground arith

-- To split on a computed value and keep the equation.
pub Bool-cases : (b : Bool) → (b ≡ true) ⊎ (b ≡ false)
Bool-cases true = inl refl
Bool-cases false = inr refl

pub Option-cases {ℓ} : {A : Type ℓ} (o : Option A) → (o ≡ none) ⊎ ((a : A) × (o ≡ some a))
Option-cases none = inl refl
Option-cases (some a) = inr (a, refl)

-- A test that passes for `m`, `m - 1`, …, 1 and 0, and what that shows.
unfoldable pub passes_to : ℕ → (ℕ → Bool) → Bool
passes_to ℕ.zero test = test 0
passes_to (ℕ.suc m) test = test (ℕ.suc m) && passes_to m test

pub passes_to_sound : (test : ℕ → Bool) (m k : ℕ) → passes_to m test ≡ true → k ≤ m → test k ≡ true
unfolding passes_to
passes_to_sound test m ℕ.zero h le = at_zero m h
  where
    at_zero : (j : ℕ) → passes_to j test ≡ true → test 0 ≡ true
    at_zero ℕ.zero e = e
    at_zero (ℕ.suc j) e = at_zero j (&&_right (test (ℕ.suc j)) (passes_to j test) e)
passes_to_sound test ℕ.zero (ℕ.suc k) h le = elim le [ ]
passes_to_sound test (ℕ.suc m) (ℕ.suc k) h le = elim (ℕ_discrete m k) [
  | yes same ↦ rw (← same) (&&_left (test (ℕ.suc m)) (passes_to m test) h)
  | no other ↦
      passes_to_sound test m (ℕ.suc k) (&&_right (test (ℕ.suc m)) (passes_to m test) h)
        (omega arith)
]
