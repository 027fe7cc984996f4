-- ===== src/Prelude/Lists.antt =====
-- Lists measured by native numbers and searched by Boolean tests.
use Prim.Native.Nat.{ℕ, zero, suc, ◌+◌}
use mathlib.Core.Path.{◌≡◌, refl}
use mathlib.Core.Logic.{inl, inr}
use mathlib.Core.Bool.{Bool, true, false, ◌&&◌, ◌||◌}
use mathlib.Core.Option.{Option, none, some}
use mathlib.Core.List.{List, [], ◌∷◌, ◌++◌}
use native.Mathlib.Omega.{arith}
use lawrence_ai_lms.Prelude.Tests.{if◌then◌else◌, ◌==◌, Bool-cases}

module _ {ℓ} {A : Type ℓ} where
  abbrev pub length : List A → ℕ
  length [] = 0
  length (x ∷ xs) = suc (length xs)

  abbrev pub take : ℕ → List A → List A
  take zero xs = []
  take (suc n) [] = []
  take (suc n) (x ∷ xs) = x ∷ take n xs

  -- The items that pass a test, in order.
  abbrev pub select : (A → Bool) → List A → List A
  select p [] = []
  select p (x ∷ xs) = if p x then x ∷ select p xs else select p xs

  abbrev pub any : (A → Bool) → List A → Bool
  any p [] = false
  any p (x ∷ xs) = p x || any p xs

  abbrev pub all : (A → Bool) → List A → Bool
  all p [] = true
  all p (x ∷ xs) = p x && all p xs

  -- The first item that passes a test.
  abbrev pub find? : (A → Bool) → List A → Option A
  find? p [] = none
  find? p (x ∷ xs) = if p x then some x else find? p xs

  -- A write to the first item that passes a test; nothing changes if there is none.
  abbrev pub replace_first : (A → Bool) → A → List A → List A
  replace_first p y [] = []
  replace_first p y (x ∷ xs) = if p x then y ∷ xs else x ∷ replace_first p y xs

  abbrev pub count_by : (A → Bool) → List A → ℕ
  count_by p [] = 0
  count_by p (x ∷ xs) = (if p x then 1 else 0) + count_by p xs

-- `item in items` on identifiers.
abbrev pub contains : ℕ → List ℕ → Bool
contains a [] = false
contains a (x ∷ xs) = a == x || contains a xs

module _ {ℓ} {A : Type ℓ} where
  -- What a search finds passes its test.
  pub find?-passes : (p : A → Bool) (xs : List A) {x : A} → find? p xs ≡ some x → p x ≡ true
  find?-passes p [] h = cc
  find?-passes p (x ∷ xs) h = elim (Bool-cases (p x)) [
    | inl e ↦ ground (arith, find?-passes p xs)
    | inr e ↦ find?-passes p xs (rw e at h)
  ]

  pub find?-replace_first :
      (p : A → Bool) (y : A) (xs : List A) {x : A}
      → p y ≡ true
      → find? p xs ≡ some x
      → find? p (replace_first p y xs) ≡ some y
  find?-replace_first p y [] py h = cc
  find?-replace_first p y (x ∷ xs) py h = elim (Bool-cases (p x)) [
    | inl e ↦ rw e (rw py)
    | inr e ↦ rw e (rw e (find?-replace_first p y xs py (rw e at h)))
  ]

  -- A write that fails another test leaves the items of that test alone.
  pub select-replace_first :
      (q p : A → Bool) (y : A) (xs : List A)
      → ((x : A) → p x ≡ true → q x ≡ false)
      → q y ≡ false
      → select q (replace_first p y xs) ≡ select q xs
  select-replace_first q p y [] apart qy = refl
  select-replace_first q p y (x ∷ xs) apart qy = elim (Bool-cases (p x)) [
    | inl e ↦ rw e (rw (qy, apart x e))
    | inr e ↦ rw e (rw (select-replace_first q p y xs apart qy))
  ]

  pub select-append :
      (q : A → Bool) (xs : List A) (y : A) → q y ≡ false → select q (xs ++ (y ∷ [])) ≡ select q xs
  select-append q [] y qy = rw qy
  select-append q (x ∷ xs) y qy = rw (select-append q xs y qy)

  pub find?-append_new :
      (p : A → Bool) (xs : List A) (y : A)
      → p y ≡ true
      → find? p xs ≡ none
      → find? p (xs ++ (y ∷ [])) ≡ some y
  find?-append_new p [] y py h = rw py
  find?-append_new p (x ∷ xs) y py h = elim (Bool-cases (p x)) [
    | inl e ↦ absurd (absurd_some (rw e at h))
    | inr e ↦ rw e (find?-append_new p xs y py (rw e at h))
  ]
    where
      absurd_some : {z : A} → ◌≡◌ {A = Option A} (some z) none → ⊥
      absurd_some q = cc

  -- Replacing a found item by one that another test treats alike changes nothing for that test.
  pub any-replace_first :
      (q p : A → Bool) (y : A) (xs : List A) {x : A}
      → find? p xs ≡ some x
      → q y ≡ q x
      → any q (replace_first p y xs) ≡ any q xs
  any-replace_first q p y [] f e = refl
  any-replace_first q p y (x ∷ xs) f e = elim (Bool-cases (p x)) [
    | inl h ↦ ground arith
    | inr h ↦ rw h (rw (any-replace_first q p y xs (rw h at f) e))
  ]

  pub any-append : (q : A → Bool) (xs : List A) (y : A) → any q (xs ++ (y ∷ [])) ≡ (any q xs || q y)
  any-append q [] y = ground arith
  any-append q (x ∷ xs) y = ground (arith, any-append q xs y)
