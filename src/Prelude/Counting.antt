-- ===== src/Prelude/Counting.antt =====
-- How many items of a list pass a test.
use Prim.Native.Nat.{ℕ, ◌+◌, ◌≤◌}
use mathlib.Core.Path.{◌≡◌, refl}
use mathlib.Core.Logic.{◌↔◌, inl, inr}
use mathlib.Core.Bool.{Bool, true, false, ◌&&◌, ◌||◌}
use mathlib.Core.List.{List, [], ◌∷◌}
use native.Mathlib.Omega.{arith}
use lawrence_ai_lms.Prelude.Tests.{if◌then◌else◌, ◌==◌, Bool-cases}
use lawrence_ai_lms.Prelude.Lists.{length, all, count_by, contains}

-- No identifier stands in the list twice.
abbrev pub Distinct : List ℕ → Type 0
Distinct [] = Unit
Distinct (x ∷ xs) = (contains x xs ≡ false) × Distinct xs

module _ {ℓ} {A : Type ℓ} where
  pub count_by-le-length : (p : A → Bool) (xs : List A) → count_by p xs ≤ length xs
  count_by-le-length p [] = omega arith
  count_by-le-length p (x ∷ xs) = ground (arith, count_by-le-length p xs)

  pub count_by-false : (p : A → Bool) (xs : List A) → ((x : A) → p x ≡ false) → count_by p xs ≡ 0
  count_by-false p [] h = refl
  count_by-false p (x ∷ xs) h = ground (arith, h x, count_by-false p xs h)

  -- All items pass exactly if as many pass as there are.
  pub count_by-all : (p : A → Bool) (xs : List A) → (count_by p xs ≡ length xs) ↔ (all p xs ≡ true)
  count_by-all p [] = (λ h. refl, λ h. refl)
  count_by-all p (x ∷ xs) = (
    λ h. ground (arith, count_by-le-length p xs, (count_by-all p xs).0),
    λ h. ground (arith, (count_by-all p xs).1),
  )

  -- Tests that no item passes both of are counted apart.
  pub count_by-or :
      (p q : A → Bool) (xs : List A)
      → ((x : A) → p x ≡ true → q x ≡ false)
      → count_by (λ x. p x || q x) xs ≡ count_by p xs + count_by q xs
  count_by-or p q [] apart = refl
  count_by-or p q (x ∷ xs) apart = elim (Bool-cases (p x)) [
    | inl e ↦ rw e (rw (apart x e) (omega (arith, count_by-or p q xs apart)))
    | inr e ↦ rw e (omega (arith, count_by-or p q xs apart))
  ]

-- In a list of distinct identifiers one is found once or never.
pub count_by-contains :
    (c : Bool) (a : ℕ) (xs : List ℕ)
    → Distinct xs
    → count_by (λ x. a == x && c) xs ≡ (if contains a xs && c then 1 else 0)
count_by-contains c a [] d = refl
count_by-contains c a (x ∷ xs) d = elim (Bool-cases (a == x)) [
  | inl e ↦ ground (arith, count_by-contains c a xs d.1)
  | inr e ↦ rw e (omega (arith, count_by-contains c a xs d.1))
]
