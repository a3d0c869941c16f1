-- ===== src/Base/Equality.antt =====
-- The `Eq` of the program's types, as an interface with its law, and the lists of distinct entries
-- that are built by it.
use Prim.Native.Nat.{ℕ}
use mathlib.Core.Path.{◌≡◌, refl, ap₂}
use mathlib.Core.Logic.{◌↔◌}
use mathlib.Core.Bool.{Bool, true, false, ◌&&◌}
use mathlib.Core.List.{List, [], ◌∷◌}
use native.Mathlib.Omega.{arith}
use kafka_driver.Base.Tests.{◌==◌, ==_iff}
use kafka_driver.Base.Lists.{any}

pub record Eq {ℓ} (A : Type ℓ) : Type ℓ where
  pub same : A → A → Bool
  pub same_iff : (a b : A) → (same a b ≡ true) ↔ (a ≡ b)

instance abbrev pub nat_eq : Eq ℕ
nat_eq = record { same = ◌==◌; same_iff = ==_iff }

pub both-true : (a b : Bool) → (a && b) ≡ true → (a ≡ true) × (b ≡ true)
both-true a b h = ground arith

module _ {ℓ} {A : Type ℓ} ⦃e : Eq A⦄ where
  abbrev pub same_list : List A → List A → Bool
  same_list [] [] = true
  same_list [] (y ∷ ys) = false
  same_list (x ∷ xs) [] = false
  same_list (x ∷ xs) (y ∷ ys) = e.same x y && same_list xs ys

  same_refl : (a : A) → e.same a a ≡ true
  same_refl a = (e.same_iff a a).1 refl

  same_list_refl : (xs : List A) → same_list xs xs ≡ true
  same_list_refl [] = refl
  same_list_refl (x ∷ xs) = rw (same_refl x, same_list_refl xs) refl

  pub same_list_iff : (xs ys : List A) → (same_list xs ys ≡ true) ↔ (xs ≡ ys)
  same_list_iff xs ys = (sound xs ys, λ h. rw (← h) (same_list_refl xs))
    where
      sound : (xs ys : List A) → same_list xs ys ≡ true → xs ≡ ys
      sound [] [] h = refl
      sound [] (y ∷ ys) h = absurd (ground (arith, h))
      sound (x ∷ xs) [] h = absurd (ground (arith, h))
      sound (x ∷ xs) (y ∷ ys) h =
          let (head, tail) = both-true (e.same x y) (same_list xs ys) h in
          ap₂ ◌∷◌ ((e.same_iff x y).0 head) (sound xs ys tail)

instance abbrev pub list_eq {ℓ} : {A : Type ℓ} ⦃e : Eq A⦄ → Eq (List A)
list_eq = record { same = same_list; same_iff = same_list_iff }

module _ {ℓ} {A : Type ℓ} ⦃e : Eq A⦄ where
  -- `slice::contains`.
  abbrev pub contains : List A → A → Bool
  contains xs a = any (λ x. e.same x a) xs

  abbrev pub without : List A → List A → List A
  without seen [] = []
  without seen (x ∷ xs) =
      let rest = without seen xs in elim (contains seen x) [ true ↦ rest | false ↦ x ∷ rest ]

  -- The first occurrence of every entry.
  abbrev pub first_occurrences : List A → List A
  first_occurrences [] = []
  first_occurrences (x ∷ xs) = x ∷ without (x ∷ []) (first_occurrences xs)
