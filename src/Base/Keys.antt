-- ===== src/Base/Keys.antt =====
-- Lists whose entries differ in a number that a key function reads.
use Prim.Native.Nat.{ℕ}
use mathlib.Core.Path.{◌≡◌, refl}
use mathlib.Core.Bool.{Bool, false, ◌||◌}
use mathlib.Core.List.{List, [], ◌∷◌, ◌++◌}
use native.Mathlib.Omega.{arith}
use kafka_driver.Base.Tests.{◌==◌}
use kafka_driver.Base.Lists.{any}

module _ {ℓ} {A : Type ℓ} where
  abbrev pub Distinct : (A → ℕ) → List A → Type 0
  Distinct f [] = Unit
  Distinct f (x ∷ xs) = (any (λ y. f y == f x) xs ≡ false) × Distinct f xs

  pub any-append : (p : A → Bool) (xs ys : List A) → any p (xs ++ ys) ≡ (any p xs || any p ys)
  any-append p [] ys = refl
  any-append p (x ∷ xs) ys = ground (arith, any-append p xs ys)

  -- A new entry whose key is not in use may go to the end.
  pub Distinct-snoc :
      (f : A → ℕ) (xs : List A) (x : A)
      → any (λ y. f y == f x) xs ≡ false
      → Distinct f xs
      → Distinct f (xs ++ x ∷ [])
  Distinct-snoc f [] x h d = (refl, tt)
  Distinct-snoc f (y ∷ ys) x h d =
      ground (arith, any-append (λ z. f z == f y) ys (x ∷ []), Distinct-snoc f ys x)
