-- ===== src/Base/OrderedMap.antt =====
-- The standard library's `BTreeMap`: the list of its entries, in the order of their keys.
use Prim.Native.Nat.{Ordering}
use mathlib.Core.Option.{Option, none, some}
use mathlib.Core.List.{List, [], ◌∷◌}
use kafka_driver.Base.Order.{Ord}

module _ {ℓ κ} {K : Type ℓ} {V : Type κ} ⦃o : Ord K⦄ where
  -- An entry with the key is replaced.
  unfoldable pub insert : K → V → List (K × V) → List (K × V)
  insert k v [] = (k, v) ∷ []
  insert k v ((j, w) ∷ m) =
      let rest = insert k v m in
      elim (o.cmp k j) [
        | Ordering.lt ↦ (k, v) ∷ (j, w) ∷ m
        | Ordering.eq ↦ (k, v) ∷ m
        | Ordering.gt ↦ (j, w) ∷ rest
      ]

  unfoldable pub remove : K → List (K × V) → List (K × V)
  remove k [] = []
  remove k ((j, w) ∷ m) =
      let rest = remove k m in elim (o.cmp k j) [ Ordering.eq ↦ m | _ ↦ (j, w) ∷ rest ]

  unfoldable pub lookup : K → List (K × V) → Option V
  lookup k [] = none
  lookup k ((j, w) ∷ m) =
      let rest = lookup k m in elim (o.cmp k j) [ Ordering.eq ↦ some w | _ ↦ rest ]

  -- The first entry behind a key: `range((Excluded(k), Unbounded)).next()`.
  unfoldable pub first_after : K → List (K × V) → Option (K × V)
  first_after k [] = none
  first_after k ((j, w) ∷ m) =
      let rest = first_after k m in elim (o.cmp k j) [ Ordering.lt ↦ some (j, w) | _ ↦ rest ]
