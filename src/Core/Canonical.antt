-- ===== src/Core/Canonical.antt =====
-- The canonical collections of the policy crate, sorted by a key without repeats: directory/set.rs,
-- metadata/partition/set.rs, metadata/topic.rs and capability/set.rs of crates/kafka-driver-core/src
-- build or search them in the same way.
pub mod Sorting
pub mod Lookup
pub mod Removal
use Prim.Native.Nat.{Ordering, ℕ, suc}
use kafka_driver.Base.{
  Bool, Option, none, some, List, [], ◌∷◌, Ord, if◌then◌else◌, is_eq, binary_search_by, entry_at,
  false, true, ℕ, suc, zero,
}

module _ {ℓ κ} {A : Type ℓ} {K : Type κ} ⦃o : Ord K⦄ (key : A → K) where
  abbrev pub not_greater : A → A → Bool
  not_greater x y = elim (o.cmp (key x) (key y)) [ Ordering.gt ↦ false | _ ↦ true ]

  -- `sort_unstable_by`: the order of entries with equal keys is not promised, and a collection with
  -- such entries is refused. It is modelled by insertion.
  unfoldable pub insert_by : A → List A → List A
  insert_by x [] = x ∷ []
  insert_by x (y ∷ ys) =
      let rest = insert_by x ys in if not_greater x y then x ∷ y ∷ ys else y ∷ rest

  unfoldable pub sort_by : List A → List A
  unfolding insert_by
  sort_by [] = []
  sort_by (x ∷ xs) = insert_by x (sort_by xs)

  -- The first of `windows(2)` whose keys are the same.
  unfoldable pub adjacent_duplicate : List A → Option A
  adjacent_duplicate [] = none
  adjacent_duplicate (x ∷ []) = none
  adjacent_duplicate (x ∷ y ∷ ys) =
      let rest = adjacent_duplicate (y ∷ ys) in
      if is_eq (o.cmp (key x) (key y)) then some x else rest

  -- `binary_search_by` followed by the entry at the index.
  unfoldable pub find_by : List A → K → Option A
  unfolding binary_search_by
  find_by xs k = entry_at (λ x. o.cmp (key x) k) xs (binary_search_by (λ x. o.cmp (key x) k) xs)

  -- `Vec::remove`.
  abbrev pub remove_at : ℕ → List A → List A
  remove_at i [] = []
  remove_at zero (x ∷ xs) = xs
  remove_at (suc i) (x ∷ xs) = x ∷ remove_at i xs

  abbrev pub remove_found : Option ℕ → List A → List A
  remove_found none xs = xs
  remove_found (some i) xs = remove_at i xs

  unfoldable pub remove_by : List A → K → List A
  unfolding binary_search_by
  remove_by xs k = remove_found (binary_search_by (λ x. o.cmp (key x) k) xs) xs
