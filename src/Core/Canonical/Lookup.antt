-- ===== src/Core/Canonical/Lookup.antt =====
-- Lookups in a canonical collection: the `find` of directory/set.rs, metadata/partition/set.rs and
-- metadata/topic.rs, and `api` of capability/set.rs.
use kafka_driver.Base.{
  Bool, List, ◌≡◌, ◌≢◌, is_eq, Ordered, find?, All, arith, ◌∷◌, search_finds, true, cmp_flip, false,
  [], cmp_le_lt, refl, Bool-cases, ◌∙◌, inr, inl, subst, sym, All-map, some, ℕ, get_elem?,
  Option-cases, binary_search_by, search_hits, ap,
}
use kafka_driver.Core.Canonical.{insert_by, sort_by, find_by, Ord, Bool, List, Ordering}
use kafka_driver.Core.Canonical.Sorting.{Strict, Keyed, Strict-sort, All-sort}

module _ {ℓ κ} {A : Type ℓ} {K : Type κ} ⦃o : Ord K⦄ (key : A → K) where
  -- The reference: the first entry with the key, in any list.
  abbrev pub has_key : K → A → Bool
  has_key k x = is_eq (o.cmp (key x) k)

  after_key :
      (k : K) (x y : A)
      → o.cmp (key x) (key y) ≡ Ordering.lt
      → o.cmp (key x) k ≢ Ordering.lt
      → o.cmp (key y) k ≡ Ordering.gt
  after_key k x y h n =
      let le : o.cmp k (key x) ≢ Ordering.gt = ground (arith, o.cmp_swap (key x) k, n) in
      cmp_flip k (key y) (cmp_le_lt k (key x) (key y) le h)

  Strict-Ordered : (k : K) (xs : List A) → Strict key xs → Ordered (λ x. o.cmp (key x) k) xs
  Strict-Ordered k [] s = tt
  Strict-Ordered k (x ∷ xs) s = (
    All-map (λ y. o.cmp (key x) (key y) ≡ Ordering.lt)
        (λ y. o.cmp (key x) k ≢ Ordering.lt → o.cmp (key y) k ≡ Ordering.gt) (λ y. after_key k x y)
        xs s.0,
    Strict-Ordered k xs s.1,
  )

  -- In a strictly ascending collection the binary search finds what a linear search by key finds.
  pub find_by-find : (xs : List A) (k : K) → Strict key xs → find_by key xs k ≡ find? (has_key k) xs
  unfolding find_by
  find_by-find xs k s = search_finds (λ x. o.cmp (key x) k) xs (Strict-Ordered k xs s)

  pub other_key :
      (k : K) (x y : A)
      → o.cmp (key x) (key y) ≢ Ordering.eq
      → has_key k x ≡ true
      → has_key k y ≡ false
  other_key k x y n h = elim (Bool-cases (has_key k y)) [
    | inr miss ↦ miss
    | inl hit ↦
        let x_is = o.cmp_eq (key x) k (ground (arith, h)) in
        let y_is = o.cmp_eq (key y) k (ground (arith, hit)) in
        let same : o.cmp (key x) (key y) ≡ Ordering.eq =
          subst (λ z. o.cmp (key x) z ≡ Ordering.eq) (x_is ∙ sym y_is) (o.cmp_self (key x)) in
        absurd (n same)
  ]

  find-insert :
      (k : K) (x : A) (xs : List A)
      → All (λ y. o.cmp (key x) (key y) ≢ Ordering.eq) xs
      → find? (has_key k) (insert_by key x xs) ≡ find? (has_key k) (x ∷ xs)
  unfolding insert_by
  find-insert k x [] n = refl
  find-insert k x (y ∷ ys) n = elim (Bool-cases (has_key k x)) [
    | inl hit ↦ ground (arith, hit, other_key k x y n.0 hit, find-insert k x ys n.1)
    | inr miss ↦ ground (arith, miss, find-insert k x ys n.1)
  ]

  find-sort :
      (k : K) (xs : List A)
      → Keyed key xs
      → find? (has_key k) (sort_by key xs) ≡ find? (has_key k) xs
  unfolding sort_by
  find-sort k [] h = refl
  find-sort k (x ∷ xs) h =
      let apart = All-sort key (λ y. o.cmp (key x) (key y) ≢ Ordering.eq) xs h.0 in
      let inserted = find-insert k x (sort_by key xs) apart in
      ground (arith, inserted, find-sort k xs h.1)

  -- Looking a key up in the sorted collection finds the entry that the source has for it.
  pub find_by-sort :
      (xs : List A) (k : K) → Keyed key xs → find_by key (sort_by key xs) k ≡ find? (has_key k) xs
  find_by-sort xs k h = find_by-find (sort_by key xs) k (Strict-sort key xs h) ∙ find-sort k xs h

  -- What is found is an entry of the collection with the key.
  pub find_by_hits :
      (xs : List A) (k : K) (x : A)
      → find_by key xs k ≡ some x
      → (i : ℕ) × ((get_elem? xs i ≡ some x) × (key x ≡ k))
  unfolding find_by
  find_by_hits xs k x h = elim (Option-cases (binary_search_by (λ y. o.cmp (key y) k) xs)) [
    | inl nothing ↦ absurd (ground (arith, h, nothing))
    | inr (i, there) ↦
        let (a, (at_i, hit)) = search_hits (λ y. o.cmp (key y) k) xs i there in
        let same : a ≡ x = ground (arith, h, there, at_i) in
        (i, (at_i ∙ ap some same, ap key (sym same) ∙ o.cmp_eq (key a) k (ground (arith, hit))))
  ]
