-- ===== src/Core/Canonical/Sorting.antt =====
-- Sorting by a key, and what it means that no key is repeated: directory/set.rs and its like.
use kafka_driver.Base.{
  List, ◌≡◌, ◌∷◌, All, false, ◌≢◌, Bool-cases, [], inl, arith, inr, cmp_le_le, none, subst,
  cmp_lt_le, ◌↔◌, refl, true, All-map,
}
use kafka_driver.Core.Canonical.{
  not_greater, insert_by, sort_by, adjacent_duplicate, Ord, List, Ordering,
}

module _ {ℓ κ} {A : Type ℓ} {K : Type κ} ⦃o : Ord K⦄ (key : A → K) where
  -- Strictly ascending keys.
  abbrev pub Strict : List A → Type 0
  Strict [] = Unit
  Strict (x ∷ xs) = All (λ y. o.cmp (key x) (key y) ≡ Ordering.lt) xs × Strict xs

  abbrev pub Weak : List A → Type 0
  Weak [] = Unit
  Weak (x ∷ xs) = All (λ y. o.cmp (key x) (key y) ≢ Ordering.gt) xs × Weak xs

  -- No key is used twice.
  abbrev pub Keyed : List A → Type 0
  Keyed [] = Unit
  Keyed (x ∷ xs) = All (λ y. o.cmp (key x) (key y) ≢ Ordering.eq) xs × Keyed xs

  All-insert {μ} :
      (P : A → Type μ) (x : A) (xs : List A) → P x → All P xs → All P (insert_by key x xs)
  unfolding insert_by
  All-insert P x [] p h = (p, tt)
  All-insert P x (y ∷ ys) p h = elim (Bool-cases (not_greater key x y)) [
    | inl first ↦ rw first (p, h)
    | inr later ↦ rw later (h.0, All-insert P x ys p h.1)
  ]

  pub All-sort {μ} : (P : A → Type μ) (xs : List A) → All P xs → All P (sort_by key xs)
  unfolding sort_by
  All-sort P [] h = tt
  All-sort P (x ∷ xs) h = All-insert P x (sort_by key xs) h.0 (All-sort P xs h.1)

  not_less_first : (x y : A) → not_greater key x y ≡ false → o.cmp (key y) (key x) ≡ Ordering.lt
  not_less_first x y h = ground (arith, o.cmp_swap (key x) (key y), h)

  Weak-insert : (x : A) (xs : List A) → Weak xs → Weak (insert_by key x xs)
  unfolding insert_by
  Weak-insert x [] w = (tt, tt)
  Weak-insert x (y ∷ ys) w = elim (Bool-cases (not_greater key x y)) [
    | inl first ↦
        let le : o.cmp (key x) (key y) ≢ Ordering.gt = ground (arith, first) in
        let after =
          All-map (λ z. o.cmp (key y) (key z) ≢ Ordering.gt)
            (λ z. o.cmp (key x) (key z) ≢ Ordering.gt) (λ z. cmp_le_le (key x) (key y) (key z) le)
            ys w.0 in
        rw first ((le, after), w)
    | inr later ↦
        let le : o.cmp (key y) (key x) ≢ Ordering.gt = ground (arith, not_less_first x y later) in
        rw later
          (All-insert (λ z. o.cmp (key y) (key z) ≢ Ordering.gt) x ys le w.0, Weak-insert x ys w.1)
  ]

  Weak-sort : (xs : List A) → Weak (sort_by key xs)
  unfolding sort_by
  Weak-sort [] = tt
  Weak-sort (x ∷ xs) = Weak-insert x (sort_by key xs) (Weak-sort xs)

  Strict-Weak : (xs : List A) → Weak xs → adjacent_duplicate key xs ≡ none → Strict xs
  unfolding adjacent_duplicate
  Strict-Weak [] w h = tt
  Strict-Weak (x ∷ []) w h = (tt, tt)
  Strict-Weak (x ∷ y ∷ ys) w h =
      let (distinct, rest) : (o.cmp (key x) (key y) ≢ Ordering.eq)
          × (adjacent_duplicate key (y ∷ ys) ≡ none) =
        ground (arith, h) in
      let less : o.cmp (key x) (key y) ≡ Ordering.lt = ground (arith, w.0.0, distinct) in
      let after =
        All-map (λ z. o.cmp (key y) (key z) ≢ Ordering.gt)
          (λ z. o.cmp (key x) (key z) ≡ Ordering.lt) (λ z. cmp_lt_le (key x) (key y) (key z) less)
          ys w.1.0 in
      ((less, after), Strict-Weak (y ∷ ys) w.1 rest)

  no_adjacent : (xs : List A) → Strict xs → adjacent_duplicate key xs ≡ none
  unfolding adjacent_duplicate
  no_adjacent [] s = refl
  no_adjacent (x ∷ []) s = refl
  no_adjacent (x ∷ y ∷ ys) s = ground (arith, s.0.0, no_adjacent (y ∷ ys) s.1)

  Strict-insert :
      (x : A) (xs : List A)
      → All (λ y. o.cmp (key x) (key y) ≢ Ordering.eq) xs
      → Strict xs
      → Strict (insert_by key x xs)
  unfolding insert_by
  Strict-insert x [] n s = (tt, tt)
  Strict-insert x (y ∷ ys) n s = elim (Bool-cases (not_greater key x y)) [
    | inl first ↦
        let less : o.cmp (key x) (key y) ≡ Ordering.lt = ground (arith, first, n.0) in
        let after =
          All-map (λ z. o.cmp (key y) (key z) ≡ Ordering.lt)
            (λ z. o.cmp (key x) (key z) ≡ Ordering.lt)
            (λ z. o.cmp_trans (key x) (key y) (key z) less) ys s.0 in
        rw first ((less, after), s)
    | inr later ↦
        let less = not_less_first x y later in
        rw later (
          All-insert (λ z. o.cmp (key y) (key z) ≡ Ordering.lt) x ys less s.0,
          Strict-insert x ys n.1 s.1,
        )
  ]

  insert_first :
      (x y : A) (ys : List A) → not_greater key x y ≡ true → insert_by key x (y ∷ ys) ≡ x ∷ y ∷ ys
  unfolding insert_by
  insert_first x y ys h = ground (arith, h)

  insert_later :
      (x y : A) (ys : List A)
      → not_greater key x y ≡ false
      → insert_by key x (y ∷ ys) ≡ y ∷ insert_by key x ys
  unfolding insert_by
  insert_later x y ys h = ground (arith, h)

  -- What an insertion that is strict says of what it was made from.
  All-uninsert {μ} :
      (P : A → Type μ) (x : A) (xs : List A) → All P (insert_by key x xs) → P x × All P xs
  unfolding insert_by
  All-uninsert P x [] h = h
  All-uninsert P x (y ∷ ys) h = elim (Bool-cases (not_greater key x y)) [
    | inl first ↦ subst (All P) (insert_first x y ys first) h
    | inr later ↦
        let inner : All P (y ∷ insert_by key x ys) = subst (All P) (insert_later x y ys later) h in
        let rest = All-uninsert P x ys inner.1 in (rest.0, (inner.0, rest.1))
  ]

  Strict-uninsert :
      (x : A) (xs : List A)
      → Strict (insert_by key x xs)
      → All (λ y. o.cmp (key x) (key y) ≢ Ordering.eq) xs × Strict xs
  unfolding insert_by
  Strict-uninsert x [] s = (tt, tt)
  Strict-uninsert x (y ∷ ys) s = elim (Bool-cases (not_greater key x y)) [
    | inl first ↦
        let inner : Strict (x ∷ y ∷ ys) = subst Strict (insert_first x y ys first) s in
        (
          All-map (λ z. o.cmp (key x) (key z) ≡ Ordering.lt)
              (λ z. o.cmp (key x) (key z) ≢ Ordering.eq) (λ z less. ground (arith, less)) (y ∷ ys)
              inner.0,
          inner.1,
        )
    | inr later ↦
        let inner : Strict (y ∷ insert_by key x ys) = subst Strict (insert_later x y ys later) s in
        let outer = All-uninsert (λ z. o.cmp (key y) (key z) ≡ Ordering.lt) x ys inner.0 in
        let rest = Strict-uninsert x ys inner.1 in
        let apart : o.cmp (key x) (key y) ≢ Ordering.eq =
          ground (arith, o.cmp_swap (key y) (key x), outer.0) in
        ((apart, rest.0), (outer.1, rest.1))
  ]

  All-unsort {μ} : (P : A → Type μ) (xs : List A) → All P (sort_by key xs) → All P xs
  unfolding sort_by
  All-unsort P [] h = tt
  All-unsort P (x ∷ xs) h =
      let parts = All-uninsert P x (sort_by key xs) h in (parts.0, All-unsort P xs parts.1)

  pub Strict-sort : (xs : List A) → Keyed xs → Strict (sort_by key xs)
  unfolding sort_by
  Strict-sort [] k = tt
  Strict-sort (x ∷ xs) k =
      Strict-insert x (sort_by key xs) (All-sort (λ y. o.cmp (key x) (key y) ≢ Ordering.eq) xs k.0)
        (Strict-sort xs k.1)

  Keyed-sort : (xs : List A) → Strict (sort_by key xs) → Keyed xs
  unfolding sort_by
  Keyed-sort [] s = tt
  Keyed-sort (x ∷ xs) s =
      let parts = Strict-uninsert x (sort_by key xs) s in
      (All-unsort (λ y. o.cmp (key x) (key y) ≢ Ordering.eq) xs parts.0, Keyed-sort xs parts.1)

  -- Sorting leaves no neighbours with the same key exactly where no key is used twice.
  pub adjacent_iff : (xs : List A) → (adjacent_duplicate key (sort_by key xs) ≡ none) ↔ Keyed xs
  adjacent_iff xs = (
    λ h. Keyed-sort xs (Strict-Weak (sort_by key xs) (Weak-sort xs) h),
    λ k. no_adjacent (sort_by key xs) (Strict-sort xs k),
  )

  -- It is enough to compare neighbours.
  abbrev pub Chain : List A → Type 0
  Chain [] = Unit
  Chain (x ∷ []) = Unit
  Chain (x ∷ y ∷ ys) = (o.cmp (key x) (key y) ≡ Ordering.lt) × Chain (y ∷ ys)

  pub Strict-Chain : (xs : List A) → Chain xs → Strict xs
  Strict-Chain [] c = tt
  Strict-Chain (x ∷ []) c = (tt, tt)
  Strict-Chain (x ∷ y ∷ ys) c =
      let rest = Strict-Chain (y ∷ ys) c.1 in
      let after =
        All-map (λ z. o.cmp (key y) (key z) ≡ Ordering.lt)
          (λ z. o.cmp (key x) (key z) ≡ Ordering.lt) (λ z. o.cmp_trans (key x) (key y) (key z) c.0)
          ys rest.0 in
      ((c.0, after), rest)

  pub Chain-Strict : (xs : List A) → Strict xs → Chain xs
  Chain-Strict [] s = tt
  Chain-Strict (x ∷ []) s = tt
  Chain-Strict (x ∷ y ∷ ys) s = (s.0.0, Chain-Strict (y ∷ ys) s.1)
