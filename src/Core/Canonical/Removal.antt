-- ===== src/Core/Canonical/Removal.antt =====
-- The removal of a key: `remove` of metadata/partition/set.rs.
use kafka_driver.Base.{
  ℕ, List, All, ◌∷◌, get_elem?, ◌≡◌, Option-cases, find?, ◌≢◌, suc, some, true, binary_search_by,
  none, false, arith, inl, ◌∙◌, Bool-cases, [], subst, inr, sym, is_eq, zero, refl, All-get,
  search_hits,
}
use kafka_driver.Core.Canonical.{find_by, remove_by, remove_at, Ord, ℕ, List, Ordering}
use kafka_driver.Core.Canonical.Sorting.{Strict}
use kafka_driver.Core.Canonical.Lookup.{has_key, find_by-find, other_key}

module _ {ℓ κ} {A : Type ℓ} {K : Type κ} ⦃o : Ord K⦄ (key : A → K) where
  All-remove {μ} : (P : A → Type μ) (i : ℕ) (xs : List A) → All P xs → All P (remove_at key i xs)
  All-remove P i [] h = h
  All-remove P zero (x ∷ xs) h = h.1
  All-remove P (suc i) (x ∷ xs) h = (h.0, All-remove P i xs h.1)

  remove_at-Strict : (i : ℕ) (xs : List A) → Strict key xs → Strict key (remove_at key i xs)
  remove_at-Strict i [] s = s
  remove_at-Strict zero (x ∷ xs) s = s.1
  remove_at-Strict (suc i) (x ∷ xs) s =
      (All-remove (λ y. o.cmp (key x) (key y) ≡ Ordering.lt) i xs s.0, remove_at-Strict i xs s.1)

  find-remove_other :
      (k : K) (i : ℕ) (xs : List A) (a : A)
      → get_elem? xs i ≡ some a
      → has_key key k a ≡ false
      → find? (has_key key k) (remove_at key i xs) ≡ find? (has_key key k) xs
  find-remove_other k i [] a at_i miss = refl
  find-remove_other k zero (x ∷ xs) a at_i miss =
      let same : x ≡ a = ground (arith, at_i) in
      let x_miss = subst (λ z. has_key key k z ≡ false) (sym same) miss in ground (arith, x_miss)
  find-remove_other k (suc i) (x ∷ xs) a at_i miss =
      ground (arith, find-remove_other k i xs a at_i miss)

  nothing_else :
      (k : K) (x : A) (xs : List A)
      → has_key key k x ≡ true
      → All (λ y. o.cmp (key x) (key y) ≡ Ordering.lt) xs
      → find? (has_key key k) xs ≡ none
  nothing_else k x [] hit h = refl
  nothing_else k x (y ∷ ys) hit h =
      let apart : o.cmp (key x) (key y) ≢ Ordering.eq = ground (arith, h.0) in
      ground (arith, other_key key k x y apart hit, nothing_else k x ys hit h.1)

  find-remove_same :
      (k : K) (i : ℕ) (xs : List A) (a : A)
      → Strict key xs
      → get_elem? xs i ≡ some a
      → has_key key k a ≡ true
      → find? (has_key key k) (remove_at key i xs) ≡ none
  find-remove_same k i [] a s at_i hit = refl
  find-remove_same k zero (x ∷ xs) a s at_i hit =
      let same : x ≡ a = ground (arith, at_i) in
      nothing_else k x xs (subst (λ z. has_key key k z ≡ true) (sym same) hit) s.0
  find-remove_same k (suc i) (x ∷ xs) a s at_i hit =
      let less = All-get (λ y. o.cmp (key x) (key y) ≡ Ordering.lt) xs i a s.0 at_i in
      let apart : o.cmp (key a) (key x) ≢ Ordering.eq =
        ground (arith, o.cmp_swap (key x) (key a), less) in
      ground (arith, other_key key k a x apart hit, find-remove_same k i xs a s.1 at_i hit)

  pub remove_by-Strict : (xs : List A) (k : K) → Strict key xs → Strict key (remove_by key xs k)
  unfolding remove_by
  remove_by-Strict xs k s = elim (Option-cases (binary_search_by (λ x. o.cmp (key x) k) xs)) [
    | inl nothing ↦ rw nothing s
    | inr (i, there) ↦ rw there (remove_at-Strict i xs s)
  ]

  find-removed_same :
      (xs : List A) (k : K) → Strict key xs → find? (has_key key k) (remove_by key xs k) ≡ none
  unfolding remove_by find_by
  find-removed_same xs k s = elim (Option-cases (binary_search_by (λ x. o.cmp (key x) k) xs)) [
    | inl nothing ↦
        let missing : find_by key xs k ≡ none = rw nothing refl in
        rw nothing (sym (find_by-find key xs k s) ∙ missing)
    | inr (i, there) ↦
        let (a, (at_i, hit)) = search_hits (λ x. o.cmp (key x) k) xs i there in
        rw there (find-remove_same k i xs a s at_i hit)
  ]

  find-removed_other :
      (xs : List A) (k other : K)
      → o.cmp k other ≢ Ordering.eq
      → find? (has_key key other) (remove_by key xs k) ≡ find? (has_key key other) xs
  unfolding remove_by
  find-removed_other xs k other apart =
      elim (Option-cases (binary_search_by (λ x. o.cmp (key x) k) xs)) [
        | inl nothing ↦ rw nothing refl
        | inr (i, there) ↦
            let (a, (at_i, hit)) = search_hits (λ x. o.cmp (key x) k) xs i there in
            let a_is = o.cmp_eq (key a) k (ground (arith, hit)) in
            let apart' = subst (λ z. o.cmp z other ≢ Ordering.eq) (sym a_is) apart in
            rw there (find-remove_other other i xs a at_i (ground (arith, apart')))
      ]

  -- After the removal of a key it is found no more.
  pub removed_same :
      (xs : List A) (k : K) → Strict key xs → find_by key (remove_by key xs k) k ≡ none
  removed_same xs k s =
      find_by-find key (remove_by key xs k) k (remove_by-Strict xs k s) ∙ find-removed_same xs k s

  -- Every other key is found as before.
  pub removed_other :
      (xs : List A) (k other : K)
      → Strict key xs
      → o.cmp k other ≢ Ordering.eq
      → find_by key (remove_by key xs k) other ≡ find_by key xs other
  removed_other xs k other s apart =
      find_by-find key (remove_by key xs k) other (remove_by-Strict xs k s)
      ∙ (find-removed_other xs k other apart ∙ sym (find_by-find key xs other s))

  -- What was not found before is not found after.
  pub removed_none :
      (xs : List A) (k other : K)
      → Strict key xs
      → find_by key xs other ≡ none
      → find_by key (remove_by key xs k) other ≡ none
  removed_none xs k other s missing = elim (Bool-cases (is_eq (o.cmp k other))) [
    | inl same ↦
        let e = o.cmp_eq k other (ground (arith, same)) in
        subst (λ z. find_by key (remove_by key xs k) z ≡ none) e (removed_same xs k s)
    | inr apart ↦ removed_other xs k other s (ground (arith, apart)) ∙ missing
  ]
