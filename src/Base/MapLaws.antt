-- ===== src/Base/MapLaws.antt =====
-- The laws of ordered maps.
use Prim.Native.Nat.{Ordering}
use mathlib.Core.Option.{none, some}
use mathlib.Core.List.{List, [], ◌∷◌}
use kafka_driver.Base.Order.{Ord}
use mathlib.Core.Path.{◌≡◌, refl, sym, subst, ◌≡◌, ap₂}
use mathlib.Core.Logic.{◌≢◌, inl, inr}
use native.Mathlib.Omega.{arith}
use kafka_driver.Base.Order.{Ordering-cases}
use kafka_driver.Base.Lists.{All, All-map}
use kafka_driver.Base.OrderedMap.{insert, remove, lookup, first_after}

module _ {ℓ} {K : Type ℓ} ⦃o : Ord K⦄ where
  -- A key that equals the head's is skipped with it.
  other_head :
      (k l j : K) → o.cmp l k ≢ Ordering.eq → o.cmp k j ≡ Ordering.eq → o.cmp l j ≢ Ordering.eq
  other_head k l j h same = subst (λ j. o.cmp l j ≢ Ordering.eq) (o.cmp_eq k j same) h

module _ {ℓ κ} {K : Type ℓ} {V : Type κ} ⦃o : Ord K⦄ where
  -- Keys in strictly ascending order.
  abbrev pub Sorted : List (K × V) → Type 0
  Sorted [] = Unit
  Sorted (x ∷ m) = All (λ y. o.cmp x.0 y.0 ≡ Ordering.lt) m × Sorted m

  pub lookup-insert_same : (k : K) (v : V) (m : List (K × V)) → lookup k (insert k v m) ≡ some v
  unfolding lookup insert
  lookup-insert_same k v [] = rw (o.cmp_self k) refl
  lookup-insert_same k v ((j, w) ∷ m) =
      ground (arith, o.cmp_self k, lookup-insert_same k v m, Ordering-cases (o.cmp k j))

  pub lookup-insert_other :
      (k l : K) (v : V) (m : List (K × V))
      → o.cmp l k ≢ Ordering.eq
      → lookup l (insert k v m) ≡ lookup l m
  unfolding lookup insert
  lookup-insert_other k l v [] h = ground (arith, h)
  lookup-insert_other k l v ((j, w) ∷ m) h =
      ground
        (arith, h, lookup-insert_other k l v m h, other_head k l j h, Ordering-cases (o.cmp k j))

  pub lookup-remove_other :
      (k l : K) (m : List (K × V)) → o.cmp l k ≢ Ordering.eq → lookup l (remove k m) ≡ lookup l m
  unfolding lookup remove
  lookup-remove_other k l [] h = refl
  lookup-remove_other k l ((j, w) ∷ m) h =
      ground (arith, h, lookup-remove_other k l m h, other_head k l j h, Ordering-cases (o.cmp k j))

  lookup-absent :
      (k : K) (m : List (K × V)) → All (λ y. o.cmp k y.0 ≡ Ordering.lt) m → lookup k m ≡ none
  unfolding lookup
  lookup-absent k [] h = refl
  lookup-absent k ((j, w) ∷ m) h = rw (lookup, h.0) (lookup-absent k m h.1)

  pub lookup-remove_same : (k : K) (m : List (K × V)) → Sorted m → lookup k (remove k m) ≡ none
  unfolding lookup remove
  lookup-remove_same k [] s = refl
  lookup-remove_same k ((j, w) ∷ m) s = elim (Ordering-cases (o.cmp k j)) [
    | inl less ↦ rw (remove, less, lookup, less) (lookup-remove_same k m s.1)
    | inr (inl same) ↦
        rw (remove, same)
          (lookup-absent k m
            (subst (λ j. All (λ y. o.cmp j y.0 ≡ Ordering.lt) m) (sym (o.cmp_eq k j same)) s.0))
    | inr (inr greater) ↦ rw (remove, greater, lookup, greater) (lookup-remove_same k m s.1)
  ]

  All-insert {μ} :
      (P : K × V → Type μ) (k : K) (v : V) (m : List (K × V))
      → P (k, v)
      → All P m
      → All P (insert k v m)
  unfolding insert
  All-insert P k v [] p h = (p, tt)
  All-insert P k v ((j, w) ∷ m) p h = elim (Ordering-cases (o.cmp k j)) [
    | inl less ↦ rw (insert, less) (p, h)
    | inr (inl same) ↦ rw (insert, same) (p, h.1)
    | inr (inr greater) ↦ rw (insert, greater) (h.0, All-insert P k v m p h.1)
  ]

  All-remove {μ} : (P : K × V → Type μ) (k : K) (m : List (K × V)) → All P m → All P (remove k m)
  unfolding remove
  All-remove P k [] h = tt
  All-remove P k ((j, w) ∷ m) h = elim (Ordering-cases (o.cmp k j)) [
    | inl less ↦ rw (remove, less) (h.0, All-remove P k m h.1)
    | inr (inl same) ↦ rw (remove, same) h.1
    | inr (inr greater) ↦ rw (remove, greater) (h.0, All-remove P k m h.1)
  ]

  pub insert-Sorted : (k : K) (v : V) (m : List (K × V)) → Sorted m → Sorted (insert k v m)
  unfolding insert
  insert-Sorted k v [] s = (tt, tt)
  insert-Sorted k v ((j, w) ∷ m) s = elim (Ordering-cases (o.cmp k j)) [
    | inl less ↦
        rw (insert, less)
          (
            (
              less,
              All-map (λ y. o.cmp j y.0 ≡ Ordering.lt) (λ y. o.cmp k y.0 ≡ Ordering.lt)
                  (λ y h. o.cmp_trans k j y.0 less h) m s.0,
            ),
            s,
          )
    | inr (inl same) ↦
        rw (insert, same)
          (subst (λ j. All (λ y. o.cmp j y.0 ≡ Ordering.lt) m) (sym (o.cmp_eq k j same)) s.0, s.1)
    | inr (inr greater) ↦
        let before : o.cmp j k ≡ Ordering.lt = ground (arith, o.cmp_swap k j, greater) in
        rw (insert, greater)
          (All-insert (λ y. o.cmp j y.0 ≡ Ordering.lt) k v m before s.0, insert-Sorted k v m s.1)
  ]

  pub remove-Sorted : (k : K) (m : List (K × V)) → Sorted m → Sorted (remove k m)
  unfolding remove
  remove-Sorted k [] s = tt
  remove-Sorted k ((j, w) ∷ m) s = elim (Ordering-cases (o.cmp k j)) [
    | inl less ↦
        rw (remove, less)
          (All-remove (λ y. o.cmp j y.0 ≡ Ordering.lt) k m s.0, remove-Sorted k m s.1)
    | inr (inl same) ↦ rw (remove, same) s.1
    | inr (inr greater) ↦
        rw (remove, greater)
          (All-remove (λ y. o.cmp j y.0 ≡ Ordering.lt) k m s.0, remove-Sorted k m s.1)
  ]

  pub lookup-All {μ} :
      (P : K × V → Type μ) (k : K) (v : V) (m : List (K × V))
      → All P m
      → lookup k m ≡ some v
      → P (k, v)
  unfolding lookup
  lookup-All P k v [] h found = absurd (ground (arith, found))
  lookup-All P k v ((j, w) ∷ m) h found = follow (lookup-All P k v m h.1) (o.cmp k j) refl
    where
      follow : (lookup k m ≡ some v → P (k, v)) → (r : Ordering) → o.cmp k j ≡ r → P (k, v)
      follow later Ordering.lt less = later (ground (arith, found, less))
      follow later Ordering.eq same =
          let value : w ≡ v = ground (arith, found, same) in
          subst P (ap₂ (λ x y. (x, y)) (sym (o.cmp_eq k j same)) value) h.0
      follow later Ordering.gt greater = later (ground (arith, found, greater))

  pub lookup_head : (k : K) (v : V) (m : List (K × V)) → lookup k ((k, v) ∷ m) ≡ some v
  unfolding lookup
  lookup_head k v m = rw (lookup, o.cmp_self k) refl

  pub remove_head : (k : K) (v : V) (m : List (K × V)) → remove k ((k, v) ∷ m) ≡ m
  unfolding remove
  remove_head k v m = rw (remove, o.cmp_self k) refl

  -- What a lookup finds is found behind any smaller key.
  pub lookup_behind :
      (x : K × V) (m : List (K × V)) (k : K) (v : V)
      → Sorted (x ∷ m)
      → lookup k m ≡ some v
      → lookup k (x ∷ m) ≡ some v
  unfolding lookup
  lookup_behind x m k v s h =
      let less = lookup-All (λ y. o.cmp x.0 y.0 ≡ Ordering.lt) k v m s.0 h in
      ground (arith, less, h, o.cmp_swap x.0 k)

  pub lookup-first_after :
      (c : K) (m : List (K × V)) (x : K × V)
      → Sorted m
      → first_after c m ≡ some x
      → lookup x.0 m ≡ some x.1
  unfolding first_after
  lookup-first_after c [] x s h = absurd (ground (arith, h))
  lookup-first_after c (y ∷ m) x s h =
      follow (λ k. lookup_behind y m x.0 x.1 s (lookup-first_after c m x s.1 k)) (o.cmp c y.0) refl
    where
      follow :
          (first_after c m ≡ some x → lookup x.0 (y ∷ m) ≡ some x.1)
          → (r : Ordering) → o.cmp c y.0 ≡ r
          → lookup x.0 (y ∷ m) ≡ some x.1
      follow later Ordering.lt less =
          let same : y ≡ x = ground (arith, h, less) in
          subst (λ x. lookup x.0 (y ∷ m) ≡ some x.1) same (lookup_head y.0 y.1 m)
      follow later Ordering.eq same = later (ground (arith, h, same))
      follow later Ordering.gt greater = later (ground (arith, h, greater))

  pub All-lookup {μ} :
      (P : K × V → Type μ) (m : List (K × V))
      → Sorted m
      → ((k : K) (v : V) → lookup k m ≡ some v → P (k, v))
      → All P m
  All-lookup P [] s h = tt
  All-lookup P (x ∷ m) s h = (
    h x.0 x.1 (lookup_head x.0 x.1 m),
    All-lookup P m s.1 (λ k v found. h k v (lookup_behind x m k v s found)),
  )
