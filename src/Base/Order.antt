-- ===== src/Base/Order.antt =====
-- The `Ord` of the program's keys, as an interface with its laws: numbers, strings and pairs.
use Prim.Native.Nat.{ℕ, compare, Ordering}
use mathlib.Core.Path.{◌≡◌, refl, sym, ap₂, subst}
use mathlib.Core.Logic.{◌≢◌, ◌⊎◌, inl, inr}
use mathlib.Core.List.{List, [], ◌∷◌}
use native.Mathlib.Omega.{arith}

abbrev pub swap : Ordering → Ordering
swap o = elim o [
  | Ordering.lt ↦ Ordering.gt
  | Ordering.eq ↦ Ordering.eq
  | Ordering.gt ↦ Ordering.lt
]

-- `Ordering::then_with`.
abbrev pub then_with : Ordering → Ordering → Ordering
then_with first second = elim first [
  | Ordering.eq ↦ second
  | Ordering.lt ↦ Ordering.lt
  | Ordering.gt ↦ Ordering.gt
]

pub Ordering-cases : (o : Ordering) → (o ≡ Ordering.lt) ⊎ ((o ≡ Ordering.eq) ⊎ (o ≡ Ordering.gt))
Ordering-cases o = ground arith

pub record Ord {ℓ} (K : Type ℓ) : Type ℓ where
  pub cmp : K → K → Ordering
  pub cmp_self : (a : K) → cmp a a ≡ Ordering.eq
  pub cmp_eq : (a b : K) → cmp a b ≡ Ordering.eq → a ≡ b
  pub cmp_swap : (a b : K) → cmp b a ≡ swap (cmp a b)
  pub cmp_trans :
      (a b c : K) → cmp a b ≡ Ordering.lt → cmp b c ≡ Ordering.lt → cmp a c ≡ Ordering.lt

pub compare_eq : (a b : ℕ) → compare a b ≡ Ordering.eq → a ≡ b
compare_eq a b h = ground (arith, h)

pub compare_self : (a : ℕ) → compare a a ≡ Ordering.eq
compare_self a = ground arith

pub compare-swap : (a b : ℕ) → compare b a ≡ swap (compare a b)
compare-swap a b = ground arith

pub compare_trans :
    (a b c : ℕ) → compare a b ≡ Ordering.lt → compare b c ≡ Ordering.lt → compare a c ≡ Ordering.lt
compare_trans a b c h k = ground (arith, h, k)

instance abbrev pub nat_ord : Ord ℕ
nat_ord = record {
  cmp = compare;
  cmp_self = compare_self;
  cmp_eq = compare_eq;
  cmp_swap = compare-swap;
  cmp_trans = compare_trans;
}

module _ {ℓ} {K : Type ℓ} ⦃o : Ord K⦄ where
  -- At most, then less: less.
  pub cmp_le_lt :
      (a b c : K) → o.cmp a b ≢ Ordering.gt → o.cmp b c ≡ Ordering.lt → o.cmp a c ≡ Ordering.lt
  cmp_le_lt a b c h k = elim (Ordering-cases (o.cmp a b)) [
    | inl less ↦ o.cmp_trans a b c less k
    | inr (inl same) ↦ subst (λ x. o.cmp x c ≡ Ordering.lt) (sym (o.cmp_eq a b same)) k
    | inr (inr greater) ↦ absurd (h greater)
  ]

  pub cmp_lt_le :
      (a b c : K) → o.cmp a b ≡ Ordering.lt → o.cmp b c ≢ Ordering.gt → o.cmp a c ≡ Ordering.lt
  cmp_lt_le a b c h k = elim (Ordering-cases (o.cmp b c)) [
    | inl less ↦ o.cmp_trans a b c h less
    | inr (inl same) ↦ subst (λ x. o.cmp a x ≡ Ordering.lt) (o.cmp_eq b c same) h
    | inr (inr greater) ↦ absurd (k greater)
  ]

  pub cmp_le_le :
      (a b c : K) → o.cmp a b ≢ Ordering.gt → o.cmp b c ≢ Ordering.gt → o.cmp a c ≢ Ordering.gt
  cmp_le_le a b c h k = elim (Ordering-cases (o.cmp a b)) [
    | inl less ↦ ground (arith, cmp_lt_le a b c less k)
    | inr (inl same) ↦ subst (λ x. o.cmp x c ≢ Ordering.gt) (sym (o.cmp_eq a b same)) k
    | inr (inr greater) ↦ absurd (h greater)
  ]

  pub cmp_flip : (a b : K) → o.cmp a b ≡ Ordering.lt → o.cmp b a ≡ Ordering.gt
  cmp_flip a b h = ground (arith, o.cmp_swap a b, h)

  pub then_trans :
      (a b c : K) (r s t : Ordering)
      → then_with (o.cmp a b) r ≡ Ordering.lt
      → then_with (o.cmp b c) s ≡ Ordering.lt
      → (r ≡ Ordering.lt → s ≡ Ordering.lt → t ≡ Ordering.lt)
      → then_with (o.cmp a c) t ≡ Ordering.lt
  then_trans a b c r s t h k later = elim (Ordering-cases (o.cmp a b)) [
    | inl less ↦
        let le : o.cmp b c ≢ Ordering.gt = ground (arith, k) in
        ground (arith, cmp_lt_le a b c less le)
    | inr (inl same) ↦
        let e : a ≡ b = o.cmp_eq a b same in
        let rest : r ≡ Ordering.lt = ground (arith, h, same) in rw e (follow rest)
    | inr (inr greater) ↦ absurd (ground (arith, h, greater))
  ]
    where
      follow : r ≡ Ordering.lt → then_with (o.cmp b c) t ≡ Ordering.lt
      follow rest = elim (Ordering-cases (o.cmp b c)) [
        | inl less ↦ ground (arith, less)
        | inr (inl same) ↦
            let s_less : s ≡ Ordering.lt = ground (arith, k, same) in
            ground (arith, same, later rest s_less)
        | inr (inr greater) ↦ absurd (ground (arith, k, greater))
      ]

-- The lexicographic orders of lists and of pairs.
module _ {ℓ} {K : Type ℓ} ⦃o : Ord K⦄ where
  abbrev pub cmp_list : List K → List K → Ordering
  cmp_list [] [] = Ordering.eq
  cmp_list [] (y ∷ ys) = Ordering.lt
  cmp_list (x ∷ xs) [] = Ordering.gt
  cmp_list (x ∷ xs) (y ∷ ys) = then_with (o.cmp x y) (cmp_list xs ys)

  pub cmp_list_self : (xs : List K) → cmp_list xs xs ≡ Ordering.eq
  cmp_list_self [] = refl
  cmp_list_self (x ∷ xs) = rw (o.cmp_self x) (cmp_list_self xs)

  pub cmp_list_eq : (xs ys : List K) → cmp_list xs ys ≡ Ordering.eq → xs ≡ ys
  cmp_list_eq [] [] h = refl
  cmp_list_eq [] (y ∷ ys) h = absurd (ground (arith, h))
  cmp_list_eq (x ∷ xs) [] h = absurd (ground (arith, h))
  cmp_list_eq (x ∷ xs) (y ∷ ys) h =
      let both : (o.cmp x y ≡ Ordering.eq) × (cmp_list xs ys ≡ Ordering.eq) = ground (arith, h) in
      ap₂ ◌∷◌ (o.cmp_eq x y both.0) (cmp_list_eq xs ys both.1)

  pub cmp_list-swap : (xs ys : List K) → cmp_list ys xs ≡ swap (cmp_list xs ys)
  cmp_list-swap [] [] = refl
  cmp_list-swap [] (y ∷ ys) = refl
  cmp_list-swap (x ∷ xs) [] = refl
  cmp_list-swap (x ∷ xs) (y ∷ ys) = ground (arith, o.cmp_swap x y, cmp_list-swap xs ys)

  pub cmp_list_trans :
      (xs ys zs : List K)
      → cmp_list xs ys ≡ Ordering.lt
      → cmp_list ys zs ≡ Ordering.lt
      → cmp_list xs zs ≡ Ordering.lt
  cmp_list_trans xs ys [] h k = absurd (no_less ys k)
    where
      no_less : (ys : List K) → cmp_list ys [] ≡ Ordering.lt → ⊥
      no_less [] k = ground (arith, k)
      no_less (y ∷ ys) k = ground (arith, k)
  cmp_list_trans [] ys (z ∷ zs) h k = refl
  cmp_list_trans (x ∷ xs) [] (z ∷ zs) h k = absurd (ground (arith, h))
  cmp_list_trans (x ∷ xs) (y ∷ ys) (z ∷ zs) h k =
      then_trans x y z (cmp_list xs ys) (cmp_list ys zs) (cmp_list xs zs) h k
        (cmp_list_trans xs ys zs)

instance abbrev pub list_ord {ℓ} : {K : Type ℓ} ⦃o : Ord K⦄ → Ord (List K)
list_ord = record {
  cmp = cmp_list;
  cmp_self = cmp_list_self;
  cmp_eq = cmp_list_eq;
  cmp_swap = cmp_list-swap;
  cmp_trans = cmp_list_trans;
}

module _ {ℓ κ} {K : Type ℓ} {L : Type κ} ⦃o : Ord K⦄ ⦃q : Ord L⦄ where
  abbrev pub cmp_pair : K × L → K × L → Ordering
  cmp_pair a b = then_with (o.cmp a.0 b.0) (q.cmp a.1 b.1)

  pub cmp_pair_self : (a : K × L) → cmp_pair a a ≡ Ordering.eq
  cmp_pair_self a = rw (o.cmp_self a.0) (q.cmp_self a.1)

  pub cmp_pair_eq : (a b : K × L) → cmp_pair a b ≡ Ordering.eq → a ≡ b
  cmp_pair_eq a b h =
      let both : (o.cmp a.0 b.0 ≡ Ordering.eq) × (q.cmp a.1 b.1 ≡ Ordering.eq) =
        ground (arith, h) in
      ap₂ (λ x y. (x, y)) (o.cmp_eq a.0 b.0 both.0) (q.cmp_eq a.1 b.1 both.1)

  pub cmp_pair-swap : (a b : K × L) → cmp_pair b a ≡ swap (cmp_pair a b)
  cmp_pair-swap a b = ground (arith, o.cmp_swap a.0 b.0, q.cmp_swap a.1 b.1)

  pub cmp_pair_trans :
      (a b c : K × L)
      → cmp_pair a b ≡ Ordering.lt
      → cmp_pair b c ≡ Ordering.lt
      → cmp_pair a c ≡ Ordering.lt
  cmp_pair_trans a b c h k =
      then_trans a.0 b.0 c.0 (q.cmp a.1 b.1) (q.cmp b.1 c.1) (q.cmp a.1 c.1) h k
        (q.cmp_trans a.1 b.1 c.1)

instance abbrev pub pair_ord {ℓ κ} : {K : Type ℓ} {L : Type κ} ⦃o : Ord K⦄ ⦃q : Ord L⦄ → Ord (K × L)
pair_ord = record {
  cmp = cmp_pair;
  cmp_self = cmp_pair_self;
  cmp_eq = cmp_pair_eq;
  cmp_swap = cmp_pair-swap;
  cmp_trans = cmp_pair_trans;
}
