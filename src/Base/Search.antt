-- ===== src/Base/Search.antt =====
-- The binary search of slices, as the standard library documents and implements it: it halves a range
-- and compares its last candidate at the end.
use Prim.Native.Nat.{ℕ, zero, suc, ◌+◌, ◌-◌, ◌/◌, ◌≤◌, ◌<◌, Ordering}
use mathlib.Core.Path.{◌≡◌, refl, sym, ap, subst, ◌∙◌}
use mathlib.Core.Logic.{◌≢◌, ◌⊎◌, inl, inr}
use mathlib.Core.Bool.{Bool, true, false}
use mathlib.Core.Option.{Option, none, some}
use mathlib.Core.List.{List, [], ◌∷◌}
use native.Mathlib.Omega.{arith}
use kafka_driver.Base.Tests.{leb, ltb, ◌==◌, if◌then◌else◌, Bool-cases, Option-cases, ltb}
use kafka_driver.Base.Lists.{length, get_elem?, find?, All, All-get, get_elem-drop}

abbrev pub is_eq : Ordering → Bool
is_eq o = elim o [ Ordering.eq ↦ true | _ ↦ false ]

gt-cases : (o : Ordering) → (o ≡ Ordering.gt) ⊎ (o ≢ Ordering.gt)
gt-cases o = ground arith

module _ {ℓ} {A : Type ℓ} (order : A → Ordering) where
  -- The base of the next range: the middle, unless its entry is greater than what is sought.
  abbrev pub base_at : (base mid : ℕ) → Option A → ℕ
  base_at base mid none = base
  base_at base mid (some x) = elim (order x) [ Ordering.gt ↦ base | _ ↦ mid ]

  -- The loop `while size > 1`, with fuel for its rounds.
  unfoldable pub narrow : List A → (fuel base size : ℕ) → ℕ
  narrow xs zero base size = base
  narrow xs (suc fuel) base size =
      let half = size / 2 in
      let mid = base + half in
      let next = narrow xs fuel (base_at base mid (get_elem? xs mid)) (size - half) in
      if leb size 1 then base else next

  abbrev pub hit_at : ℕ → Option A → Option ℕ
  hit_at base none = none
  hit_at base (some x) = if is_eq (order x) then some base else none

  unfoldable pub binary_search_by : List A → Option ℕ
  unfolding narrow
  binary_search_by xs =
      let base = narrow xs (length xs) 0 (length xs) in hit_at base (get_elem? xs base)

  abbrev pub entry_at : List A → Option ℕ → Option A
  entry_at xs none = none
  entry_at xs (some i) = get_elem? xs i

  -- Entries that are less, at most one that is equal, then entries that are greater.
  abbrev pub Ordered : List A → Type 0
  Ordered [] = Unit
  Ordered (x ∷ xs) = All (λ y. order x ≢ Ordering.lt → order y ≡ Ordering.gt) xs × Ordered xs

  Ordered-at :
      (xs : List A) (i j : ℕ) (a b : A)
      → Ordered xs
      → i < j
      → get_elem? xs i ≡ some a
      → get_elem? xs j ≡ some b
      → order a ≢ Ordering.lt
      → order b ≡ Ordering.gt
  Ordered-at [] i j a b o h ea eb = absurd (ground (arith, ea))
  Ordered-at (x ∷ xs) i zero a b o h ea eb = absurd (omega arith)
  Ordered-at (x ∷ xs) zero (suc j) a b o h ea eb =
      let same : x ≡ a = ground (arith, ea) in
      λ at_least.
        All-get (λ y. order x ≢ Ordering.lt → order y ≡ Ordering.gt) xs j b o.0 eb
          (λ less. at_least (ap order (sym same) ∙ less))
  Ordered-at (x ∷ xs) (suc i) (suc j) a b o h ea eb = Ordered-at xs i j a b o.1 (omega arith) ea eb

  get_elem-length : (xs : List A) (i : ℕ) (a : A) → get_elem? xs i ≡ some a → i < length xs
  get_elem-length [] i a e = absurd (ground (arith, e))
  get_elem-length (x ∷ xs) zero a e = omega arith
  get_elem-length (x ∷ xs) (suc i) a e = omega (arith, get_elem-length xs i a e)

  -- On which side of the middle the entry is that compares equal.
  before_greater :
      (xs : List A) (mid i : ℕ) (a b : A)
      → Ordered xs
      → get_elem? xs i ≡ some a
      → order a ≡ Ordering.eq
      → get_elem? xs mid ≡ some b
      → order b ≡ Ordering.gt
      → i < mid
  before_greater xs mid i a b o at_i hit at_mid greater = elim (Bool-cases (ltb i mid)) [
    | inl h ↦ ground (arith, h)
    | inr h ↦ elim (Bool-cases (mid == i)) [
      | inl same ↦
          let here : mid ≡ i = ground (arith, same) in
          let one : get_elem? xs i ≡ some b = ap (get_elem? xs) (sym here) ∙ at_mid in
          absurd (ground (arith, one, at_i, hit, greater))
      | inr other ↦
          let after = Ordered-at xs mid i b a o (ground (arith, h, other)) at_mid at_i in
          absurd (ground (arith, after, hit, greater))
    ]
  ]

  not_before_other :
      (xs : List A) (mid i : ℕ) (a b : A)
      → Ordered xs
      → get_elem? xs i ≡ some a
      → order a ≡ Ordering.eq
      → get_elem? xs mid ≡ some b
      → order b ≢ Ordering.gt
      → mid ≤ i
  not_before_other xs mid i a b o at_i hit at_mid other = elim (Bool-cases (ltb i mid)) [
    | inl h ↦
        let after = Ordered-at xs i mid a b o (ground (arith, h)) at_i at_mid in
        absurd (ground (arith, after, hit, other))
    | inr h ↦ ground (arith, h)
  ]

  -- The range keeps an entry that compares equal.
  narrow_keeps :
      (xs : List A) (fuel base size i : ℕ) (a : A)
      → Ordered xs
      → get_elem? xs i ≡ some a
      → order a ≡ Ordering.eq
      → size ≤ fuel
      → base ≤ i
      → i < base + size
      → base + size ≤ length xs
      → narrow xs fuel base size ≡ i
  unfolding narrow
  narrow_keeps xs zero base size i a o at_i hit enough low high inside = absurd (omega arith)
  narrow_keeps xs (suc fuel) base size i a o at_i hit enough low high inside =
      elim (Bool-cases (leb size 1)) [
        | inl done ↦ ground (arith, done)
        | inr more ↦
            let half = size / 2 in
            let mid = base + half in
            let two : 2 ≤ size = ground (arith, more) in
            let (b, (at_mid, _)) = get_elem-drop xs mid (omega (arith, two)) in
            let base' = base_at base mid (some b) in
            let kept : (base' ≤ i)
                × (i < base' + (size - half))
                × (base' + (size - half) ≤ length xs) =
              elim (gt-cases (order b)) [
                | inl greater ↦
                    let left = before_greater xs mid i a b o at_i hit at_mid greater in
                    ground (arith, greater, left, two)
                | inr other ↦
                    let right = not_before_other xs mid i a b o at_i hit at_mid other in
                    ground (arith, other, right, two)
              ] in
            let (low', high', inside') = kept in
            let next =
              narrow_keeps xs fuel base' (size - half) i a o at_i hit (omega (arith, two)) low'
                high' inside' in
            ground (arith, more, at_mid, next)
      ]

  -- Either no entry compares equal, or the linear search stops at one.
  abbrev Missing : List A → Type ℓ
  Missing xs =
      (find? (λ x. is_eq (order x)) xs ≡ none)
      × ((i : ℕ) (y : A) → get_elem? xs i ≡ some y → is_eq (order y) ≡ false)

  abbrev Present : List A → Type ℓ
  Present xs =
      (i : ℕ) × (a : A) × (get_elem? xs i ≡ some a)
      × (is_eq (order a) ≡ true)
      × (find? (λ x. is_eq (order x)) xs ≡ some a)

  find-cases : (xs : List A) → Missing xs ⊎ Present xs
  find-cases [] = inl (refl, λ i y e. absurd (ground (arith, e)))
  find-cases (x ∷ xs) = elim (Bool-cases (is_eq (order x))) [
    | inl hit ↦ inr (0, x, refl, hit, ground (arith, hit))
    | inr miss ↦ elim (find-cases xs) [
      | inr (i, a, at_i, hit, first) ↦ inr (suc i, a, at_i, hit, ground (arith, miss, first))
      | inl (none_there, misses) ↦ inl (ground (arith, miss, none_there), all_miss misses miss)
    ]
  ]
    where
      all_miss :
          ((i : ℕ) (y : A) → get_elem? xs i ≡ some y → is_eq (order y) ≡ false)
          → is_eq (order x) ≡ false
          → (i : ℕ) (y : A) → get_elem? (x ∷ xs) i ≡ some y
          → is_eq (order y) ≡ false
      all_miss misses miss zero y e =
          let same : x ≡ y = ground (arith, e) in subst (λ z. is_eq (order z) ≡ false) same miss
      all_miss misses miss (suc i) y e = misses i y e

  -- On such a list the binary search finds what a linear search finds.
  pub search_finds :
      (xs : List A)
      → Ordered xs
      → entry_at xs (binary_search_by xs) ≡ find? (λ x. is_eq (order x)) xs
  unfolding binary_search_by
  search_finds xs o = elim (find-cases xs) [
    | inr (i, a, at_i, hit, first) ↦
        let equal : order a ≡ Ordering.eq = ground (arith, hit) in
        let here =
          narrow_keeps xs (length xs) 0 (length xs) i a o at_i equal (omega arith) (omega arith)
            (omega (arith, get_elem-length xs i a at_i)) (omega arith) in
        rw (here, at_i, hit, at_i, first) refl
    | inl (none_there, misses) ↦
        let base = narrow xs (length xs) 0 (length xs) in
        elim (Option-cases (get_elem? xs base)) [
          | inl nothing ↦ rw (nothing, none_there) refl
          | inr (y, at_base) ↦ rw (at_base, misses base y at_base, none_there) refl
        ]
  ]

  -- An index that is found holds an entry that compares equal.
  pub search_hits :
      (xs : List A) (i : ℕ)
      → binary_search_by xs ≡ some i
      → (a : A) × ((get_elem? xs i ≡ some a) × (is_eq (order a) ≡ true))
  unfolding binary_search_by
  search_hits xs i h =
      let base = narrow xs (length xs) 0 (length xs) in
      elim (Option-cases (get_elem? xs base)) [
        | inl nothing ↦ absurd (ground (arith, h, nothing))
        | inr (a, at_base) ↦
            let found : (base ≡ i) × (is_eq (order a) ≡ true) = ground (arith, h, at_base) in
            (a, (ap (get_elem? xs) (sym found.0) ∙ at_base, found.1))
      ]
