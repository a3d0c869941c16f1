-- ===== src/Core/BoundedSet/Members.antt =====
-- The members of a bounded set: bootstrap/set.rs and resolution/address_set.rs.
use kafka_driver.Base.{
  Eq, List, ◌∷◌, ◌≡◌, contains, without, length, first_occurrences, ℕ, false, true, ◌&&◌, arith,
  ◌≤◌, [], ap, not, refl, Bool-cases, inl, inr, sym, ◌∙◌, ltb, ◌++◌,
}
use kafka_driver.Core.BoundedSet.{admitted, finish, try_from_iter}
use kafka_driver.Core.BoundedSet.Laws.{admission_of, admits_first, contains-snoc}

module _ {ℓ} {A : Type ℓ} ⦃e : Eq A⦄ where
  abbrev pub NoRepeats : List A → Type 0
  NoRepeats [] = Unit
  NoRepeats (x ∷ xs) = (contains xs x ≡ false) × NoRepeats xs

  known_by_both : (seen : List A) (x y : A) → e.same x y ≡ true → contains seen x ≡ contains seen y
  known_by_both seen x y h = ap (contains seen) ((e.same_iff x y).0 h)

  contains-without :
      (seen xs : List A) (y : A)
      → contains (without seen xs) y ≡ (contains xs y && not (contains seen y))
  contains-without seen [] y = refl
  contains-without seen (x ∷ xs) y =
      let rest = contains-without seen xs y in
      elim (Bool-cases (e.same x y)) [
        | inl s ↦ ground (arith, s, known_by_both seen x y s, rest)
        | inr n ↦ ground (arith, n, rest)
      ]

  NoRepeats-without : (seen xs : List A) → NoRepeats xs → NoRepeats (without seen xs)
  NoRepeats-without seen [] h = tt
  NoRepeats-without seen (x ∷ xs) h =
      ground (arith, NoRepeats-without seen xs h.1, contains-without seen xs x, h.0)

  length-without : (seen xs : List A) → length (without seen xs) ≤ length xs
  length-without seen [] = omega arith
  length-without seen (x ∷ xs) = ground (arith, length-without seen xs)

  first_occurrences-NoRepeats : (xs : List A) → NoRepeats (first_occurrences xs)
  first_occurrences-NoRepeats [] = tt
  first_occurrences-NoRepeats (x ∷ xs) =
      let self : e.same x x ≡ true = (e.same_iff x x).1 refl in
      let here = contains-without (x ∷ []) (first_occurrences xs) x in
      (
        ground (arith, here, self),
        NoRepeats-without (x ∷ []) (first_occurrences xs) (first_occurrences-NoRepeats xs),
      )

  contains-first_occurrences :
      (xs : List A) (y : A) → contains (first_occurrences xs) y ≡ contains xs y
  contains-first_occurrences [] y = refl
  contains-first_occurrences (x ∷ xs) y =
      let there = contains-without (x ∷ []) (first_occurrences xs) y in
      ground (arith, there, contains-first_occurrences xs y)

  length-first_occurrences : (xs : List A) → length (first_occurrences xs) ≤ length xs
  length-first_occurrences [] = omega arith
  length-first_occurrences (x ∷ xs) =
      omega (arith, length-without (x ∷ []) (first_occurrences xs), length-first_occurrences xs)

  finished : (xs ys : List A) → finish xs ≡ admitted ys → (xs ≡ ys) × (1 ≤ length xs)
  unfolding finish
  finished [] ys h = absurd (ground (arith, h))
  finished (x ∷ xs) ys h = (ground (arith, h), omega arith)

  -- A set that is admitted has no entry twice, at least one, at most as many as the limit, and exactly
  -- the members of the sequence.
  pub admitted_members :
      (xs : List A) (limit : ℕ) (ys : List A)
      → try_from_iter xs limit ≡ admitted ys
      → NoRepeats ys
        × (1 ≤ length ys)
        × (length ys ≤ limit)
        × ((y : A) → contains ys y ≡ contains xs y)
  admitted_members xs limit ys h =
      let chosen : admission_of xs limit ≡ admitted ys = sym (admits_first xs limit) ∙ h in
      elim (Bool-cases (ltb limit (length xs))) [
        | inl over ↦ absurd (ground (arith, chosen, over))
        | inr fits ↦
            let kept : finish (first_occurrences xs) ≡ admitted ys = ground (arith, chosen, fits) in
            let (is_first, some_entry) = finished (first_occurrences xs) ys kept in
            let short : length xs ≤ limit = ground (arith, fits) in
            let fewer = length-first_occurrences xs in
            rw (← is_first) (
              first_occurrences-NoRepeats xs,
              some_entry,
              omega arith,
              contains-first_occurrences xs,
            )
      ]

  other_way : (x y : A) → e.same x y ≡ false → e.same y x ≡ false
  other_way x y h = elim (Bool-cases (e.same y x)) [
    | inr n ↦ n
    | inl s ↦
        let back : e.same x y ≡ true = (e.same_iff x y).1 (sym ((e.same_iff y x).0 s)) in
        absurd (ground (arith, h, back))
  ]

  -- A new entry may go to the end.
  pub NoRepeats-snoc :
      (xs : List A) (y : A) → contains xs y ≡ false → NoRepeats xs → NoRepeats (xs ++ y ∷ [])
  NoRepeats-snoc [] y h n = (refl, tt)
  NoRepeats-snoc (x ∷ xs) y h n =
      let (first, rest) : (e.same x y ≡ false) × (contains xs y ≡ false) = ground (arith, h) in
      let apart = other_way x y first in
      (ground (arith, contains-snoc xs y x, n.0, apart), NoRepeats-snoc xs y rest n.1)
