-- ===== src/Core/BoundedSet/Laws.antt =====
-- What a bounded set keeps: bootstrap/set.rs and resolution/address_set.rs.
use kafka_driver.Base.{
  List, ℕ, ◌≡◌, contains, without, ◌+◌, ◌≤◌, true, [], length, ◌<◌, ◌++◌, ap, ◌∷◌,
  first_occurrences, arith, sym, ◌||◌, Bool-cases, suc, refl, inl, append-nil, inr, ltb,
  append_assoc, ◌∙◌, false,
}
use kafka_driver.Base.{if◌then◌else◌}
use kafka_driver.Core.BoundedSet.{
  Admission, refused, capacity, finish, push_new, keep_unique, try_from_iter, Eq, List, ℕ,
}

module _ {ℓ} {A : Type ℓ} ⦃e : Eq A⦄ where
  -- The reference: one test of the length, then the first occurrences.
  abbrev pub admission_of : List A → ℕ → Admission A
  admission_of xs limit =
      if ltb limit (length xs) then refused (capacity limit) else finish (first_occurrences xs)

  contains_same : (seen : List A) (x y : A) → e.same x y ≡ true → contains seen y ≡ contains seen x
  contains_same seen x y h = ap (contains seen) (sym ((e.same_iff x y).0 h))

  pub contains-snoc :
      (seen : List A) (x y : A) → contains (seen ++ x ∷ []) y ≡ (contains seen y || e.same x y)
  contains-snoc [] x y = ground arith
  contains-snoc (z ∷ zs) x y = ground (arith, contains-snoc zs x y)

  -- An entry already kept adds nothing to what is dropped.
  without_known :
      (seen : List A) (x : A) (xs : List A)
      → contains seen x ≡ true
      → without seen (without (x ∷ []) xs) ≡ without seen xs
  without_known seen x [] h = refl
  without_known seen x (y ∷ ys) h =
      let rest = without_known seen x ys h in
      elim (Bool-cases (e.same x y)) [
        | inl s ↦ ground (arith, s, contains_same seen x y s, h, rest)
        | inr n ↦ ground (arith, n, rest)
      ]

  without-snoc :
      (seen : List A) (x : A) (xs : List A)
      → without (seen ++ x ∷ []) xs ≡ without seen (without (x ∷ []) xs)
  without-snoc seen x [] = refl
  without-snoc seen x (y ∷ ys) = ground (arith, contains-snoc seen x y, without-snoc seen x ys)

  without_nothing : (xs : List A) → without [] xs ≡ xs
  without_nothing [] = refl
  without_nothing (x ∷ xs) = ap (◌∷◌ x) (without_nothing xs)

  without_seen :
      (seen : List A) (x : A) (xs : List A)
      → contains seen x ≡ true
      → without seen (x ∷ xs) ≡ without seen xs
  without_seen seen x xs h = ground (arith, h)

  without_fresh :
      (seen : List A) (x : A) (xs : List A)
      → contains seen x ≡ false
      → without seen (x ∷ xs) ≡ x ∷ without seen xs
  without_fresh seen x xs h = ground (arith, h)

  pushed :
      (unique : List A) (x : A) (xs : List A)
      → push_new unique x ++ without (push_new unique x) xs
        ≡ unique ++ without unique (x ∷ without (x ∷ []) xs)
  pushed unique x xs = elim (Bool-cases (contains unique x)) [
    | inl known ↦
        let rest = without (x ∷ []) xs in
        let same_rest = without_seen unique x rest known ∙ without_known unique x xs known in
        rw known (ap (◌++◌ unique) (sym same_rest))
    | inr fresh ↦
        let rest = without (x ∷ []) xs in
        let kept = without_fresh unique x rest fresh in
        rw (fresh, without-snoc unique x xs)
          (append_assoc unique (x ∷ []) (without unique rest) ∙ ap (◌++◌ unique) (sym kept))
  ]

  keep-finish :
      (limit inspected : ℕ) (unique xs : List A)
      → inspected + length xs ≤ limit
      → keep_unique limit inspected unique xs
        ≡ finish (unique ++ without unique (first_occurrences xs))
  unfolding keep_unique
  keep-finish limit inspected unique [] h = ap finish (sym (append-nil unique))
  keep-finish limit inspected unique (x ∷ xs) h =
      let next = keep-finish limit (suc inspected) (push_new unique x) xs (omega arith) in
      let kept = next ∙ ap finish (pushed unique x (first_occurrences xs)) in ground (arith, kept)

  keep_over :
      (limit inspected : ℕ) (unique xs : List A)
      → inspected ≤ limit
      → limit < inspected + length xs
      → keep_unique limit inspected unique xs ≡ refused (capacity limit)
  unfolding keep_unique
  keep_over limit inspected unique [] h over = absurd (omega arith)
  keep_over limit inspected unique (x ∷ xs) h over =
      ground (arith, keep_over limit (suc inspected) (push_new unique x) xs)

  -- A bounded sequence is refused exactly where it is longer than the limit or empty; otherwise it keeps
  -- the first occurrence of every entry, in order.
  pub admits_first : (xs : List A) (limit : ℕ) → try_from_iter xs limit ≡ admission_of xs limit
  unfolding try_from_iter
  admits_first xs limit = elim (Bool-cases (ltb limit (length xs))) [
    | inl over ↦ rw over (keep_over limit 0 [] xs (omega arith) (ground (arith, over)))
    | inr fits ↦
        rw fits (keep-finish limit 0 [] xs (ground (arith, fits)) ∙ ap finish (without_nothing _))
  ]
