-- ===== src/Reactor/WaitQueue/Deadlines.antt =====
-- The deadlines of the wait queue as an index of its entries, in a build with debug assertions.
use Prim.Native.Nat.{Ordering, compare}
use kafka_driver.Core.Identity.{Moment}
use kafka_driver.Base.{
  if◌then◌else◌, nat_ord, pair_ord, ℕ, lookup, insert, remove, Sorted, List, ◌≢◌, Option, some, ◌≡◌,
  ap, compare_eq, none, insert-Sorted, ℕ_discrete, lookup-insert_other, arith, subst, ◌∙◌,
  remove-Sorted, ◌==◌, sym, lookup-remove_other, lookup-insert_same, lookup-remove_same,
}
use kafka_driver.Reactor.WaitQueue.{WaitEntry, Moment, DeadlineKey}

other_number : (d d' : Moment) (s s' : ℕ) → s' ≢ s → pair_ord.cmp (d', s') (d, s) ≢ Ordering.eq
other_number d d' s s' h same = h (ap (λ k. k.1) (pair_ord.cmp_eq (d', s') (d, s) same))

other_deadline : (d d' : Moment) (s s' : ℕ) → d' ≢ d → pair_ord.cmp (d', s') (d, s) ≢ Ordering.eq
other_deadline d d' s s' h same = h (ap (λ k. k.0) (pair_ord.cmp_eq (d', s') (d, s) same))

other : (s s' : ℕ) → s' ≢ s → compare s' s ≢ Ordering.eq
other s s' h same = h (compare_eq s' s same)

module _ {ℓ} {T : Type ℓ} where
  -- What the index holds for a deadline and the number of an entry.
  abbrev pub indexed : Moment → ℕ → Option (WaitEntry T) → Option ℕ
  indexed d s none = none
  indexed d s (some e) = if e.deadline == d then some s else none

  -- Both maps are in order, and one is the index of the other.
  abbrev pub Follows : List (DeadlineKey × ℕ) → List (ℕ × WaitEntry T) → Type 0
  Follows ds es =
      Sorted ds × Sorted es × ((d : Moment) (s : ℕ) → lookup (d, s) ds ≡ indexed d s (lookup s es))

  pub indexed_hit : (e : WaitEntry T) (s : ℕ) → indexed e.deadline s (some e) ≡ some s
  indexed_hit e s = ground arith

  indexed_miss : (d s : ℕ) (e : WaitEntry T) → d ≢ e.deadline → indexed d s (some e) ≡ none
  indexed_miss d s e h = ground (arith, h)

  index_new :
      (ds : List (DeadlineKey × ℕ)) (n : ℕ) (e : WaitEntry T)
      → ((d : Moment) → lookup (d, n) ds ≡ none)
      → (d : Moment) → lookup (d, n) (insert (e.deadline, n) n ds) ≡ indexed d n (some e)
  index_new ds n e fresh d = elim (ℕ_discrete d e.deadline) [
    | yes h ↦
        subst (λ d. lookup (d, n) (insert (e.deadline, n) n ds) ≡ indexed d n (some e)) (sym h)
          (lookup-insert_same (e.deadline, n) n ds ∙ sym (indexed_hit e n))
    | no h ↦
        lookup-insert_other (e.deadline, n) (d, n) n ds (other_deadline e.deadline d n n h)
        ∙ fresh d
        ∙ sym (indexed_miss d n e h)
  ]

  pub Follows-insert :
      (ds : List (DeadlineKey × ℕ)) (es : List (ℕ × WaitEntry T)) (n : ℕ) (e : WaitEntry T)
      → lookup n es ≡ none
      → Follows ds es
      → Follows (insert (e.deadline, n) n ds) (insert n e es)
  Follows-insert ds es n e fresh (sorted, numbered, index) = (
    insert-Sorted (e.deadline, n) n ds sorted,
    insert-Sorted n e es numbered,
    λ d s. elim (ℕ_discrete s n) [
      | no h ↦
          lookup-insert_other (e.deadline, n) (d, s) n ds (other_number e.deadline d n s h)
          ∙ index d s
          ∙ ap (indexed d s) (sym (lookup-insert_other n s e es (other n s h)))
      | yes h ↦
          subst
            (λ s.
              lookup (d, s) (insert (e.deadline, n) n ds) ≡ indexed d s (lookup s (insert n e es)))
            (sym h)
            (index_new ds n e (λ d. index d n ∙ ap (indexed d n) fresh) d
              ∙ ap (indexed d n) (sym (lookup-insert_same n e es)))
    ],
  )

  index_gone :
      (ds : List (DeadlineKey × ℕ)) (n : ℕ) (e : WaitEntry T)
      → Sorted ds
      → ((d : Moment) → lookup (d, n) ds ≡ indexed d n (some e))
      → (d : Moment) → lookup (d, n) (remove (e.deadline, n) ds) ≡ none
  index_gone ds n e sorted held d = elim (ℕ_discrete d e.deadline) [
    | yes h ↦
        subst (λ d. lookup (d, n) (remove (e.deadline, n) ds) ≡ none) (sym h)
          (lookup-remove_same (e.deadline, n) ds sorted)
    | no h ↦
        lookup-remove_other (e.deadline, n) (d, n) ds (other_deadline e.deadline d n n h)
        ∙ held d
        ∙ indexed_miss d n e h
  ]

  pub Follows-remove :
      (ds : List (DeadlineKey × ℕ)) (es : List (ℕ × WaitEntry T)) (n : ℕ) (e : WaitEntry T)
      → lookup n es ≡ some e
      → Follows ds es
      → Follows (remove (e.deadline, n) ds) (remove n es)
  Follows-remove ds es n e held (sorted, numbered, index) = (
    remove-Sorted (e.deadline, n) ds sorted,
    remove-Sorted n es numbered,
    λ d s. elim (ℕ_discrete s n) [
      | no h ↦
          lookup-remove_other (e.deadline, n) (d, s) ds (other_number e.deadline d n s h)
          ∙ index d s
          ∙ ap (indexed d s) (sym (lookup-remove_other n s es (other n s h)))
      | yes h ↦
          subst
            (λ s. lookup (d, s) (remove (e.deadline, n) ds) ≡ indexed d s (lookup s (remove n es)))
            (sym h)
            (index_gone ds n e sorted (λ d. index d n ∙ ap (indexed d n) held) d
              ∙ ap (indexed d n) (sym (lookup-remove_same n es numbered)))
    ],
  )
