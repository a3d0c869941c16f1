-- ===== src/Reactor/WaitQueue/Due.antt =====
-- What a wait queue with debug assertions gives out as due.
use Prim.Native.Nat.{Ordering}
use kafka_driver.Core.Identity.{Moment}
use kafka_driver.Base.{
  nat_ord, pair_ord, ℕ, lookup, Sorted, List, true, Bool-cases, ◌≡◌, some, subst, inl, arith, ◌∷◌,
  inr, u64_max, ◌<◌, refl, [], sym, none, Option, ◌∙◌, ltb, All, ◌≤◌, All-lookup, All-map, ap,
  lookup-All,
}
use kafka_driver.Reactor.WaitQueue.{WaitQueue, WaitEntry, Moment, DeadlineKey, take_due, new}
use kafka_driver.Reactor.WaitQueue.Deadlines.{indexed, indexed_hit}
use kafka_driver.Reactor.WaitQueue.Fifo.{Call, run}
use kafka_driver.Reactor.WaitQueue.Indexing.{Indexed, head_names, take_due_first, run-Indexed}

earlier : (a b : DeadlineKey) → pair_ord.cmp a b ≡ Ordering.lt → a.0 ≤ b.0
earlier a b less = ground (arith, less)

-- What may be given out of the entries that wait.
pub data GivesDue {ℓ} {T : Type ℓ} (es : List (ℕ × WaitEntry T)) (now : Moment)
    : Option (T × Moment) → Type ℓ where
  nothing : All (λ x. now < x.1.deadline) es → GivesDue es now none
  earliest :
      (s : ℕ) {e : WaitEntry T}
      → e.deadline ≤ now
      → All (λ x. e.deadline ≤ x.1.deadline) es
      → lookup s es ≡ some e
      → GivesDue es now (some (e.value, e.deadline))

module _ {ℓ} {T : Type ℓ} where
  entry_due :
      (q : WaitQueue T) (x : DeadlineKey × ℕ) (m : List (DeadlineKey × ℕ))
      → Indexed q
      → q.deadlines ≡ x ∷ m
      → (s : ℕ) (e : WaitEntry T) → lookup s q.entries ≡ some e
      → x.0.0 ≤ e.deadline
  entry_due q x m i h s e held =
      let found : lookup (e.deadline, s) q.deadlines ≡ some s =
        i.2 e.deadline s ∙ ap (indexed e.deadline s) held ∙ indexed_hit e s in
      let order : Sorted (x ∷ m) = subst Sorted h i.0 in
      let later =
        All-map (λ y. pair_ord.cmp x.0 y.0 ≡ Ordering.lt) (λ y. x.0.0 ≤ y.0.0)
          (λ y less. earlier x.0 y.0 less) m order.0 in
      lookup-All (λ y. x.0.0 ≤ y.0.0) (e.deadline, s) s (x ∷ m) (omega arith, later)
        (subst (λ ds. lookup (e.deadline, s) ds ≡ some s) h found)

  none_earlier :
      (q : WaitQueue T) (x : DeadlineKey × ℕ) (m : List (DeadlineKey × ℕ))
      → Indexed q
      → q.deadlines ≡ x ∷ m
      → All (λ y. x.0.0 ≤ y.1.deadline) q.entries
  none_earlier q x m i h =
      All-lookup (λ y. x.0.0 ≤ y.1.deadline) q.entries i.1 (entry_due q x m i h)

  none_held :
      (q : WaitQueue T) (now : Moment)
      → Indexed q
      → q.deadlines ≡ []
      → All (λ y. now < y.1.deadline) q.entries
  unfolding lookup
  none_held q now i h =
      All-lookup (λ y. now < y.1.deadline) q.entries i.1
        (λ s e held. absurd (
          missing s (
            subst (λ ds. lookup (e.deadline, s) ds ≡ some s) h
              (i.2 e.deadline s ∙ ap (indexed e.deadline s) held ∙ indexed_hit e s))))
    where
      missing : (s : ℕ) → none ≡ some s → ⊥
      missing s h = ground (arith, h)

  gives_due :
      (q : WaitQueue T) (now : Moment) → Indexed q → GivesDue q.entries now (take_due q now).1
  unfolding take_due
  gives_due q now i = due q.deadlines refl
    where
      due :
          (m : List (DeadlineKey × ℕ)) → q.deadlines ≡ m → GivesDue q.entries now (take_due q now).1
      due [] h = rw (take_due, h) (nothing (none_held q now i h))
      due (x ∷ m) h =
          let (e, held, deadline, number) = head_names q x m i h in
          let after = none_earlier q x m i h in
          elim (Bool-cases (ltb now x.0.0)) [
            | inl later ↦
                let early : now < x.0.0 = ground (arith, later) in
                rw (take_due, h, later)
                  (nothing (
                    All-map (λ y. x.0.0 ≤ y.1.deadline) (λ y. now < y.1.deadline)
                      (λ y le. omega (arith, early, le)) q.entries after))
            | inr ripe ↦
                let due_now : e.deadline ≤ now = ground (arith, ripe, deadline) in
                rw (take_due_first q now x m e h ripe held number) (
                  earliest x.0.1 due_now
                    (subst (λ d. All (λ y. d ≤ y.1.deadline) q.entries) (sym deadline) after) held)
          ]

  -- In a build with debug assertions, whatever was done to a new queue, a request for what is due gives
  -- an entry that waits, whose deadline has come and is the earliest, or nothing where no deadline has
  -- come.
  pub due_first :
      (capacity : ℕ) (calls : List (Call T)) (now : Moment)
      → capacity ≤ u64_max
      → let q = run true (new capacity) calls in GivesDue q.entries now (take_due q now).1
  unfolding new lookup
  due_first capacity calls now h = gives_due (run true (new capacity) calls) now (
      run-Indexed (new capacity) calls (omega arith, h, omega arith, omega arith)
        (tt, tt, λ d s. refl))
