-- ===== src/Reactor/WaitQueue/Fifo.antt =====
-- The wait queue over a history of calls, in either build.
use kafka_driver.Core.Identity.{Moment}
use kafka_driver.Base.{
  nat_ord, ℕ, Bool, List, ◌≡◌, ◌∷◌, remove, [], arith, length, Option-cases, ◌≤◌, subst, lookup,
  Bool-cases, inl, ltb, inr, ◌+◌, some, refl, ap, ◌++◌, none, u64_max, append-nil, map, sym,
  append_assoc, ◌∙◌,
}
use kafka_driver.Reactor.WaitQueue.{
  WaitQueue, Moment, push, rotate_back, pop_front, pop_back, drain, scan_one, take_due, take_entry,
  take_numbered, remove_deadline, WaitEntry, DeadlineKey, last_of, under_cursor, new, values,
}
use kafka_driver.Reactor.WaitQueue.Numbers.{
  IsValid, Ascends, Numbered, push_keeps, remove-Ascends, rotate_back_keeps, length-remove,
  Ascends-least, admitted,
}

pub data Call {ℓ} (T : Type ℓ) : Type ℓ where
  pushes rotates : T → Moment → Call T
  pops_front pops_back drains : Call T
  scans : (T → Bool) → Call T
  takes_due : Moment → Call T

-- The calls of a queue, with the value for a push or a rotation to the back.
pub data QueueCall {ℓ} (T : Type ℓ) : Type ℓ where
  enters returns : T → Moment → QueueCall T
  leaves : QueueCall T

abbrev pub call_of {ℓ} : {T : Type ℓ} → QueueCall T → Call T
call_of (enters value deadline) = pushes value deadline
call_of (returns value deadline) = rotates value deadline
call_of leaves = pops_front

module _ {ℓ} {T : Type ℓ} (debug_assertions : Bool) where
  abbrev pub step : WaitQueue T → Call T → WaitQueue T
  step q (pushes value deadline) = (push q value deadline).0
  step q (rotates value deadline) = (rotate_back q value deadline).0
  step q pops_front = (pop_front debug_assertions q).0
  step q pops_back = (pop_back debug_assertions q).0
  step q drains = (drain q).0
  step q (scans matches) = (scan_one debug_assertions q matches).0
  step q (takes_due now) = (take_due q now).0

  abbrev pub run : WaitQueue T → List (Call T) → WaitQueue T
  run q [] = q
  run q (c ∷ cs) = run (step q c) cs

  -- An entry may leave; the others keep their numbers and places.
  abbrev Shrinks : WaitQueue T → WaitQueue T → Type 0
  Shrinks q r =
      (r.next_sequence ≡ q.next_sequence)
      × (r.capacity ≡ q.capacity)
      × Ascends 0 r.entries q.next_sequence
      × (length r.entries ≤ length q.entries)

  Shrinks-IsValid : (q r : WaitQueue T) → IsValid q → Shrinks q r → IsValid r
  Shrinks-IsValid q r (numbered, fits, held, below) (next, capacity, ascends, fewer) = (
    rw next ascends,
    omega (arith, capacity, fits),
    omega (arith, fewer, capacity, held),
    omega (arith, next, below),
  )

  take_entry-Shrinks :
      (q r : WaitQueue T) (sequence : ℕ) (e : WaitEntry T)
      → Shrinks q r
      → Shrinks q (take_entry debug_assertions r sequence e).0
  unfolding take_entry remove_deadline
  take_entry-Shrinks q r sequence e h = ground (arith, h)

  remove-Shrinks :
      (q : WaitQueue T) (sequence : ℕ)
      → Numbered q
      → Shrinks q (record q { entries = remove sequence q.entries })
  remove-Shrinks q sequence n = (
    refl,
    refl,
    remove-Ascends 0 q.next_sequence sequence q.entries n,
    length-remove sequence q.entries,
  )

  pop_front-Shrinks : (q : WaitQueue T) → Numbered q → Shrinks q (pop_front debug_assertions q).0
  unfolding pop_front
  pop_front-Shrinks q n = shrink q.entries refl
    where
      shrink :
          (m : List (ℕ × WaitEntry T)) → q.entries ≡ m → Shrinks q (pop_front debug_assertions q).0
      shrink [] h = rw (pop_front, h) (refl, refl, n, omega (arith, ap length h))
      shrink (x ∷ m) h =
          let behind = subst (λ m. Ascends 0 m q.next_sequence) h n in
          let (next, capacity, ascends, fewer) =
            take_entry-Shrinks q (record q { entries = m }) x.0 x.1
              (
                refl,
                refl,
                Ascends-least 0 (x.0 + 1) m q.next_sequence (omega arith) behind.1,
                omega (arith, ap length h),
              ) in
          rw (pop_front, h) (next, capacity, ascends, omega (arith, fewer, ap length h))

  pop_back-Shrinks : (q : WaitQueue T) → Numbered q → Shrinks q (pop_back debug_assertions q).0
  unfolding pop_back
  pop_back-Shrinks q n = elim (Option-cases (last_of q.entries)) [
    | inl h ↦ rw (pop_back, h) (refl, refl, n, omega arith)
    | inr (e, h) ↦
        rw (pop_back, h)
          (take_entry-Shrinks q (record q { entries = remove e.0 q.entries }) e.0 e.1
            (remove-Shrinks q e.0 n))
  ]

  scan_one-Shrinks :
      (q : WaitQueue T) (matches : T → Bool)
      → Numbered q
      → Shrinks q (scan_one debug_assertions q matches).0
  unfolding scan_one
  scan_one-Shrinks q matches n = elim (Option-cases (under_cursor q)) [
    | inl h ↦ rw (scan_one, h) (refl, refl, n, omega arith)
    | inr (e, h) ↦
        let seen = record q { scan_cursor = some e.0 } in
        elim (Bool-cases (matches e.1.value)) [
          | inl hit ↦
              rw (scan_one, h, hit)
                (take_entry-Shrinks q (record seen { entries = remove e.0 q.entries }) e.0 e.1
                  (remove-Shrinks q e.0 n))
          | inr miss ↦ rw (scan_one, h, miss) (refl, refl, n, omega arith)
        ]
  ]

  take_numbered-Shrinks :
      (q : WaitQueue T) (sequence : ℕ) → Numbered q → Shrinks q (take_numbered q sequence).0
  unfolding take_numbered
  take_numbered-Shrinks q sequence n = elim (Option-cases (lookup sequence q.entries)) [
    | inl h ↦ rw (take_numbered, h) (refl, refl, n, omega arith)
    | inr (e, h) ↦ rw (take_numbered, h) (remove-Shrinks q sequence n)
  ]

  take_due-Shrinks : (q : WaitQueue T) (now : Moment) → Numbered q → Shrinks q (take_due q now).0
  unfolding take_due
  take_due-Shrinks q now n = shrink q.deadlines refl
    where
      shrink : (m : List (DeadlineKey × ℕ)) → q.deadlines ≡ m → Shrinks q (take_due q now).0
      shrink [] h = rw (take_due, h) (refl, refl, n, omega arith)
      shrink (x ∷ m) h =
          let next = take_numbered-Shrinks (record q { deadlines = m }) x.1 n in
          elim (Bool-cases (ltb now x.0.0)) [
            | inl later ↦ rw (take_due, h, later) (refl, refl, n, omega arith)
            | inr due ↦ rw (take_due, h, due) next
          ]

  pub step-IsValid : (q : WaitQueue T) (c : Call T) → IsValid q → IsValid (step q c)
  unfolding drain
  step-IsValid q (pushes value deadline) v = (push_keeps q value deadline v).0
  step-IsValid q (rotates value deadline) v = (rotate_back_keeps q value deadline v).0
  step-IsValid q pops_front v = Shrinks-IsValid q (step q pops_front) v (pop_front-Shrinks q v.0)
  step-IsValid q pops_back v = Shrinks-IsValid q (step q pops_back) v (pop_back-Shrinks q v.0)
  step-IsValid q drains v = (omega arith, v.1, omega arith, omega arith)
  step-IsValid q (scans matches) v =
      Shrinks-IsValid q (step q (scans matches)) v (scan_one-Shrinks q matches v.0)
  step-IsValid q (takes_due now) v =
      Shrinks-IsValid q (step q (takes_due now)) v (take_due-Shrinks q now v.0)

  run-IsValid : (q : WaitQueue T) (cs : List (Call T)) → IsValid q → IsValid (run q cs)
  run-IsValid q [] v = v
  run-IsValid q (c ∷ cs) v = run-IsValid (step q c) cs (step-IsValid q c v)

  -- Whatever is done to a new queue, it holds at most its capacity, in ascending sequence numbers that
  -- are all below the next one, which is a 64-bit word; a capacity is a word too.
  pub waiting-IsValid :
      (capacity : ℕ) (calls : List (Call T))
      → capacity ≤ u64_max
      → IsValid (run (new capacity) calls)
  unfolding new
  waiting-IsValid capacity calls h =
      run-IsValid (new capacity) calls (omega arith, h, omega arith, omega arith)

  -- A history of entering and leaving: what left at the front, and what was admitted at the back.
  abbrev pub left : WaitQueue T → QueueCall T → List T
  left q leaves = elim (pop_front debug_assertions q).1 [ none ↦ [] | some x ↦ x.0 ∷ [] ]
  left q _ = []

  abbrev pub entered : WaitQueue T → QueueCall T → List T
  entered q (enters value deadline) = admitted (push q value deadline).1 value
  entered q (returns value deadline) = admitted (rotate_back q value deadline).1 value
  entered q leaves = []

  abbrev pub all_left : WaitQueue T → List (QueueCall T) → List T
  all_left q [] = []
  all_left q (c ∷ cs) = left q c ++ all_left (step q (call_of c)) cs

  abbrev pub all_entered : WaitQueue T → List (QueueCall T) → List T
  all_entered q [] = []
  all_entered q (c ∷ cs) = entered q c ++ all_entered (step q (call_of c)) cs

  take_entry-entries :
      (q : WaitQueue T) (sequence : ℕ) (e : WaitEntry T)
      → (take_entry debug_assertions q sequence e).0.entries ≡ q.entries
  unfolding take_entry remove_deadline
  take_entry-entries q sequence e = ground arith

  step_order :
      (q : WaitQueue T) (c : QueueCall T)
      → IsValid q
      → left q c ++ values (step q (call_of c)).entries ≡ values q.entries ++ entered q c
  unfolding pop_front take_entry
  step_order q (enters value deadline) v = (push_keeps q value deadline v).1
  step_order q (returns value deadline) v = (rotate_back_keeps q value deadline v).1
  step_order q leaves v = go q.entries refl
    where
      go :
          (m : List (ℕ × WaitEntry T))
          → q.entries ≡ m
          → left q leaves ++ values (pop_front debug_assertions q).0.entries
            ≡ values q.entries ++ []
      go [] h = rw (pop_front, h) (ap values h)
      go (x ∷ m) h = rw (pop_front, h, take_entry-entries, append-nil) refl

  -- In either build, over any history of pushes, rotations and front pops of a valid queue, what left
  -- followed by what waits is what waited at the start followed by what was admitted.
  pub waits_in_order :
      (q : WaitQueue T) (cs : List (QueueCall T))
      → IsValid q
      → all_left q cs ++ values (run q (map call_of cs)).entries
        ≡ values q.entries ++ all_entered q cs
  waits_in_order q [] v = sym (append-nil (values q.entries))
  waits_in_order q (c ∷ cs) v =
      let next = step q (call_of c) in
      let later = waits_in_order next cs (step-IsValid q (call_of c) v) in
      append_assoc (left q c) (all_left next cs) (values (run next (map call_of cs)).entries)
      ∙ ap (λ vs. left q c ++ vs) later
      ∙ sym (append_assoc (left q c) (values next.entries) (all_entered next cs))
      ∙ ap (λ vs. vs ++ all_entered next cs) (step_order q c v)
      ∙ append_assoc (values q.entries) (entered q c) (all_entered next cs)
