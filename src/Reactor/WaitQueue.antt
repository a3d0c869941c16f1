-- ===== src/Reactor/WaitQueue.antt =====
-- The bounded wait queue of the reactor: src/reactor/wait_queue.rs. `debug_assertions` says whether
-- the build has them: `remove_deadline` removes inside of a `debug_assert_eq!`, so that the removal is
-- part of such a build only.
pub mod Numbers
pub mod Fifo
pub mod Stale
pub mod Deadlines
pub mod Indexing
pub mod Due
use kafka_driver.Base.{
  ℕ, ◌+◌, Bool, Option, none, some, List, [], ◌∷◌, length, map, ltb, ◌==◌, if◌then◌else◌, u64_max,
  checked_add, insert, remove, lookup, first_after, nat_ord, pair_ord,
}
use kafka_driver.Core.Identity.{Moment}

pub record WaitEntry {ℓ} (T : Type ℓ) : Type ℓ where
  pub value : T
  pub deadline : Moment

-- Ordered by the deadline, then by the sequence number.
abbrev pub DeadlineKey : Type 0
DeadlineKey = Moment × ℕ

pub record WaitQueue {ℓ} (T : Type ℓ) : Type ℓ where
  pub capacity : ℕ
  pub next_sequence : ℕ
  pub scan_cursor : Option ℕ
  pub entries : List (ℕ × WaitEntry T)
  pub deadlines : List (DeadlineKey × ℕ)

pub data Pushed {ℓ} (T : Type ℓ) : Type ℓ where
  queued : Pushed T
  returned : T → Pushed T

module _ {ℓ} {T : Type ℓ} where
  unfoldable pub new : ℕ → WaitQueue T
  new capacity = record {
    capacity = capacity;
    next_sequence = 0;
    scan_cursor = none;
    entries = [];
    deadlines = [];
  }

  -- The loop of `resequence`: the entries left get the numbers from `sequence` on.
  renumber : ℕ → List (ℕ × WaitEntry T) → WaitQueue T → WaitQueue T
  renumber sequence [] q = q
  renumber sequence ((_, entry) ∷ rest) q = renumber (sequence + 1) rest (record q {
    deadlines = insert (entry.deadline, sequence) sequence q.deadlines;
    entries = insert sequence entry q.entries;
    next_sequence = sequence + 1;
  })

  resequence : WaitQueue T → WaitQueue T
  unfolding renumber
  resequence q =
      renumber 0 q.entries
        (record q { entries = []; scan_cursor = none; deadlines = []; next_sequence = 0 })

  -- The call after `resequence` cannot need another one: the numbers in use are as many as the entries.
  pub reserve_sequence : WaitQueue T → WaitQueue T × ℕ
  unfolding resequence
  reserve_sequence q = elim (checked_add u64_max q.next_sequence 1) [
    | some next ↦ (record q { next_sequence = next }, q.next_sequence)
    | none ↦
        let fresh = resequence q in
        (record fresh { next_sequence = fresh.next_sequence + 1 }, fresh.next_sequence)
  ]

  insert_back : WaitQueue T → T → Moment → WaitQueue T × Pushed T
  unfolding reserve_sequence
  insert_back q value deadline =
      if length q.entries == q.capacity
      then (q, returned value)
      else let (r, sequence) = reserve_sequence q in
        (
          record r {
            entries = insert sequence (record { value = value; deadline = deadline }) r.entries;
            deadlines = insert (deadline, sequence) sequence r.deadlines;
          },
          queued,
        )

  unfoldable pub push : WaitQueue T → T → Moment → WaitQueue T × Pushed T
  unfolding insert_back
  push q value deadline = insert_back q value deadline

  -- An examined survivor goes behind the entries that are not examined yet.
  unfoldable pub rotate_back : WaitQueue T → T → Moment → WaitQueue T × Pushed T
  unfolding insert_back
  rotate_back q value deadline = insert_back q value deadline

  remove_deadline : (debug_assertions : Bool) → ℕ → Moment → WaitQueue T → WaitQueue T
  remove_deadline debug_assertions sequence deadline q =
      if debug_assertions
      then record q { deadlines = remove (deadline, sequence) q.deadlines }
      else q

  -- An entry that left the map, and its deadline.
  take_entry : Bool → WaitQueue T → ℕ → WaitEntry T → WaitQueue T × Option (T × Moment)
  unfolding remove_deadline
  take_entry debug_assertions q sequence entry = (
    remove_deadline debug_assertions sequence entry.deadline q,
    some (entry.value, entry.deadline),
  )

  unfoldable pub pop_front :
      (debug_assertions : Bool) → WaitQueue T → WaitQueue T × Option (T × Moment)
  unfolding take_entry
  pop_front debug_assertions q = elim q.entries [
    | [] ↦ (q, none)
    | first ∷ rest ↦ take_entry debug_assertions (record q { entries = rest }) first.0 first.1
  ]

  last_of : List (ℕ × WaitEntry T) → Option (ℕ × WaitEntry T)
  last_of [] = none
  last_of (x ∷ []) = some x
  last_of (x ∷ y ∷ xs) = last_of (y ∷ xs)

  unfoldable pub pop_back :
      (debug_assertions : Bool) → WaitQueue T → WaitQueue T × Option (T × Moment)
  unfolding take_entry last_of
  pop_back debug_assertions q = elim (last_of q.entries) [
    | none ↦ (q, none)
    | some e ↦ take_entry debug_assertions (record q { entries = remove e.0 q.entries }) e.0 e.1
  ]

  front_of : List (ℕ × WaitEntry T) → Option (ℕ × WaitEntry T)
  front_of [] = none
  front_of (x ∷ xs) = some x

  behind_cursor : WaitQueue T → Option (ℕ × WaitEntry T)
  unfolding front_of
  behind_cursor q = elim q.scan_cursor [
    | none ↦ front_of q.entries
    | some cursor ↦ first_after cursor q.entries
  ]

  -- The entry behind the cursor, or else the first one.
  under_cursor : WaitQueue T → Option (ℕ × WaitEntry T)
  unfolding behind_cursor front_of
  under_cursor q = elim (behind_cursor q) [ some e ↦ some e | none ↦ front_of q.entries ]

  unfoldable pub scan_one :
      (debug_assertions : Bool) → WaitQueue T → (T → Bool) → WaitQueue T × Option (T × Moment)
  unfolding take_entry under_cursor
  scan_one debug_assertions q matches = elim (under_cursor q) [
    | none ↦ (q, none)
    | some e ↦
        let seen = record q { scan_cursor = some e.0 } in
        if matches e.1.value
        then take_entry debug_assertions (record seen { entries = remove e.0 q.entries }) e.0 e.1
        else (seen, none)
  ]

  -- The earliest key has left the deadlines; the entry of its number follows, where there is one.
  take_numbered : WaitQueue T → ℕ → WaitQueue T × Option (T × Moment)
  take_numbered q sequence = elim (lookup sequence q.entries) [
    | none ↦ (q, none)
    | some e ↦ (record q { entries = remove sequence q.entries }, some (e.value, e.deadline))
  ]

  unfoldable pub take_due : WaitQueue T → Moment → WaitQueue T × Option (T × Moment)
  unfolding take_numbered
  take_due q now = elim q.deadlines [
    | [] ↦ (q, none)
    | first ∷ rest ↦
        if ltb now first.0.0
        then (q, none)
        else take_numbered (record q { deadlines = rest }) first.1
  ]

  unfoldable pub next_deadline : WaitQueue T → Option Moment
  next_deadline q = elim q.deadlines [ [] ↦ none | first ∷ _ ↦ some first.0.0 ]

  -- The values that wait, front first.
  abbrev pub values : List (ℕ × WaitEntry T) → List T
  values entries = map (λ e. e.1.value) entries

  unfoldable pub drain : WaitQueue T → WaitQueue T × List T
  drain q = (
    record q { deadlines = []; next_sequence = 0; scan_cursor = none; entries = [] },
    values q.entries,
  )
