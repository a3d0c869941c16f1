-- ===== src/Reactor/WaitQueue/Indexing.antt =====
-- Every operation keeps the deadlines an index of the entries, in a build with debug assertions.
use kafka_driver.Core.Identity.{Moment}
use kafka_driver.Base.{
  nat_ord, pair_ord, ℕ, lookup, remove, Sorted, List, true, Bool-cases, ◌≡◌, Option-cases, leb,
  length, some, subst, inl, arith, ◌∷◌, inr, ◌+◌, ◌==◌, u64_max, ◌<◌, lookup_head, refl, [],
  lookup_behind, sym, none, remove_head, Bool, Option, ◌∙◌, ltb, false, lookup-first_after, ap,
}
use kafka_driver.Reactor.WaitQueue.{
  WaitQueue, WaitEntry, renumber, reserve_sequence, insert_back, take_entry, last_of, pop_front,
  pop_back, resequence, Moment, remove_deadline, under_cursor, scan_one, DeadlineKey, take_due,
  take_numbered, front_of, behind_cursor, push, rotate_back, drain,
}
use kafka_driver.Reactor.WaitQueue.Numbers.{
  Ascends, IsValid, lookup_fresh, reserve_keeps, Ascends-insert,
}
use kafka_driver.Reactor.WaitQueue.Deadlines.{Follows, Follows-remove, Follows-insert, indexed}
use kafka_driver.Reactor.WaitQueue.Fifo.{
  Call, step, run, step-IsValid, pushes, rotates, scans, takes_due, pops_front, pops_back, drains,
}
use mathlib.Core.Path.{ap₂}

module _ {ℓ} {T : Type ℓ} where
  abbrev pub Indexed : WaitQueue T → Type 0
  Indexed q = Follows q.deadlines q.entries

  renumber-Indexed :
      (s : ℕ) (es : List (ℕ × WaitEntry T)) (q : WaitQueue T)
      → Ascends 0 q.entries s
      → Indexed q
      → Indexed (renumber s es q)
  unfolding renumber
  renumber-Indexed s [] q n x = x
  renumber-Indexed s ((_, e) ∷ es) q n x =
      renumber-Indexed (s + 1) es _ (Ascends-insert 0 q.entries s e n)
        (Follows-insert q.deadlines q.entries s e (lookup_fresh 0 q.entries s n) x)

  reserve-Indexed : (q : WaitQueue T) → Indexed q → Indexed (reserve_sequence q).0
  unfolding reserve_sequence resequence lookup
  reserve-Indexed q x = elim (Bool-cases (leb (q.next_sequence + 1) u64_max)) [
    | inl h ↦ rw (reserve_sequence, h) x
    | inr h ↦
        let bare : WaitQueue T = record q {
          entries = [];
          scan_cursor = none;
          deadlines = [];
          next_sequence = 0;
        } in
        rw (reserve_sequence, h)
          (renumber-Indexed 0 q.entries bare (omega arith) (tt, tt, λ d s. refl))
  ]

  insert_back-Indexed :
      (q : WaitQueue T) (value : T) (deadline : Moment)
      → IsValid q
      → Indexed q
      → Indexed (insert_back q value deadline).0
  unfolding insert_back
  insert_back-Indexed q value deadline v x = elim (Bool-cases (length q.entries == q.capacity)) [
    | inl full ↦ rw (insert_back, full) x
    | inr room ↦
        let less : length q.entries < q.capacity = ground (arith, room, v) in
        let e : WaitEntry T = record { value = value; deadline = deadline } in
        let (r, sequence) = reserve_sequence q in
        let (_, ascends, _, _, _) = reserve_keeps q v less in
        rw (insert_back, room)
          (Follows-insert r.deadlines r.entries sequence e
            (lookup_fresh 0 r.entries sequence ascends) (reserve-Indexed q x))
  ]

  -- An entry that the map holds leaves with its deadline.
  take_entry-Indexed :
      (q : WaitQueue T) (es : List (ℕ × WaitEntry T)) (x : ℕ × WaitEntry T)
      → Indexed q
      → lookup x.0 q.entries ≡ some x.1
      → es ≡ remove x.0 q.entries
      → Indexed (take_entry true (record q { entries = es }) x.0 x.1).0
  unfolding take_entry remove_deadline
  take_entry-Indexed q es x i held gone =
      rw gone (Follows-remove q.deadlines q.entries x.0 x.1 held i)

  last_of-held :
      (es : List (ℕ × WaitEntry T)) (x : ℕ × WaitEntry T)
      → Sorted es
      → last_of es ≡ some x
      → lookup x.0 es ≡ some x.1
  unfolding last_of
  last_of-held [] x s h = absurd (ground (arith, h))
  last_of-held (y ∷ []) x s h =
      let same : y ≡ x = ground (arith, h) in
      subst (λ x. lookup x.0 (y ∷ []) ≡ some x.1) same (lookup_head y.0 y.1 [])
  last_of-held (y ∷ z ∷ es) x s h =
      lookup_behind y (z ∷ es) x.0 x.1 s (last_of-held (z ∷ es) x s.1 h)

  pop_front-Indexed : (q : WaitQueue T) → Indexed q → Indexed (pop_front true q).0
  unfolding pop_front
  pop_front-Indexed q i = front q.entries refl
    where
      front : (m : List (ℕ × WaitEntry T)) → q.entries ≡ m → Indexed (pop_front true q).0
      front [] h = rw (pop_front, h) i
      front (x ∷ m) h =
          let held : lookup x.0 q.entries ≡ some x.1 = rw h (lookup_head x.0 x.1 m) in
          let gone : m ≡ remove x.0 q.entries = rw h (sym (remove_head x.0 x.1 m)) in
          rw (pop_front, h) (take_entry-Indexed q m x i held gone)

  pop_back-Indexed : (q : WaitQueue T) → Indexed q → Indexed (pop_back true q).0
  unfolding pop_back
  pop_back-Indexed q i = elim (Option-cases (last_of q.entries)) [
    | inl h ↦ rw (pop_back, h) i
    | inr (x, h) ↦
        rw (pop_back, h)
          (take_entry-Indexed q (remove x.0 q.entries) x i (last_of-held q.entries x i.1 h) refl)
  ]

  front_of-held :
      (es : List (ℕ × WaitEntry T)) (x : ℕ × WaitEntry T)
      → front_of es ≡ some x
      → lookup x.0 es ≡ some x.1
  unfolding front_of
  front_of-held [] x h = absurd (ground (arith, h))
  front_of-held (y ∷ es) x h =
      let same : y ≡ x = ground (arith, h) in
      subst (λ x. lookup x.0 (y ∷ es) ≡ some x.1) same (lookup_head y.0 y.1 es)

  behind_cursor-held :
      (q : WaitQueue T) (x : ℕ × WaitEntry T)
      → Sorted q.entries
      → behind_cursor q ≡ some x
      → lookup x.0 q.entries ≡ some x.1
  unfolding behind_cursor
  behind_cursor-held q x s h = elim (Option-cases q.scan_cursor) [
    | inl start ↦ front_of-held q.entries x (ground (arith, h, start))
    | inr (c, at) ↦ lookup-first_after c q.entries x s (ground (arith, h, at))
  ]

  under_cursor-held :
      (q : WaitQueue T) (x : ℕ × WaitEntry T)
      → Sorted q.entries
      → under_cursor q ≡ some x
      → lookup x.0 q.entries ≡ some x.1
  unfolding under_cursor
  under_cursor-held q x s h = elim (Option-cases (behind_cursor q)) [
    | inl wrapped ↦ front_of-held q.entries x (ground (arith, h, wrapped))
    | inr (y, behind) ↦ behind_cursor-held q x s (ground (arith, h, behind))
  ]

  scan_one-Indexed :
      (q : WaitQueue T) (matches : T → Bool) → Indexed q → Indexed (scan_one true q matches).0
  unfolding scan_one
  scan_one-Indexed q matches i = elim (Option-cases (under_cursor q)) [
    | inl h ↦ rw (scan_one, h) i
    | inr (x, h) ↦
        let seen = record q { scan_cursor = some x.0 } in
        elim (Bool-cases (matches x.1.value)) [
          | inl hit ↦
              rw (scan_one, h, hit)
                (take_entry-Indexed seen (remove x.0 q.entries) x i (under_cursor-held q x i.1 h)
                  refl)
          | inr miss ↦ rw (scan_one, h, miss) i
        ]
  ]

  -- The entry of a key of the index.
  abbrev pub Entry : DeadlineKey × ℕ → Option (WaitEntry T) → Type ℓ
  Entry x o = (e : WaitEntry T) × (o ≡ some e) × (e.deadline ≡ x.0.0) × (x.1 ≡ x.0.1)

  index_names :
      (x : DeadlineKey × ℕ) (o : Option (WaitEntry T))
      → indexed x.0.0 x.0.1 o ≡ some x.1
      → Entry x o
  index_names x none h = absurd (ground (arith, h))
  index_names x (some e) h = (e, refl, ground (arith, h), ground (arith, h))

  pub head_names :
      (q : WaitQueue T) (x : DeadlineKey × ℕ) (m : List (DeadlineKey × ℕ))
      → Indexed q
      → q.deadlines ≡ x ∷ m
      → Entry x (lookup x.0.1 q.entries)
  head_names q x m i h =
      index_names x (lookup x.0.1 q.entries) (sym (i.2 x.0.0 x.0.1) ∙ rw h (lookup_head x.0 x.1 m))

  pub take_due_first :
      (q : WaitQueue T) (now : Moment) (x : DeadlineKey × ℕ) (m : List (DeadlineKey × ℕ))
      (e : WaitEntry T)
      → q.deadlines ≡ x ∷ m
      → ltb now x.0.0 ≡ false
      → lookup x.0.1 q.entries ≡ some e
      → x.1 ≡ x.0.1
      → take_due q now
        ≡ (record q { deadlines = m; entries = remove x.0.1 q.entries }, some (e.value, e.deadline))
  unfolding take_due take_numbered
  take_due_first q now x m e h ripe held number =
      let found : lookup x.1 q.entries ≡ some e =
        subst (λ k. lookup k q.entries ≡ some e) (sym number) held in
      rw (take_due, h, ripe, take_numbered, found)
        (ap
          (λ k.
            (record q { deadlines = m; entries = remove k q.entries }, some (e.value, e.deadline)))
          number)

  take_due-Indexed : (q : WaitQueue T) (now : Moment) → Indexed q → Indexed (take_due q now).0
  unfolding take_due
  take_due-Indexed q now i = due q.deadlines refl
    where
      due : (m : List (DeadlineKey × ℕ)) → q.deadlines ≡ m → Indexed (take_due q now).0
      due [] h = rw (take_due, h) i
      due (x ∷ m) h =
          let (e, held, deadline, number) = head_names q x m i h in
          elim (Bool-cases (ltb now x.0.0)) [
            | inl later ↦ rw (take_due, h, later) i
            | inr ripe ↦
                let rest : remove (e.deadline, x.0.1) q.deadlines ≡ m =
                  ap₂ (λ d ds. remove (d, x.0.1) ds) deadline h ∙ remove_head x.0 x.1 m in
                rw (take_due_first q now x m e h ripe held number) (
                  subst (λ ds. Follows ds (remove x.0.1 q.entries)) rest
                    (Follows-remove q.deadlines q.entries x.0.1 e held i))
          ]

  step-Indexed : (q : WaitQueue T) (c : Call T) → IsValid q → Indexed q → Indexed (step true q c)
  unfolding push rotate_back drain lookup
  step-Indexed q (pushes value deadline) v i = insert_back-Indexed q value deadline v i
  step-Indexed q (rotates value deadline) v i = insert_back-Indexed q value deadline v i
  step-Indexed q pops_front v i = pop_front-Indexed q i
  step-Indexed q pops_back v i = pop_back-Indexed q i
  step-Indexed q drains v i = (tt, tt, λ d s. refl)
  step-Indexed q (scans matches) v i = scan_one-Indexed q matches i
  step-Indexed q (takes_due now) v i = take_due-Indexed q now i

  pub run-Indexed :
      (q : WaitQueue T) (cs : List (Call T)) → IsValid q → Indexed q → Indexed (run true q cs)
  run-Indexed q [] v i = i
  run-Indexed q (c ∷ cs) v i =
      run-Indexed (step true q c) cs (step-IsValid true q c v) (step-Indexed q c v i)
