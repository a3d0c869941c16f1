-- ===== src/Reactor/WaitQueue/Numbers.antt =====
-- The sequence numbers of the wait queue, and the values in their order.
use kafka_driver.Core.Identity.{Moment}
use kafka_driver.Base.{
  ◌+◌, ◌≡◌, arith, nat_ord, insert, ℕ, List, suc, length, ◌≤◌, ◌++◌, ◌∷◌, [], ap, refl, u64_max,
  sym, append-nil, subst, ◌∙◌, append_assoc, ◌<◌, none, Bool-cases, leb, inl, inr, remove, ◌==◌,
  length-append, lookup,
}
use kafka_driver.Reactor.WaitQueue.{
  WaitEntry, WaitQueue, values, renumber, reserve_sequence, resequence, Pushed, insert_back,
  returned, Moment, queued, push, rotate_back,
}

module _ {ℓ} {T : Type ℓ} where
  -- Sequence numbers that ascend from `least` on and stay below `next`.
  abbrev pub Ascends : (least : ℕ) → List (ℕ × WaitEntry T) → (next : ℕ) → Type 0
  Ascends least [] next = least ≤ next
  Ascends least ((sequence, _) ∷ rest) next = (least ≤ sequence) × Ascends (sequence + 1) rest next

  pub Ascends-least :
      (a b : ℕ) (m : List (ℕ × WaitEntry T)) (next : ℕ)
      → a ≤ b
      → Ascends b m next
      → Ascends a m next
  Ascends-least a b [] next h k = omega (arith, h, k)
  Ascends-least a b (x ∷ m) next h k = (omega (arith, h, k.0), k.1)

  Ascends-bound :
      (least : ℕ) (m : List (ℕ × WaitEntry T)) (next : ℕ)
      → Ascends least m next
      → least + length m ≤ next
  Ascends-bound least [] next h = omega (arith, h)
  Ascends-bound least (x ∷ m) next h = omega (arith, h.0, Ascends-bound (x.0 + 1) m next h.1)

  Ascends-snoc :
      (least : ℕ) (m : List (ℕ × WaitEntry T)) (next : ℕ) (e : WaitEntry T)
      → Ascends least m next
      → Ascends least (m ++ (next, e) ∷ []) (next + 1)
  Ascends-snoc least [] next e h = (h, omega arith)
  Ascends-snoc least (x ∷ m) next e h = (h.0, Ascends-snoc (x.0 + 1) m next e h.1)

  -- A number that is not in use yet goes to the end.
  insert_behind :
      (least : ℕ) (m : List (ℕ × WaitEntry T)) (next : ℕ) (e : WaitEntry T)
      → Ascends least m next
      → insert next e m ≡ m ++ (next, e) ∷ []
  unfolding insert
  insert_behind least [] next e h = refl
  insert_behind least (x ∷ m) next e h =
      let rest = insert_behind (x.0 + 1) m next e h.1 in
      let bound = Ascends-bound (x.0 + 1) m next h.1 in ground (arith, rest, bound)

  pub Ascends-insert :
      (least : ℕ) (m : List (ℕ × WaitEntry T)) (next : ℕ) (e : WaitEntry T)
      → Ascends least m next
      → Ascends least (insert next e m) (next + 1)
  Ascends-insert least m next e h =
      rw (insert_behind least m next e h) (Ascends-snoc least m next e h)

  -- The next number is not in use.
  pub lookup_fresh :
      (least : ℕ) (m : List (ℕ × WaitEntry T)) (next : ℕ)
      → Ascends least m next
      → lookup next m ≡ none
  unfolding lookup
  lookup_fresh least [] next h = refl
  lookup_fresh least (x ∷ m) next h =
      let rest = lookup_fresh (x.0 + 1) m next h.1 in
      let bound = Ascends-bound (x.0 + 1) m next h.1 in ground (arith, rest, bound)

  values-append : (m n : List (ℕ × WaitEntry T)) → values (m ++ n) ≡ values m ++ values n
  values-append [] n = refl
  values-append (x ∷ m) n = ap (λ vs. x.1.value ∷ vs) (values-append m n)

  abbrev pub Numbered : WaitQueue T → Type 0
  Numbered q = Ascends 0 q.entries q.next_sequence

  abbrev pub IsValid : WaitQueue T → Type 0
  IsValid q =
      Numbered q
      × (q.capacity ≤ u64_max)
      × (length q.entries ≤ q.capacity)
      × (q.next_sequence ≤ u64_max)

  -- What renumbering keeps.
  Renumbered : WaitQueue T → List T → ℕ → WaitQueue T → Type ℓ
  Renumbered q vs next r =
      (values r.entries ≡ vs) × Numbered r × (r.next_sequence ≡ next) × (r.capacity ≡ q.capacity)

  renumber_keeps :
      (s : ℕ) (es : List (ℕ × WaitEntry T)) (q : WaitQueue T)
      → q.next_sequence ≡ s
      → Numbered q
      → Renumbered q (values q.entries ++ values es) (s + length es) (renumber s es q)
  unfolding renumber Renumbered
  renumber_keeps s [] q h n = (sym (append-nil (values q.entries)), n, omega (arith, h), refl)
  renumber_keeps s ((_, e) ∷ es) q h n =
      let placed : insert s e q.entries ≡ q.entries ++ (s, e) ∷ [] =
        insert_behind 0 q.entries s e (subst (Ascends 0 q.entries) h n) in
      let ascends = Ascends-insert 0 q.entries s e (subst (Ascends 0 q.entries) h n) in
      let (vs, numbered, next, capacity) = renumber_keeps (s + 1) es _ refl ascends in
      let split : values (insert s e q.entries) ≡ values q.entries ++ e.value ∷ [] =
        rw placed (values-append q.entries ((s, e) ∷ [])) in
      (vs ∙ rw (split, append_assoc) refl, numbered, omega (arith, next), capacity)

  -- A new number leaves room for itself and changes no value.
  pub reserve_keeps :
      (q : WaitQueue T)
      → IsValid q
      → length q.entries < q.capacity
      → let (r, sequence) = reserve_sequence q in
        (values r.entries ≡ values q.entries)
        × Ascends 0 r.entries sequence
        × (r.next_sequence ≡ sequence + 1)
        × (r.next_sequence ≤ u64_max)
        × (r.capacity ≡ q.capacity)
  unfolding reserve_sequence resequence Renumbered
  reserve_keeps q (numbered, fits, held, below) room =
      let bare : WaitQueue T = record q {
        entries = [];
        scan_cursor = none;
        deadlines = [];
        next_sequence = 0;
      } in
      let (vs, ascends, next, capacity) = renumber_keeps 0 q.entries bare refl (omega arith) in
      elim (Bool-cases (leb (q.next_sequence + 1) u64_max)) [
        | inl h ↦ rw (reserve_sequence, h) (refl, numbered, refl, ground (arith, h), refl)
        | inr h ↦
            rw (reserve_sequence, h) (vs, ascends, refl, omega (arith, next, fits, room), capacity)
      ]

  length-values : (m : List (ℕ × WaitEntry T)) → length (values m) ≡ length m
  length-values [] = refl
  length-values (x ∷ m) = ap suc (length-values m)

  -- What a push adds to the values.
  abbrev pub admitted : Pushed T → T → List T
  admitted queued value = value ∷ []
  admitted (returned _) value = []

  insert_back_keeps :
      (q : WaitQueue T) (value : T) (deadline : Moment)
      → IsValid q
      → let (r, pushed) = insert_back q value deadline in
        IsValid r × (values r.entries ≡ values q.entries ++ admitted pushed value)
  unfolding insert_back
  insert_back_keeps q value deadline (numbered, fits, held, below) =
      elim (Bool-cases (length q.entries == q.capacity)) [
        | inl full ↦
            rw (insert_back, full)
              ((numbered, fits, held, below), sym (append-nil (values q.entries)))
        | inr room ↦
            let less : length q.entries < q.capacity = ground (arith, room, held) in
            let e : WaitEntry T = record { value = value; deadline = deadline } in
            let (r, sequence) = reserve_sequence q in
            let (vs, ascends, next, word, capacity) =
              reserve_keeps q (numbered, fits, held, below) less in
            let placed = insert_behind 0 r.entries sequence e ascends in
            let after : values (insert sequence e r.entries) ≡ values q.entries ++ value ∷ [] =
              rw (placed, values-append, vs) refl in
            let count : length (insert sequence e r.entries) ≡ length q.entries + 1 =
              sym (length-values (insert sequence e r.entries))
              ∙ ap length after
              ∙ length-append (values q.entries) (value ∷ [])
              ∙ ap (λ n. n + 1) (length-values q.entries) in
            rw (insert_back, room)
              (
                (
                  rw (placed, next) (Ascends-snoc 0 r.entries sequence e ascends),
                  omega (arith, capacity, fits),
                  omega (arith, count, capacity, less),
                  word,
                ),
                after,
              )
      ]

  pub remove-Ascends :
      (least next k : ℕ) (m : List (ℕ × WaitEntry T))
      → Ascends least m next
      → Ascends least (remove k m) next
  unfolding remove
  remove-Ascends least next k [] h = h
  remove-Ascends least next k (x ∷ m) h =
      let rest = remove-Ascends (x.0 + 1) next k m h.1 in
      let behind = Ascends-least least (x.0 + 1) m next (omega (arith, h.0)) h.1 in
      ground (arith, rest, behind)

  pub length-remove : (k : ℕ) (m : List (ℕ × WaitEntry T)) → length (remove k m) ≤ length m
  unfolding remove
  length-remove k [] = omega arith
  length-remove k (x ∷ m) = ground (arith, length-remove k m)

  pub push_keeps :
      (q : WaitQueue T) (value : T) (deadline : Moment)
      → IsValid q
      → let (r, pushed) = push q value deadline in
        IsValid r × (values r.entries ≡ values q.entries ++ admitted pushed value)
  unfolding push
  push_keeps q value deadline v = insert_back_keeps q value deadline v

  pub rotate_back_keeps :
      (q : WaitQueue T) (value : T) (deadline : Moment)
      → IsValid q
      → let (r, pushed) = rotate_back q value deadline in
        IsValid r × (values r.entries ≡ values q.entries ++ admitted pushed value)
  unfolding rotate_back
  rotate_back_keeps q value deadline v = insert_back_keeps q value deadline v
