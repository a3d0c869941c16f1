-- ===== src/Core/Connection/Queue.antt =====
-- The FIFO of calls of pending.rs: its well-formedness and its operations.
use kafka_driver.Base.{
  ℕ, ◌+◌, ◌≤◌, ◌<◌, false, some, List, [], ◌∷◌, ◌++◌, ◌≡◌, refl, ◌==◌, arith, Option-cases, inl,
  inr, length, any, All, Distinct, Distinct-snoc, length-append,
}
use kafka_driver.Core.Identity.{Delivery, not_sent, possibly_sent}
use kafka_driver.Core.Connection.Pending.{
  PendingCall, PendingPhase, awaiting_write, awaiting_response, mark_submitted, submit_in,
  remove_awaiting_write, new_call, contains_correlation,
}

-- What a caller may assume about the delivery of a call in this phase.
abbrev pub delivery_in : PendingPhase → Delivery
delivery_in awaiting_write = not_sent
delivery_in awaiting_response = possibly_sent

pub record QueueIsValid (limit : ℕ) (ps : List PendingCall) : Type 0 where
  pub bounded : length ps ≤ limit
  pub distinct_calls : Distinct (λ p. p.call_id) ps
  pub distinct_effects : Distinct (λ p. p.write_effect) ps
  pub distinct_timers : Distinct (λ p. p.deadline_timer) ps
  pub distinct_correlations : Distinct (λ p. p.correlation_id) ps
  pub honest : All (λ p. p.delivery ≡ delivery_in p.phase) ps

pub empty-IsValid : (limit : ℕ) → QueueIsValid limit []
empty-IsValid limit = ground arith

pub tail-IsValid :
    (limit : ℕ) (p : PendingCall) (ps : List PendingCall)
    → QueueIsValid limit (p ∷ ps)
    → QueueIsValid limit ps
tail-IsValid limit p ps v = ground arith

-- A key of a call that the submission of its write does not touch.
module _ (key : PendingCall → ℕ) (fixed : (p : PendingCall) → key (mark_submitted p) ≡ key p) where
  any-submit_in :
      (effect k : ℕ) (ps qs : List PendingCall)
      → submit_in effect ps ≡ some qs
      → any (λ p. key p == k) qs ≡ any (λ p. key p == k) ps
  unfolding submit_in
  any-submit_in effect k [] qs e = ground arith
  any-submit_in effect k (p ∷ ps) qs e = elim (Option-cases (submit_in effect ps)) [
    | inl missed ↦ ground (arith, fixed p)
    | inr (rest, found) ↦ ground (arith, fixed p, any-submit_in effect k ps rest found)
  ]

  submit_in-Distinct :
      (effect : ℕ) (ps qs : List PendingCall)
      → submit_in effect ps ≡ some qs
      → Distinct key ps
      → Distinct key qs
  unfolding submit_in
  submit_in-Distinct effect [] qs e d = ground arith
  submit_in-Distinct effect (p ∷ ps) qs e d = elim (Option-cases (submit_in effect ps)) [
    | inl missed ↦ ground (arith, fixed p)
    | inr (rest, found) ↦ ground (
      arith,
      fixed p,
      any-submit_in effect (key p) ps rest found,
      submit_in-Distinct effect ps rest found d.1,
    )
  ]

length-submit_in :
    (effect : ℕ) (ps qs : List PendingCall) → submit_in effect ps ≡ some qs → length qs ≡ length ps
unfolding submit_in
length-submit_in effect [] qs e = ground arith
length-submit_in effect (p ∷ ps) qs e = elim (Option-cases (submit_in effect ps)) [
  | inl missed ↦ ground arith
  | inr (rest, found) ↦ ground (arith, length-submit_in effect ps rest found)
]

honest-submit_in :
    (effect : ℕ) (ps qs : List PendingCall)
    → submit_in effect ps ≡ some qs
    → All (λ p. p.delivery ≡ delivery_in p.phase) ps
    → All (λ p. p.delivery ≡ delivery_in p.phase) qs
unfolding submit_in mark_submitted
honest-submit_in effect [] qs e h = ground arith
honest-submit_in effect (p ∷ ps) qs e h = elim (Option-cases (submit_in effect ps)) [
  | inl missed ↦ ground arith
  | inr (rest, found) ↦ ground (arith, honest-submit_in effect ps rest found h.1)
]

pub submit_in-IsValid :
    (limit effect : ℕ) (ps qs : List PendingCall)
    → submit_in effect ps ≡ some qs
    → QueueIsValid limit ps
    → QueueIsValid limit qs
unfolding mark_submitted
submit_in-IsValid limit effect ps qs e v = record {
  bounded = omega (arith, length-submit_in effect ps qs e, v.bounded);
  distinct_calls = submit_in-Distinct (λ p. p.call_id) (λ p. refl) effect ps qs e v.distinct_calls;
  distinct_effects =
      submit_in-Distinct (λ p. p.write_effect) (λ p. refl) effect ps qs e v.distinct_effects;
  distinct_timers =
      submit_in-Distinct (λ p. p.deadline_timer) (λ p. refl) effect ps qs e v.distinct_timers;
  distinct_correlations =
      submit_in-Distinct (λ p. p.correlation_id) (λ p. refl) effect ps qs e v.distinct_correlations;
  honest = honest-submit_in effect ps qs e v.honest;
}

any-remove :
    (key : PendingCall → ℕ) (call effect k : ℕ) (ps qs : List PendingCall) (x : PendingCall)
    → remove_awaiting_write call effect ps ≡ some (x, qs)
    → any (λ p. key p == k) ps ≡ false
    → any (λ p. key p == k) qs ≡ false
unfolding remove_awaiting_write
any-remove key call effect k [] qs x e h = ground arith
any-remove key call effect k (p ∷ ps) qs x e h =
    elim (Option-cases (remove_awaiting_write call effect ps)) [
      | inl missed ↦ ground arith
      | inr ((y, rest), found) ↦
          let before : any (λ p. key p == k) ps ≡ false = ground arith in
          ground (arith, any-remove key call effect k ps rest y found before)
    ]

remove-Distinct :
    (key : PendingCall → ℕ) (call effect : ℕ) (ps qs : List PendingCall) (x : PendingCall)
    → remove_awaiting_write call effect ps ≡ some (x, qs)
    → Distinct key ps
    → Distinct key qs
unfolding remove_awaiting_write
remove-Distinct key call effect [] qs x e d = ground arith
remove-Distinct key call effect (p ∷ ps) qs x e d =
    elim (Option-cases (remove_awaiting_write call effect ps)) [
      | inl missed ↦ ground arith
      | inr ((y, rest), found) ↦ ground (
        arith,
        any-remove key call effect (key p) ps rest y found d.0,
        remove-Distinct key call effect ps rest y found d.1,
      )
    ]

length-remove :
    (call effect : ℕ) (ps qs : List PendingCall) (x : PendingCall)
    → remove_awaiting_write call effect ps ≡ some (x, qs)
    → length ps ≡ length qs + 1
unfolding remove_awaiting_write
length-remove call effect [] qs x e = ground arith
length-remove call effect (p ∷ ps) qs x e =
    elim (Option-cases (remove_awaiting_write call effect ps)) [
      | inl missed ↦ ground arith
      | inr ((y, rest), found) ↦ ground (arith, length-remove call effect ps rest y found)
    ]

honest-remove :
    (call effect : ℕ) (ps qs : List PendingCall) (x : PendingCall)
    → remove_awaiting_write call effect ps ≡ some (x, qs)
    → All (λ p. p.delivery ≡ delivery_in p.phase) ps
    → All (λ p. p.delivery ≡ delivery_in p.phase) qs
unfolding remove_awaiting_write
honest-remove call effect [] qs x e h = ground arith
honest-remove call effect (p ∷ ps) qs x e h =
    elim (Option-cases (remove_awaiting_write call effect ps)) [
      | inl missed ↦ ground arith
      | inr ((y, rest), found) ↦ ground (arith, honest-remove call effect ps rest y found h.1)
    ]

pub remove-IsValid :
    (limit call effect : ℕ) (ps qs : List PendingCall) (x : PendingCall)
    → remove_awaiting_write call effect ps ≡ some (x, qs)
    → QueueIsValid limit ps
    → QueueIsValid limit qs
remove-IsValid limit call effect ps qs x e v = record {
  bounded = omega (arith, length-remove call effect ps qs x e, v.bounded);
  distinct_calls = remove-Distinct (λ p. p.call_id) call effect ps qs x e v.distinct_calls;
  distinct_effects = remove-Distinct (λ p. p.write_effect) call effect ps qs x e v.distinct_effects;
  distinct_timers = remove-Distinct (λ p. p.deadline_timer) call effect ps qs x e v.distinct_timers;
  distinct_correlations =
      remove-Distinct (λ p. p.correlation_id) call effect ps qs x e v.distinct_correlations;
  honest = honest-remove call effect ps qs x e v.honest;
}

honest-snoc :
    (ps : List PendingCall) (p : PendingCall)
    → All (λ p. p.delivery ≡ delivery_in p.phase) ps
    → p.delivery ≡ delivery_in p.phase
    → All (λ p. p.delivery ≡ delivery_in p.phase) (ps ++ p ∷ [])
honest-snoc [] p h e = (e, tt)
honest-snoc (q ∷ ps) p h e = (h.0, honest-snoc ps p h.1 e)

pub push-IsValid :
    (limit : ℕ) (ps : List PendingCall) (call k effect timer at : ℕ)
    → length ps < limit
    → any (λ p. p.call_id == call) ps ≡ false
    → any (λ p. p.write_effect == effect) ps ≡ false
    → any (λ p. p.deadline_timer == timer) ps ≡ false
    → contains_correlation ps k ≡ false
    → QueueIsValid limit ps
    → QueueIsValid limit (ps ++ new_call call k effect timer at ∷ [])
push-IsValid limit ps call k effect timer at room no_call no_effect no_timer no_correlation v =
    record {
      bounded = omega (arith, length-append ps (new_call call k effect timer at ∷ []), room);
      distinct_calls =
          Distinct-snoc _ ps (new_call call k effect timer at) no_call v.distinct_calls;
      distinct_effects =
          Distinct-snoc _ ps (new_call call k effect timer at) no_effect v.distinct_effects;
      distinct_timers =
          Distinct-snoc _ ps (new_call call k effect timer at) no_timer v.distinct_timers;
      distinct_correlations =
          Distinct-snoc _ ps (new_call call k effect timer at) no_correlation
            v.distinct_correlations;
      honest = honest-snoc ps (new_call call k effect timer at) v.honest refl;
    }
