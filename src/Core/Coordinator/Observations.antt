-- ===== src/Core/Coordinator/Observations.antt =====
-- The moments observed against a coordinator route that is revoked: coordinator/revocation.rs.
use kafka_driver.Base.{
  nat_eq, List, Option, [], ◌∷◌, ◌≡◌, some, if◌then◌else◌, All, arith, ◌≤◌, none, true, false, ◌⊎◌,
  same_list_iff, Option-cases, subst, inl, sym, refl, inr, Bool-cases, ap, ◌∙◌, All-map,
}
use kafka_driver.Core.Coordinator.{
  CoordinatorMachine, CoordinatorInput, CoordinatorRevocation, CoordinatorRoute, apply, new, start,
  start_after, resolve, refresh_at, invalidate, withdraw, succeed, fail, reject, retry_elapsed,
  invalidate_input, is_same_target, observe, resolve_input, refresh_input, withdraw_input,
  discovery_succeeded, discovery_failed, discovery_rejected, retry_elapsed_input,
}
use kafka_driver.Core.Identity.{OutcomeStamp, OperationId, next_epoch, add_duration, CoordinatorKey}
use kafka_driver.Core.Endpoint.{endpoint_eq}
use kafka_driver.Core.Coordinator.Validity.{CoordinatorIsValid, run, apply-CoordinatorIsValid}

-- The moments seen so far, after an input that leaves the given revocation pending: those of all
-- invalidations of its target since it was made.
abbrev pub note :
    List OutcomeStamp → Option CoordinatorRevocation → CoordinatorInput → List OutcomeStamp
note seen none i = []
note seen (some r) (invalidate_input route observed_at operation) =
    if is_same_target r.target route then observed_at ∷ seen else seen
note seen (some r) _ = seen

abbrev pub observed_from :
    CoordinatorMachine → List OutcomeStamp → List CoordinatorInput → List OutcomeStamp
observed_from m seen [] = seen
observed_from m seen (i ∷ is) = let n = (apply m i).0 in observed_from n (note seen n.pending i) is

-- The watermark is above every moment that was seen.
abbrev pub Covers : Option CoordinatorRevocation → List OutcomeStamp → Type 0
Covers none seen = seen ≡ []
Covers (some r) seen = All (λ t. t ≤ r.required_after) seen

invalidate_again :
    (m : CoordinatorMachine) (route : CoordinatorRoute) (t : OutcomeStamp) (op : OperationId)
    (r : CoordinatorRevocation)
    → m.pending ≡ some r
    → is_same_target r.target route ≡ true
    → (invalidate m route t op).0.pending ≡ some (observe r t).0
unfolding invalidate refresh_at start start_after next_epoch
invalidate_again m route t op r p same = ground (arith, p, same)

invalidate_other :
    (m : CoordinatorMachine) (route : CoordinatorRoute) (t : OutcomeStamp) (op : OperationId)
    (r : CoordinatorRevocation)
    → CoordinatorIsValid m
    → m.pending ≡ some r
    → is_same_target r.target route ≡ false
    → (invalidate m route t op).0.pending ≡ some r
unfolding invalidate refresh_at start start_after next_epoch
invalidate_other m route t op r v p other = ground (arith, v, p, other)

invalidate_first :
    (m : CoordinatorMachine) (route : CoordinatorRoute) (t : OutcomeStamp) (op : OperationId)
    → m.pending ≡ none
    → ((invalidate m route t op).0.pending ≡ none)
      ⊎ ((invalidate m route t op).0.pending ≡ some (record { target = route; required_after = t }))
unfolding invalidate refresh_at start start_after next_epoch
invalidate_first m route t op p = ground (arith, p)

observe_raises :
    (r : CoordinatorRevocation) (t : OutcomeStamp)
    → ((observe r t).0.target ≡ r.target)
      × (r.required_after ≤ (observe r t).0.required_after)
      × (t ≤ (observe r t).0.required_after)
observe_raises r t = ground arith

same_target_self : (r : CoordinatorRoute) → is_same_target r r ≡ true
same_target_self r = ground (
  arith,
  (same_list_iff r.key.value r.key.value).1 refl,
  (endpoint_eq.same_iff r.endpoint r.endpoint).1 refl,
)

invalidate-Covers :
    (m : CoordinatorMachine) (route : CoordinatorRoute) (t : OutcomeStamp) (op : OperationId)
    (seen : List OutcomeStamp)
    → CoordinatorIsValid m
    → Covers m.pending seen
    → let n = (invalidate m route t op).0 in
      Covers n.pending (note seen n.pending (invalidate_input route t op))
invalidate-Covers m route t op seen v c = elim (Option-cases m.pending) [
  | inl p ↦
      let empty : seen ≡ [] = subst (λ q. Covers q seen) p c in
      elim (invalidate_first m route t op p) [
        | inl e ↦ subst After (sym e) refl
        | inr e ↦
            let made : CoordinatorRevocation = record { target = route; required_after = t } in
            subst After (sym e) (
              subst (λ b. Covers (some made) (if b then t ∷ seen else seen))
                (sym (same_target_self route))
                (omega arith, subst (Covers (some made)) (sym empty) tt))
      ]
  | inr (r, p) ↦
      let held : Covers (some r) seen = subst (λ q. Covers q seen) p c in
      elim (Bool-cases (is_same_target r.target route)) [
        | inl same ↦
            let after = (observe r t).0 in
            let (target, above, covers) = observe_raises r t in
            subst After (sym (invalidate_again m route t op r p same)) (
              subst (λ b. Covers (some after) (if b then t ∷ seen else seen))
                (sym (ap (λ x. is_same_target x route) target ∙ same))
                (
                  covers,
                  All-map (λ x. x ≤ r.required_after) (λ x. x ≤ after.required_after)
                      (λ x h. omega (arith, h, above)) seen held,
                ))
        | inr other ↦
            subst After (sym (invalidate_other m route t op r v p other))
              (subst (λ b. Covers (some r) (if b then t ∷ seen else seen)) (sym other) held)
      ]
]
  where
    After : Option CoordinatorRevocation → Type 0
    After q = Covers q (note seen q (invalidate_input route t op))

-- Any other input keeps the revocation that is pending, or lifts it.
other-Covers :
    (before after : Option CoordinatorRevocation) (i : CoordinatorInput) (seen : List OutcomeStamp)
    → (after ≡ none) ⊎ (after ≡ before)
    → ((r : CoordinatorRevocation) → note seen (some r) i ≡ seen)
    → Covers before seen
    → Covers after (note seen after i)
other-Covers before none i seen step quiet c = refl
other-Covers before (some r) i seen step quiet c =
    let same : before ≡ some r = ground (arith, step) in
    rw (quiet r) (subst (λ q. Covers q seen) same c)

apply-Covers :
    (m : CoordinatorMachine) (i : CoordinatorInput) (seen : List OutcomeStamp)
    → CoordinatorIsValid m
    → Covers m.pending seen
    → let n = (apply m i).0 in Covers n.pending (note seen n.pending i)
unfolding apply resolve start start_after refresh_at withdraw succeed fail reject retry_elapsed
    next_epoch add_duration
apply-Covers m (invalidate_input route t op) seen v c = invalidate-Covers m route t op seen v c
apply-Covers m (resolve_input op) seen v c =
    other-Covers m.pending (resolve m op).0.pending (resolve_input op) seen (ground arith)
      (λ r. refl) c
apply-Covers m (refresh_input op) seen v c =
    other-Covers m.pending (refresh_at m op).0.pending (refresh_input op) seen (ground arith)
      (λ r. refl) c
apply-Covers m (withdraw_input route op) seen v c =
    other-Covers m.pending (withdraw m route op).0.pending (withdraw_input route op) seen
      (ground arith) (λ r. refl) c
apply-Covers m (discovery_succeeded op epoch b x ev f) seen v c =
    other-Covers m.pending (succeed m op epoch b x ev f).0.pending
      (discovery_succeeded op epoch b x ev f) seen (ground arith) (λ r. refl) c
apply-Covers m (discovery_failed op epoch f) seen v c =
    other-Covers m.pending (fail m op epoch f).0.pending (discovery_failed op epoch f) seen
      (ground arith) (λ r. refl) c
apply-Covers m (discovery_rejected op epoch now f) seen v c =
    other-Covers m.pending (reject m op epoch now f).0.pending (discovery_rejected op epoch now f)
      seen (ground arith) (λ r. refl) c
apply-Covers m (retry_elapsed_input op epoch now f) seen v c =
    other-Covers m.pending (retry_elapsed m op epoch now f).0.pending
      (retry_elapsed_input op epoch now f) seen (ground arith) (λ r. refl) c

observed-Covers :
    (m : CoordinatorMachine) (seen : List OutcomeStamp) (is : List CoordinatorInput)
    → CoordinatorIsValid m
    → Covers m.pending seen
    → Covers (run m is).0.pending (observed_from m seen is)
observed-Covers m seen [] v c = c
observed-Covers m seen (i ∷ is) v c =
    let n = (apply m i).0 in
    observed-Covers n (note seen n.pending i) is (apply-CoordinatorIsValid m i v)
      (apply-Covers m i seen v c)

-- All moments observed against the route whose revocation is pending after a run of a new machine.
abbrev pub observed : CoordinatorKey → List CoordinatorInput → List OutcomeStamp
observed key is = observed_from (new key) [] is

pub run-Covers :
    (key : CoordinatorKey) (is : List CoordinatorInput)
    → Covers (run (new key) is).0.pending (observed key is)
unfolding new
run-Covers key is = observed-Covers (new key) [] is tt refl
