-- ===== src/Core/EndpointDialer/Pass.antt =====
-- A pass over the addresses of an endpoint: endpoint_dialer/machine.rs.
use kafka_driver.Base.{
  ℕ, ◌+◌, ◌%◌, ◌≤◌, ◌<◌, some, List, [], ◌∷◌, ◌++◌, ◌≡◌, refl, sym, ap, length, get_elem?,
  length-append, append_assoc, arith, ◌∙◌,
}
use native.Mathlib.Nat.{mod-eq_of_lt}
use kafka_driver.Core.EndpointDialer.{
  EndpointDialer, EndpointDialerEffect, EndpointDialerInput, idle, candidate, open_candidate,
  resolve, opens, fails, new, apply,
}

module _ {κ} {A : Type κ} where
  -- Every address is asked for and fails.
  abbrev pub all_fail : List A → List (EndpointDialerInput A)
  all_fail [] = []
  all_fail (a ∷ xs) = opens ∷ fails ∷ all_fail xs

  get_elem-length : (xs ys : List A) (a : A) → get_elem? (xs ++ a ∷ ys) (length xs) ≡ some a
  get_elem-length [] ys a = refl
  get_elem-length (x ∷ xs) ys a = get_elem-length xs ys a

module _ {ℓ κ} {E : Type ℓ} {A : Type κ} where
  -- The dialer after a list of inputs, with all effects in order.
  abbrev pub run :
      EndpointDialer E A
      → List (EndpointDialerInput A)
      → EndpointDialer E A × List (EndpointDialerEffect E A)
  run d [] = (d, [])
  run d (i ∷ is) = let (next, es) = apply d i in let rest = run next is in (rest.0, es ++ rest.1)

  -- One candidate for each address, and one request to resolve after the last.
  abbrev pub full_pass : E → List A → List (EndpointDialerEffect E A)
  full_pass e [] = resolve e ∷ []
  full_pass e (a ∷ xs) = open_candidate e a ∷ full_pass e xs

  -- The dialer has failed on the first addresses and is at this one.
  record At (d : EndpointDialer E A) (done : List A) (a : A) (left : List A) : Type (ℓ ⊔ κ) where
    holds : d.addresses ≡ done ++ a ∷ left
    at_next : d.next ≡ length done
    failed : d.failures ≡ length done
    rests : d.phase ≡ idle

  opens_lem :
      (d : EndpointDialer E A) (a : A)
      → get_elem? d.addresses d.next ≡ some a
      → d.phase ≡ idle
      → apply d opens ≡ (
        record d { next = (d.next + 1) % length d.addresses; phase = candidate d.next },
        open_candidate d.endpoint a ∷ [],
      )
  unfolding apply
  opens_lem d a found rests = rw (rests, found) refl

  fails_more :
      (d : EndpointDialer E A) (n : ℕ)
      → d.phase ≡ candidate n
      → d.failures + 1 < length d.addresses
      → apply d fails ≡ (record d { failures = d.failures + 1; phase = idle }, [])
  unfolding apply
  fails_more d n waits more = ground (arith, waits, more)

  fails_last :
      (d : EndpointDialer E A) (n : ℕ)
      → d.phase ≡ candidate n
      → length d.addresses ≤ d.failures + 1
      → apply d fails ≡ (record d { failures = 0; phase = idle }, resolve d.endpoint ∷ [])
  unfolding apply
  fails_last d n waits last = ground (arith, waits, last)

  found :
      (d : EndpointDialer E A) (done : List A) (a : A) (left : List A)
      → At d done a left
      → get_elem? d.addresses d.next ≡ some a
  found d done a left here = rw (here.holds, here.at_next) (get_elem-length done left a)

  pass :
      (d : EndpointDialer E A) (done : List A) (a : A) (left : List A)
      → At d done a left
      → (run d (all_fail (a ∷ left))).1 ≡ full_pass d.endpoint (a ∷ left)
  pass d done a [] here =
      let d1 : EndpointDialer E A = record d {
        next = (d.next + 1) % length d.addresses;
        phase = candidate d.next;
      } in
      let last : length d.addresses ≤ d.failures + 1 =
        omega (arith, ap length here.holds, length-append done (a ∷ []), here.failed) in
      rw (opens_lem d a (found d done a [] here) here.rests, fails_last d1 d.next refl last) refl
  pass d done a (b ∷ left) here =
      let d1 : EndpointDialer E A = record d {
        next = (d.next + 1) % length d.addresses;
        phase = candidate d.next;
      } in
      let d2 : EndpointDialer E A = record d1 { failures = d.failures + 1; phase = idle } in
      let size = ap length here.holds in
      let more : d.failures + 1 < length d.addresses =
        omega (arith, size, length-append done (a ∷ b ∷ left), here.failed) in
      let kept : (d.next + 1) % length d.addresses ≡ d.next + 1 =
        mod-eq_of_lt (omega (arith, more, here.failed, here.at_next)) in
      let there : At d2 (done ++ a ∷ []) b left = record {
        holds = here.holds ∙ sym (append_assoc done (a ∷ []) (b ∷ left));
        at_next = omega (arith, kept, here.at_next, length-append done (a ∷ []));
        failed = omega (arith, here.failed, length-append done (a ∷ []));
        rests = refl;
      } in
      rw (opens_lem d a (found d done a (b ∷ left) here) here.rests, fails_more d1 d.next refl more)
        (ap (◌∷◌ (open_candidate d.endpoint a)) (pass d2 (done ++ a ∷ []) b left there))

  -- If every candidate fails, a new dialer asks for each of its addresses once, in their order, and
  -- for a new resolution exactly when the last has failed. It has at least one address.
  pub all_fail_resolves :
      (e : E) (x : A) (xs : List A)
      → (run (new e (x ∷ xs)) (all_fail (x ∷ xs))).1 ≡ full_pass e (x ∷ xs)
  unfolding new
  all_fail_resolves e x xs =
      pass (new e (x ∷ xs)) [] x xs
        (record { holds = refl; at_next = refl; failed = refl; rests = refl })
