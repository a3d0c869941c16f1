-- ===== src/Core/Connection/Correlations.antt =====
-- The correlation allocator of correlation.rs.
use kafka_driver.Base.{
  ℕ, zero, suc, ◌+◌, ◌-◌, ◌≤◌, ◌<◌, Bool, true, false, not, Option, none, some, List, [], ◌∷◌, ◌≡◌,
  refl, ap, ◌==◌, leb, arith, Option-cases, ◌⊎◌, inl, inr, length, any, All, Distinct,
  if◌then◌else◌, i32_max, ℕ_discrete, ◌∙◌,
}
use kafka_driver.Core.Connection.Pending.{
  PendingCall, following, allocate_in, allocate, contains_correlation,
}

-- One round: the value that is free, or what the other rounds find.
round_cases :
    (free : Bool) (next : ℕ) (r : ℕ × Option ℕ) (found : Option ℕ)
    → (if free then (following next, some next) else r).1 ≡ found
    → ((free ≡ true) × (some next ≡ found)) ⊎ ((free ≡ false) × (r.1 ≡ found))
round_cases true next r found e = inl (refl, e)
round_cases false next r found e = inr (refl, e)

allocate_in-free :
    (rounds next : ℕ) (in_use : ℕ → Bool) (k : ℕ)
    → (allocate_in rounds next in_use).1 ≡ some k
    → in_use k ≡ false
unfolding allocate_in
allocate_in-free zero next in_use k e = ground arith
allocate_in-free (suc rounds) next in_use k e =
    elim (round_cases (not (in_use next)) next (allocate_in rounds (following next) in_use) (some k)
      e) [
        | inl (free, same) ↦ ground arith
        | inr (_, later) ↦ allocate_in-free rounds (following next) in_use k later
      ]

pub allocate-free :
    (next count : ℕ) (in_use : ℕ → Bool) (k : ℕ)
    → (allocate next count in_use).1 ≡ some k
    → in_use k ≡ false
unfolding allocate
allocate-free next count in_use k e = allocate_in-free (suc count) next in_use k e

-- The values that a number of rounds tries.
abbrev candidates : ℕ → ℕ → List ℕ
candidates zero next = []
candidates (suc rounds) next = next ∷ candidates rounds (following next)

All-in_use :
    (rounds next : ℕ) (in_use : ℕ → Bool)
    → (allocate_in rounds next in_use).1 ≡ none
    → All (λ k. in_use k ≡ true) (candidates rounds next)
unfolding allocate_in
All-in_use zero next in_use e = tt
All-in_use (suc rounds) next in_use e =
    elim (round_cases (not (in_use next)) next (allocate_in rounds (following next) in_use) none
      e) [
        | inl (free, same) ↦ ground arith
        | inr (used, later) ↦ (ground arith, All-in_use rounds (following next) in_use later)
      ]

-- The steps around the ring from one value to another.
abbrev ahead : ℕ → ℕ → ℕ
ahead s k = if leb s k then k - s else (k + (i32_max + 1)) - s

candidates-ahead :
    (rounds s k : ℕ)
    → s ≤ i32_max
    → k ≤ i32_max
    → rounds ≤ ahead s k
    → any (λ c. c == k) (candidates rounds s) ≡ false
candidates-ahead zero s k hs hk h = refl
candidates-ahead (suc rounds) s k hs hk h =
    let next : following s ≤ i32_max = ground arith in
    let closer : rounds ≤ ahead (following s) k = ground arith in
    ground (arith, candidates-ahead rounds (following s) k next hk closer)

candidates-Distinct :
    (rounds s : ℕ) → s ≤ i32_max → rounds ≤ i32_max + 1 → Distinct (λ k. k) (candidates rounds s)
candidates-Distinct zero s hs h = tt
candidates-Distinct (suc rounds) s hs h =
    let next : following s ≤ i32_max = ground arith in
    let far : rounds ≤ ahead (following s) s = ground arith in
    (
      candidates-ahead rounds (following s) s next hs far,
      candidates-Distinct rounds (following s) next (omega arith),
    )

-- How many calls hold one of these values.
abbrev held : List ℕ → List PendingCall → ℕ
held ks [] = 0
held ks (p ∷ ps) = (if any (λ c. c == p.correlation_id) ks then 1 else 0) + held ks ps

held-length : (ks : List ℕ) (ps : List PendingCall) → held ks ps ≤ length ps
held-length ks [] = omega arith
held-length ks (p ∷ ps) = ground (arith, held-length ks ps)

held-cons : (k : ℕ) (ks : List ℕ) (ps : List PendingCall) → held ks ps ≤ held (k ∷ ks) ps
held-cons k ks [] = omega arith
held-cons k ks (p ∷ ps) = ground (arith, held-cons k ks ps)

-- A value that is held and not yet counted adds one.
held-new :
    (k : ℕ) (ks : List ℕ) (ps : List PendingCall)
    → any (λ c. c == k) ks ≡ false
    → contains_correlation ps k ≡ true
    → held ks ps < held (k ∷ ks) ps
held-new k ks [] fresh used = ground arith
held-new k ks (p ∷ ps) fresh used = elim (ℕ_discrete p.correlation_id k) [
  | yes same ↦
      let gone : any (λ c. c == p.correlation_id) ks ≡ false =
        ap (λ j. any (λ c. c == j) ks) same ∙ fresh in
      ground (arith, gone, same, held-cons k ks ps)
  | no other ↦
      let later : contains_correlation ps k ≡ true = ground (arith, other) in
      ground (arith, other, held-new k ks ps fresh later)
]

pigeonhole :
    (ks : List ℕ) (ps : List PendingCall)
    → Distinct (λ k. k) ks
    → All (λ k. contains_correlation ps k ≡ true) ks
    → length ks ≤ held ks ps
pigeonhole [] ps d h = omega arith
pigeonhole (k ∷ ks) ps d h = omega (arith, held-new k ks ps d.0 h.0, pigeonhole ks ps d.1 h.1)

length-candidates : (rounds s : ℕ) → length (candidates rounds s) ≡ rounds
length-candidates zero s = refl
length-candidates (suc rounds) s = ap suc (length-candidates rounds (following s))

-- With at most `i32::MAX` calls in flight the allocator finds a value, whatever values the calls hold,
-- and the value is held by none of them.
pub allocate_finds :
    (next : ℕ) (ps : List PendingCall)
    → next ≤ i32_max
    → length ps ≤ i32_max
    → (k : ℕ) × ((allocate next (length ps) (contains_correlation ps)).1 ≡ some k)
      × (contains_correlation ps k ≡ false)
unfolding allocate
allocate_finds next ps hn room =
    elim (Option-cases (allocate next (length ps) (contains_correlation ps)).1) [
      | inl missed ↦
          let ks = candidates (suc (length ps)) next in
          let d : Distinct (λ k. k) ks =
            candidates-Distinct (suc (length ps)) next hn (omega arith) in
          let used = All-in_use (suc (length ps)) next (contains_correlation ps) missed in
          absurd (
            omega (
              arith,
              pigeonhole ks ps d used,
              held-length ks ps,
              length-candidates (suc (length ps)) next,
            ))
      | inr (k, found) ↦
          (k, found, allocate-free next (length ps) (contains_correlation ps) k found)
    ]

allocate_in-bounded :
    (rounds next : ℕ) (in_use : ℕ → Bool)
    → next ≤ i32_max
    → (allocate_in rounds next in_use).0 ≤ i32_max
unfolding allocate_in
allocate_in-bounded zero next in_use h = h
allocate_in-bounded (suc rounds) next in_use h =
    let after : following next ≤ i32_max = ground arith in
    ground (arith, after, allocate_in-bounded rounds (following next) in_use after)

-- The allocator never leaves the non-negative `i32` values.
pub allocate-bounded :
    (next count : ℕ) (in_use : ℕ → Bool) → next ≤ i32_max → (allocate next count in_use).0 ≤ i32_max
unfolding allocate
allocate-bounded next count in_use h = allocate_in-bounded (suc count) next in_use h
