-- ===== src/Core/Capability/Search.antt =====
-- Admission and lookup of the negotiated APIs: capability/set.rs.
use kafka_driver.Base.{
  if◌then◌else◌, nat_ord, Option, List, ℕ, some, ◌≡◌, length, [], ◌++◌, ◌<◌, none, ◌≤◌, arith,
  find?, ◌∷◌, ◌⊎◌, append-nil, ◌==◌, inl, inr, subst, Bool-cases, leb, append_assoc, refl,
  length-append,
}
use kafka_driver.Core.Canonical.Sorting.{Strict, Chain, Strict-Chain, Chain-Strict}
use kafka_driver.Core.Canonical.Lookup.{find_by-find}
use kafka_driver.Core.Capability.{
  NegotiatedApi, NegotiatedCapabilities, Capabilities, retained, refused, non_ascending,
  capacity_reached, try_from_iter, retain, last, descends, api, ApiKey,
}

abbrev Below : Option NegotiatedApi → NegotiatedApi → Type 0
Below none a = Unit
Below (some previous) a = previous.api_key < a.api_key

abbrev pub Ascends : List NegotiatedApi → Type 0
Ascends apis = Strict (λ a. a.api_key) apis

abbrev Climbs : List NegotiatedApi → Type 0
Climbs apis = Chain (λ a. a.api_key) apis

Climbs-snoc :
    (kept : List NegotiatedApi) (a : NegotiatedApi)
    → Climbs kept
    → Below (last kept) a
    → Climbs (kept ++ a ∷ [])
Climbs-snoc [] a c b = tt
Climbs-snoc (x ∷ []) a c b = (ground (arith, b), tt)
Climbs-snoc (x ∷ y ∷ ys) a c b = (c.0, Climbs-snoc (y ∷ ys) a c.1 b)

Climbs-split :
    (kept : List NegotiatedApi) (a : NegotiatedApi) (rest : List NegotiatedApi)
    → Climbs (kept ++ a ∷ rest)
    → Below (last kept) a
Climbs-split [] a rest c = tt
Climbs-split (x ∷ []) a rest c = ground (arith, c)
Climbs-split (x ∷ y ∷ ys) a rest c = Climbs-split (y ∷ ys) a rest c.1

descends-cases :
    (before : Option NegotiatedApi) (a : NegotiatedApi)
    → ((descends before a ≡ none) × Below before a)
      ⊎ ((p : NegotiatedApi) × (descends before a ≡ some p) × ¬ Below before a)
unfolding descends
descends-cases none a = inl (refl, tt)
descends-cases (some p) a = elim (Bool-cases (leb a.api_key p.api_key)) [
  | inl le ↦ inr (p, rw le refl, λ b. ground (arith, b, le))
  | inr less ↦ inl (rw less refl, ground (arith, less))
]

-- All of the candidates are kept where they ascend strictly and fit; otherwise they are refused.
abbrev pub RetainedOrNot : ℕ → List NegotiatedApi → Capabilities → Type 0
RetainedOrNot limit apis (retained c) = (c.apis ≡ apis) × (Ascends apis × (length apis ≤ limit))
RetainedOrNot limit apis (refused _) = ¬ (Ascends apis × (length apis ≤ limit))

retain_down :
    (limit : ℕ) (kept rest : List NegotiatedApi) (a p : NegotiatedApi)
    → descends (last kept) a ≡ some p
    → retain limit kept (a ∷ rest) ≡ refused (non_ascending p a)
unfolding retain
retain_down limit kept rest a p h = ground (arith, h)

retain_up :
    (limit : ℕ) (kept rest : List NegotiatedApi) (a : NegotiatedApi)
    → descends (last kept) a ≡ none
    → retain limit kept (a ∷ rest) ≡ (
        if length kept == limit
        then refused (capacity_reached limit a)
        else retain limit (kept ++ a ∷ []) rest)
unfolding retain
retain_up limit kept rest a h = ground (arith, h)

retain_cases :
    (limit : ℕ) (kept rest : List NegotiatedApi)
    → Climbs kept
    → length kept ≤ limit
    → RetainedOrNot limit (kept ++ rest) (retain limit kept rest)
unfolding retain
retain_cases limit kept [] c short =
    rw (append-nil kept) (refl, (Strict-Chain (λ a. a.api_key) kept c, short))
retain_cases limit kept (a ∷ rest) c short = elim (descends-cases (last kept) a) [
  | inr (p, down, not_below) ↦ rw (retain_down limit kept rest a p down) (λ good.
      not_below
        (Climbs-split kept a rest (Chain-Strict (λ x. x.api_key) (kept ++ a ∷ rest) good.0)))
  | inl (up, below) ↦ elim (Bool-cases (length kept == limit)) [
    | inl full ↦
        rw (retain_up limit kept rest a up, full)
          (λ good. ground (arith, good.1, length-append kept (a ∷ rest), full))
    | inr room ↦
        let next =
          retain_cases limit (kept ++ a ∷ []) rest (Climbs-snoc kept a c below)
            (ground (arith, length-append kept (a ∷ []), room, short)) in
        rw (retain_up limit kept rest a up, room)
          (subst (λ xs. RetainedOrNot limit xs (retain limit (kept ++ a ∷ []) rest))
            (append_assoc kept (a ∷ []) rest) next)
  ]
]

-- A set of negotiated APIs is retained, as it was given, exactly where its keys ascend strictly and it
-- fits the capacity.
pub admission_cases :
    (apis : List NegotiatedApi) (capacity : ℕ)
    → RetainedOrNot capacity apis (try_from_iter apis capacity)
unfolding try_from_iter
admission_cases apis capacity = retain_cases capacity [] apis tt (omega arith)

-- In a retained set the binary search for a key finds what a linear search through the given APIs finds.
pub api_finds :
    (apis : List NegotiatedApi) (capacity : ℕ) (c : NegotiatedCapabilities) (key : ApiKey)
    → try_from_iter apis capacity ≡ retained c
    → api c key ≡ find? (λ a. a.api_key == key) apis
unfolding api
api_finds apis capacity c key h =
    let told = subst (RetainedOrNot capacity apis) h (admission_cases apis capacity) in
    rw told.0 (find_by-find (λ a. a.api_key) apis key told.1.0)
