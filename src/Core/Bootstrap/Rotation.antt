-- ===== src/Core/Bootstrap/Rotation.antt =====
-- The order of the cursor: bootstrap/cursor.rs.
use kafka_driver.Base.{
  ℕ, List, ◌+◌, ◌<◌, [], ◌≡◌, length, suc, some, ◌≤◌, drop, none, take, ◌++◌, ◌∷◌, get_elem-drop,
  zero, arith, ap, refl, drop_all, ◌-◌, ◌∙◌,
}
use native.Mathlib.Nat.{mod-eq_of_lt, mod_self}
use kafka_driver.Core.Bootstrap.{BootstrapSet, selected, advance, ℕ, BrokerEndpoint}

-- The endpoints that so many selections give.
abbrev pub visits : BootstrapSet → ℕ → ℕ → List BrokerEndpoint
visits s c zero = []
visits s c (suc k) = elim (selected c s) [ none ↦ [] | some x ↦ x ∷ visits s (advance c s) k ]

pub visits_next :
    (s : BootstrapSet) (c k : ℕ) (x : BrokerEndpoint)
    → selected c s ≡ some x
    → visits s c (suc k) ≡ x ∷ visits s (advance c s) k
visits_next s c k x h = rw (visits, h) refl

advance_within : (s : BootstrapSet) (c : ℕ) → suc c < length s → advance c s ≡ suc c
advance_within s c h = let e : c + 1 ≡ suc c = omega arith in rw e (mod-eq_of_lt h)

advance_wraps : (s : BootstrapSet) (c : ℕ) → suc c ≡ length s → advance c s ≡ 0
advance_wraps s c h = let e : c + 1 ≡ length s = omega arith in rw e (mod_self (length s))

-- Up to the end of the set.
visits-take :
    (s : BootstrapSet) (c k : ℕ)
    → c < length s
    → c + k ≤ length s
    → visits s c k ≡ take k (drop c s)
visits-take s c zero h fits = refl
visits-take s c (suc zero) h fits =
    let (x, (at_c, rest)) = get_elem-drop s c h in rw (visits_next s c 0 x at_c, rest) refl
visits-take s c (suc (suc k)) h fits =
    let (x, (at_c, rest)) = get_elem-drop s c h in
    let next = advance_within s c (omega arith) in
    let later = visits-take s (suc c) (suc k) (omega arith) (omega arith) in
    rw (visits_next s c (suc k) x at_c, rest, next) (ap (◌∷◌ x) later)

-- Through the end of the set, which is `d` entries further, and `j` entries on from its start.
visits_on :
    (s : BootstrapSet) (d c j k : ℕ)
    → c + suc d ≡ length s
    → k ≡ d + j
    → j ≤ length s
    → visits s c (suc k) ≡ drop c s ++ take j s
visits_on s zero c j k ends count fits =
    let (x, (at_c, rest)) = get_elem-drop s c (omega arith) in
    let wraps = advance_wraps s c (omega arith) in
    let nothing_left = drop_all (suc c) s (omega arith) in
    let again : k ≡ j = omega arith in
    let from_start = ap (visits s 0) again ∙ visits-take s 0 j (omega arith) (omega arith) in
    rw (visits_next s c k x at_c, rest, wraps, nothing_left) (ap (◌∷◌ x) from_start)
visits_on s (suc d) c j zero ends count fits = absurd (omega arith)
visits_on s (suc d) c j (suc k) ends count fits =
    let (x, (at_c, rest)) = get_elem-drop s c (omega arith) in
    let next = advance_within s c (omega arith) in
    let later = visits_on s d (suc c) j k (omega arith) (omega arith) fits in
    rw (visits_next s c (suc k) x at_c, rest, next) (ap (◌∷◌ x) later)

-- As many selections as there are endpoints give each endpoint in its place.
pub visits_all :
    (s : BootstrapSet) (c k : ℕ)
    → c < length s
    → suc k ≡ length s
    → visits s c (suc k) ≡ drop c s ++ take c s
visits_all s c k h size = visits_on s (k - c) c c k (omega arith) (omega arith) (omega arith)
