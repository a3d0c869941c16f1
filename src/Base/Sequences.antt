-- ===== src/Base/Sequences.antt =====
-- Sequences of numbers that never go back, built one step at a time.
use Prim.Native.Nat.{ℕ, ◌≤◌}
use mathlib.Core.List.{List, [], ◌∷◌, ◌++◌}
use native.Mathlib.Omega.{arith}

-- Never going back, from a least value on.
abbrev pub NonDescending : ℕ → List ℕ → Type 0
NonDescending least [] = Unit
NonDescending least (x ∷ xs) = (least ≤ x) × NonDescending x xs

-- A step from one bound to another that gives nothing, or one number between the two.
abbrev pub Between : ℕ → List ℕ → ℕ → Type 0
Between least [] next = least ≤ next
Between least (x ∷ []) next = (least ≤ x) × (x ≤ next)
Between least (x ∷ y ∷ xs) next = ⊥

pub NonDescending-lower : (a b : ℕ) (xs : List ℕ) → a ≤ b → NonDescending b xs → NonDescending a xs
NonDescending-lower a b [] h n = tt
NonDescending-lower a b (x ∷ xs) h n = (omega (arith, n.0), n.1)

pub NonDescending-append :
    (least next : ℕ) (xs ys : List ℕ)
    → Between least xs next
    → NonDescending next ys
    → NonDescending least (xs ++ ys)
NonDescending-append least next [] ys h later = NonDescending-lower least next ys h later
NonDescending-append least next (x ∷ []) ys h later = (h.0, NonDescending-lower x next ys h.1 later)
NonDescending-append least next (x ∷ y ∷ xs) ys h later = absurd h

-- A step from one bound to another that gives any numbers between the two, in order.
abbrev pub Climbs : ℕ → List ℕ → ℕ → Type 0
Climbs least [] next = least ≤ next
Climbs least (x ∷ xs) next = (least ≤ x) × Climbs x xs next

pub Between-Climbs : (least next : ℕ) (xs : List ℕ) → Between least xs next → Climbs least xs next
Between-Climbs least next [] h = h
Between-Climbs least next (x ∷ []) h = h
Between-Climbs least next (x ∷ y ∷ xs) h = absurd h

pub Climbs-append :
    (least next : ℕ) (xs ys : List ℕ)
    → Climbs least xs next
    → NonDescending next ys
    → NonDescending least (xs ++ ys)
Climbs-append least next [] ys h later = NonDescending-lower least next ys h later
Climbs-append least next (x ∷ xs) ys h later = (h.0, Climbs-append x next xs ys h.1 later)
