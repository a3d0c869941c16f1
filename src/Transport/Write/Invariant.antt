-- ===== src/Transport/Write/Invariant.antt =====
-- What holds of the ordered writer between two calls.
use kafka_driver.Base.{
  ℕ, ◌+◌, ◌≤◌, ◌<◌, ◌≡◌, refl, false, List, [], ◌∷◌, ◌++◌, length, length-append, any, All,
  Distinct, Distinct-snoc, ◌==◌, usize_max, arith, ◌⊎◌, inl, inr,
}
use kafka_driver.Core.Identity.{CallId, EffectId}
use kafka_driver.Transport.Write.{
  QueuedWrite, WriteQueue, admit, enqueue, length_prefix_bytes, Admission, advance_in, advance,
  discard_all, accepted, refused,
}

-- Original bytes of all frames.
abbrev pub total_bytes : List QueuedWrite → ℕ
total_bytes [] = 0
total_bytes (w ∷ ws) = length w.frame + total_bytes ws

abbrev pub Untouched : List QueuedWrite → Type 0
Untouched = All (λ w. (w.written ≡ 0) × (0 < length w.frame))

-- Only the front frame is partly written, and never all of it.
abbrev pub FrontOnly : List QueuedWrite → Type 0
FrontOnly [] = Unit
FrontOnly (w ∷ ws) = (w.written < length w.frame) × Untouched ws

pub record IsValid (q : WriteQueue) : Type 0 where
  pub accounted : q.buffered_bytes ≡ total_bytes q.frames
  pub within_bytes : q.buffered_bytes ≤ q.limits.max_buffered_bytes
  pub within_frames : length q.frames ≤ q.limits.max_queued_frames
  pub front_only : FrontOnly q.frames
  pub distinct_calls : Distinct (λ w. w.call_id) q.frames
  pub distinct_effects : Distinct (λ w. w.effect_id) q.frames

pub total_bytes-append :
    (xs ys : List QueuedWrite) → total_bytes (xs ++ ys) ≡ total_bytes xs + total_bytes ys
total_bytes-append [] ys = omega arith
total_bytes-append (x ∷ xs) ys = omega (arith, total_bytes-append xs ys)

Untouched-snoc :
    (xs : List QueuedWrite) (w : QueuedWrite)
    → Untouched xs
    → w.written ≡ 0
    → 0 < length w.frame
    → Untouched (xs ++ w ∷ [])
Untouched-snoc [] w u e h = ((e, h), tt)
Untouched-snoc (x ∷ xs) w u e h = (u.0, Untouched-snoc xs w u.1 e h)

FrontOnly-snoc :
    (xs : List QueuedWrite) (w : QueuedWrite)
    → FrontOnly xs
    → w.written ≡ 0
    → 0 < length w.frame
    → FrontOnly (xs ++ w ∷ [])
FrontOnly-snoc [] w u e h = (omega arith, tt)
FrontOnly-snoc (x ∷ xs) w u e h = (u.0, Untouched-snoc xs w u.1 e h)

enqueue-IsValid :
    (q : WriteQueue) (call_id : CallId) (effect_id : EffectId) (frame : List ℕ)
    → any (λ w. w.call_id == call_id) q.frames ≡ false
    → any (λ w. w.effect_id == effect_id) q.frames ≡ false
    → length_prefix_bytes ≤ length frame
    → length q.frames < q.limits.max_queued_frames
    → q.buffered_bytes + length frame ≤ q.limits.max_buffered_bytes
    → IsValid q
    → IsValid (enqueue q call_id effect_id frame (q.buffered_bytes + length frame)).0
unfolding enqueue
enqueue-IsValid q call_id effect_id frame free_call free_effect long room bytes v = record {
  accounted = omega (arith, total_bytes-append q.frames (w ∷ []), v.accounted);
  within_bytes = bytes;
  within_frames = omega (arith, length-append q.frames (w ∷ []));
  front_only = FrontOnly-snoc q.frames w v.front_only refl (omega arith);
  distinct_calls = Distinct-snoc _ q.frames w free_call v.distinct_calls;
  distinct_effects = Distinct-snoc _ q.frames w free_effect v.distinct_effects;
}
  where
    w : QueuedWrite
    w = record { call_id = call_id; effect_id = effect_id; frame = frame; written = 0 }

-- The conditions under which a frame is taken.
pub record Admissible (q : WriteQueue) (c : CallId) (e : EffectId) (frame : List ℕ) : Type 0 where
  pub long : length_prefix_bytes ≤ length frame
  pub free_call : any (λ w. w.call_id == c) q.frames ≡ false
  pub free_effect : any (λ w. w.effect_id == e) q.frames ≡ false
  pub room : length q.frames < q.limits.max_queued_frames
  pub bytes : q.buffered_bytes + length frame ≤ q.limits.max_buffered_bytes
  pub representable : q.buffered_bytes + length frame ≤ usize_max

-- The frame comes back as it was given.
abbrev pub Returns : List ℕ → Admission → Type 0
Returns frame (accepted a) = ⊥
Returns frame (refused e) = e.rejected ≡ frame

-- Either the frame is admissible and joins the end, or the queue is as before and the caller has
-- its frame back.
pub admit_cases :
    (q : WriteQueue) (c : CallId) (e : EffectId) (frame : List ℕ)
    → (Admissible q c e frame
        × (admit q c e frame ≡ enqueue q c e frame (q.buffered_bytes + length frame)))
      ⊎ ((Admissible q c e frame → ⊥)
          × ((admit q c e frame).0 ≡ q)
          × Returns frame (admit q c e frame).1)
unfolding admit
admit_cases q c e frame = ground arith

pub admit-IsValid :
    (q : WriteQueue) (c : CallId) (e : EffectId) (frame : List ℕ)
    → IsValid q
    → IsValid (admit q c e frame).0
admit-IsValid q c e frame v = elim (admit_cases q c e frame) [
  | inl (a, same) ↦
      rw same (enqueue-IsValid q c e frame a.free_call a.free_effect a.long a.room a.bytes v)
  | inr (_, same, _) ↦ rw same v
]

advance_in-IsValid :
    (q : WriteQueue) (ws : List QueuedWrite) (e : EffectId) (n : ℕ)
    → q.frames ≡ ws
    → IsValid q
    → IsValid (advance_in q ws e n).0
unfolding advance_in
advance_in-IsValid q [] e n same v = v
advance_in-IsValid q (w ∷ []) e n same v = ground arith
advance_in-IsValid q (w ∷ x ∷ ws) e n same v = ground arith

pub advance-IsValid :
    (q : WriteQueue) (e : EffectId) (n : ℕ) → IsValid q → IsValid (advance q e n).0
unfolding advance
advance-IsValid q e n v = advance_in-IsValid q q.frames e n refl v

pub discard_all-IsValid : (q : WriteQueue) → IsValid q → IsValid (discard_all q).0
unfolding discard_all
discard_all-IsValid q v = omega arith
