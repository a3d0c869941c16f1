-- ===== src/Transport/Write.antt =====
-- The ordered writer: crates/kafka-driver-transport/src/write. A frame is the list of its bytes,
-- and a queue the list of its frames, front first.
pub mod Invariant
pub mod Stream
use kafka_driver.Base.{
  ℕ, suc, ◌+◌, ◌-◌, ◌≤◌, ◌<◌, Bool, true, false, Option, none, some, List, [], ◌∷◌, ◌++◌, length,
  take, drop, any, ltb, leb, ◌==◌, ◌!=◌, if◌then◌else◌, checked_add, usize_max,
}
use Prim.Native.Nat.{min}
use kafka_driver.Core.Identity.{CallId, EffectId, Delivery, not_sent, possibly_sent}

pub record WriteQueueLimits : Type 0 where
  pub max_queued_frames : ℕ
  pub max_buffered_bytes : ℕ

pub record QueuedWrite : Type 0 where
  pub call_id : CallId
  pub effect_id : EffectId
  pub frame : List ℕ
  pub written : ℕ

pub record WriteQueue : Type 0 where
  pub limits : WriteQueueLimits
  pub frames : List QueuedWrite
  pub buffered_bytes : ℕ

abbrev pub length_prefix_bytes : ℕ
length_prefix_bytes = 4

pub data WriteIdentityKind : Type 0 where
  call effect : WriteIdentityKind

pub data WriteAdmissionFailure : Type 0 where
  frame_too_short : (bytes minimum : ℕ) → WriteAdmissionFailure
  identity_in_use : WriteIdentityKind → WriteAdmissionFailure
  frame_capacity_reached : (limit : ℕ) → WriteAdmissionFailure
  byte_capacity_reached : (buffered incoming limit : ℕ) → WriteAdmissionFailure

pub record WriteAdmissionError : Type 0 where
  pub failure : WriteAdmissionFailure
  pub rejected : List ℕ

pub record WriteAccepted : Type 0 where
  pub accepted_call : CallId
  pub accepted_effect : EffectId
  pub frame_bytes : ℕ

pub data Admission : Type 0 where
  accepted : WriteAccepted → Admission
  refused : WriteAdmissionError → Admission

unfoldable pub accepted_delivery : WriteAccepted → Delivery
accepted_delivery a = possibly_sent

unfoldable pub rejected_delivery : WriteAdmissionError → Delivery
rejected_delivery e = not_sent

unfoldable pub new : WriteQueueLimits → WriteQueue
new limits = record { limits = limits; frames = []; buffered_bytes = 0 }

reject : WriteQueue → WriteAdmissionFailure → List ℕ → WriteQueue × Admission
reject q why frame = (q, refused (record { failure = why; rejected = frame }))

unfoldable pub enqueue : WriteQueue → CallId → EffectId → List ℕ → ℕ → WriteQueue × Admission
enqueue q call_id effect_id frame total = (
  record q {
    frames =
        q.frames
        ++ record { call_id = call_id; effect_id = effect_id; frame = frame; written = 0 } ∷ [];
    buffered_bytes = total;
  },
  accepted
      (record { accepted_call = call_id; accepted_effect = effect_id; frame_bytes = length frame }),
)

-- The byte bound, after the guards on identities and on the count of frames.
admit_bytes : WriteQueue → CallId → EffectId → List ℕ → WriteQueue × Admission
unfolding reject enqueue
admit_bytes q call_id effect_id frame =
    elim (checked_add usize_max q.buffered_bytes (length frame)) [
      | none ↦ reject q (byte_capacity_reached q.buffered_bytes (length frame) limit) frame
      | some total ↦
          if ltb limit total
          then reject q (byte_capacity_reached q.buffered_bytes (length frame) limit) frame
          else enqueue q call_id effect_id frame total
    ]
  where
    limit : ℕ
    limit = q.limits.max_buffered_bytes

unfoldable pub admit : WriteQueue → CallId → EffectId → List ℕ → WriteQueue × Admission
unfolding reject admit_bytes
admit q call_id effect_id frame =
    if ltb (length frame) length_prefix_bytes
    then reject q (frame_too_short (length frame) length_prefix_bytes) frame
    else if any (λ w. w.call_id == call_id) q.frames
    then reject q (identity_in_use WriteIdentityKind.call) frame
    else if any (λ w. w.effect_id == effect_id) q.frames
    then reject q (identity_in_use WriteIdentityKind.effect) frame
    else if leb q.limits.max_queued_frames (length q.frames)
    then reject q (frame_capacity_reached q.limits.max_queued_frames) frame
    else admit_bytes q call_id effect_id frame

pub record WriteSlice : Type 0 where
  pub slice_call : CallId
  pub slice_effect : EffectId
  pub bytes : List ℕ

slice_of : List QueuedWrite → ℕ → Option WriteSlice
slice_of [] max_bytes = none
slice_of (w ∷ ws) max_bytes =
    let remaining = drop w.written w.frame in
    some (record {
      slice_call = w.call_id;
      slice_effect = w.effect_id;
      bytes = take (min (length remaining) max_bytes) remaining;
    })

unfoldable pub front : WriteQueue → ℕ → Option WriteSlice
unfolding slice_of
front q max_bytes = slice_of q.frames max_bytes

pub data WriteProgress : Type 0 where
  pending : CallId → EffectId → (remaining : ℕ) → WriteProgress
  complete : CallId → EffectId → (bytes : ℕ) → WriteProgress

pub data WriteProgressError : Type 0 where
  no_pending_write : WriteProgressError
  out_of_order_effect : (expected received : EffectId) → WriteProgressError
  exceeds_remaining : (written remaining : ℕ) → WriteProgressError

pub data Progress : Type 0 where
  advanced : WriteProgress → Progress
  fault : WriteProgressError → Progress

-- The front entry and the entries behind it.
advance_front : WriteQueue → QueuedWrite → List QueuedWrite → EffectId → ℕ → WriteQueue × Progress
advance_front q w ws effect_id written =
    let remaining = length w.frame - w.written in
    let total = w.written + written in
    if w.effect_id != effect_id
    then (q, fault (out_of_order_effect w.effect_id effect_id))
    else if ltb remaining written
    then (q, fault (exceeds_remaining written remaining))
    else if ltb total (length w.frame)
    then (
      record q { frames = record w { written = total } ∷ ws },
      advanced (pending w.call_id effect_id (length w.frame - total)),
    )
    else (
      record q { frames = ws; buffered_bytes = q.buffered_bytes - length w.frame },
      advanced (complete w.call_id effect_id (length w.frame)),
    )

advance_in : WriteQueue → List QueuedWrite → EffectId → ℕ → WriteQueue × Progress
unfolding advance_front
advance_in q [] effect_id written = (q, fault no_pending_write)
advance_in q (w ∷ ws) effect_id written = advance_front q w ws effect_id written

unfoldable pub advance : WriteQueue → EffectId → ℕ → WriteQueue × Progress
unfolding advance_in
advance q effect_id written = advance_in q q.frames effect_id written

pub record DiscardedWrites : Type 0 where
  pub discarded_frames : ℕ
  pub discarded_bytes : ℕ

unfoldable pub discard_all : WriteQueue → WriteQueue × DiscardedWrites
discard_all q = (
  record q { frames = []; buffered_bytes = 0 },
  record { discarded_frames = length q.frames; discarded_bytes = q.buffered_bytes },
)
