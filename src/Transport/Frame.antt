-- ===== src/Transport/Frame.antt =====
-- The frame decoder: crates/kafka-driver-transport/src/frame. Bytes are numbers below 256.
pub mod Bounds
pub mod Encoding
pub mod Roundtrip
use kafka_driver.Base.{
  ◌∷◌, ◌++◌, ℕ, ◌+◌, ◌-◌, ◌*◌, Bool, true, false, Option, none, some, List, [], if◌then◌else◌, ltb,
  length, i32_max, checked_add, usize_max, drop, ◌++◌, take,
}

pub record FrameLimits : Type 0 where
  pub max_frame_bytes : ℕ
  pub max_buffered_bytes : ℕ

pub data FrameLimitsError : Type 0 where
  frame_exceeds_protocol_maximum : (requested maximum : ℕ) → FrameLimitsError
  buffer_cannot_hold_maximum_frame : (required configured : ℕ) → FrameLimitsError

pub data LimitsResult : Type 0 where
  limits : FrameLimits → LimitsResult
  invalid : FrameLimitsError → LimitsResult

abbrev pub length_prefix_bytes : ℕ
length_prefix_bytes = 4

-- `FrameLimits::new`; both arguments are nonzero `usize` values.
unfoldable pub new_limits : ℕ → ℕ → LimitsResult
new_limits max_frame max_buffered =
    if ltb i32_max max_frame
    then invalid (frame_exceeds_protocol_maximum max_frame i32_max)
    else elim (checked_add usize_max max_frame length_prefix_bytes) [
      | none ↦ invalid (frame_exceeds_protocol_maximum max_frame i32_max)
      | some required ↦
          if ltb max_buffered required
          then invalid (buffer_cannot_hold_maximum_frame required max_buffered)
          else limits (record { max_frame_bytes = max_frame; max_buffered_bytes = max_buffered })
    ]

-- `negative_frame_length n` reports the signed length `n - 2 ^ 32`.
pub data FrameDecodeError : Type 0 where
  decoder_failed : FrameDecodeError
  buffer_capacity_exceeded : (buffered incoming limit : ℕ) → FrameDecodeError
  negative_frame_length : (bits : ℕ) → FrameDecodeError
  frame_too_large : (length limit : ℕ) → FrameDecodeError

pub record FrameDecoder : Type 0 where
  pub decoder_limits : FrameLimits
  pub buffered : List ℕ
  pub failed : Bool

unfoldable pub new : FrameLimits → FrameDecoder
new l = record { decoder_limits = l; buffered = []; failed = false }

pub data Fed : Type 0 where
  fed : Fed
  not_fed : FrameDecodeError → Fed

-- `is_none_or` on the checked sum: both a sum that does not fit and one above the limit are refused.
exceeds : Option ℕ → ℕ → Bool
exceeds none limit = true
exceeds (some bytes) limit = ltb limit bytes

unfoldable pub feed : FrameDecoder → List ℕ → FrameDecoder × Fed
unfolding exceeds
feed d input =
    let held = length d.buffered in
    let limit = d.decoder_limits.max_buffered_bytes in
    if d.failed
    then (d, not_fed decoder_failed)
    else if exceeds (checked_add usize_max held (length input)) limit
    then (d, not_fed (buffer_capacity_exceeded held (length input) limit))
    else (record d { buffered = d.buffered ++ input }, fed)

pub data Decoded : Type 0 where
  more : Decoded
  frame : List ℕ → Decoded
  fault : FrameDecodeError → Decoded

-- The four bytes of `i32::from_be_bytes`, as the unsigned number with the same bits.
abbrev pub be_bits : ℕ → ℕ → ℕ → ℕ → ℕ
be_bits a b c d = a * 16777216 + b * 65536 + c * 256 + d

fail : FrameDecoder → FrameDecodeError → FrameDecoder × Decoded
fail d e = (record d { failed = true }, fault e)

-- The length word is negative where its top bit is set.
body_of : FrameDecoder → ℕ → FrameDecoder × Decoded
unfolding fail
body_of d bits =
    let total = length_prefix_bytes + bits in
    let limit = d.decoder_limits.max_frame_bytes in
    if ltb i32_max bits
    then fail d (negative_frame_length bits)
    else if ltb limit bits
    then fail d (frame_too_large bits limit)
    else if ltb (length d.buffered) total
    then (d, more)
    else (
      record d { buffered = drop total d.buffered },
      frame (drop length_prefix_bytes (take total d.buffered)),
    )

-- The length prefix, where the buffer holds one.
pub prefix_in : FrameDecoder → List ℕ → FrameDecoder × Decoded
unfolding body_of
prefix_in d (a ∷ b ∷ c ∷ e ∷ rest) = body_of d (be_bits a b c e)
prefix_in d _ = (d, more)

unfoldable pub next_frame : FrameDecoder → FrameDecoder × Decoded
unfolding prefix_in
next_frame d = if d.failed then (d, fault decoder_failed) else prefix_in d d.buffered

unfoldable pub buffered_bytes : FrameDecoder → ℕ
buffered_bytes d = length d.buffered
