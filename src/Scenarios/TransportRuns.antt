-- ===== src/Scenarios/TransportRuns.antt =====
-- The writer and the decoder on a few frames.
use kafka_driver.Base.{ℕ, List, [], ◌∷◌, ◌++◌, ◌≡◌, refl, arith, ◌⊎◌, flatten, length, ◌+◌, false}
use kafka_driver.Transport.Write
use kafka_driver.Transport.Write.{WriteQueue, WriteQueueLimits, admit, enqueue, discard_all}
use kafka_driver.Transport.Write.Invariant.{IsValid, Admissible, Returns, admit_cases}
use kafka_driver.Transport.Write.Stream
use kafka_driver.Transport.Write.Stream.{
  admits, advances, wire, intake, unwritten, wire_stream, writer-IsValid,
}
use kafka_driver.Transport.Frame
use kafka_driver.Transport.Frame.{
  FrameLimits, FrameDecoder, new_limits, limits, feed, next_frame, not_fed, fault, decoder_failed,
}
use kafka_driver.Transport.Frame.Bounds
use kafka_driver.Transport.Frame.Bounds.{
  Sound, Refuses, asked, Bounded, Takes, feeds, decodes, new_limits_cases, run-new-Bounded,
  next_frame-Takes, failed_absorbs,
}
use kafka_driver.Transport.Frame.Roundtrip.{deliver, deliver_roundtrip}

abbrev small_writer : WriteQueueLimits
small_writer = record { max_queued_frames = 2; max_buffered_bytes = 16 }

abbrev writer : WriteQueue
writer = record { limits = small_writer; frames = []; buffered_bytes = 0 }

abbrev history : List Stream.Call
history =
    admits 1 10 (0 ∷ 0 ∷ 0 ∷ 1 ∷ 9 ∷ [])
    ∷ admits 1 11 (0 ∷ 0 ∷ 0 ∷ 0 ∷ [])
    ∷ admits 2 12 (0 ∷ 0 ∷ 0 ∷ 0 ∷ [])
    ∷ advances 10 3
    ∷ advances 12 1
    ∷ advances 10 2
    ∷ advances 12 1
    ∷ []

-- The second call is refused for its identity, and progress out of order sends nothing.
history-wire : wire writer history ≡ 0 ∷ 0 ∷ 0 ∷ 1 ∷ 9 ∷ 0 ∷ []
unfolding Write.admit Write.advance Write.front
history-wire = refl

empty-IsValid : IsValid writer
empty-IsValid = ground arith

wire_stream_example :
    wire writer history ++ unwritten (Stream.run writer history).frames
    ≡ unwritten writer.frames ++ intake writer history
wire_stream_example = wire_stream writer history empty-IsValid

writer-IsValid_example :
    IsValid (Stream.run (Write.new small_writer) history)
    × IsValid (discard_all (Stream.run (Write.new small_writer) history)).0
writer-IsValid_example = writer-IsValid small_writer history

abbrev bytes : List ℕ
bytes = 0 ∷ 0 ∷ 0 ∷ 0 ∷ []

admit_cases_example :
    (Admissible writer 1 10 bytes
      × (admit writer 1 10 bytes
          ≡ enqueue writer 1 10 bytes (writer.buffered_bytes + length bytes)))
    ⊎ ((Admissible writer 1 10 bytes → ⊥)
        × ((admit writer 1 10 bytes).0 ≡ writer)
        × Returns bytes (admit writer 1 10 bytes).1)
admit_cases_example = admit_cases writer 1 10 bytes

abbrev small_limits : FrameLimits
small_limits = record { max_frame_bytes = 2; max_buffered_bytes = 9 }

abbrev two_bodies : List (List ℕ)
two_bodies = (7 ∷ 8 ∷ []) ∷ [] ∷ []

-- The frames of the two bodies, cut inside the first prefix and inside its body.
abbrev pieces : List (List ℕ)
pieces = (0 ∷ 0 ∷ []) ∷ (0 ∷ 2 ∷ 7 ∷ []) ∷ (8 ∷ 0 ∷ 0 ∷ 0 ∷ []) ∷ (0 ∷ []) ∷ []

-- Limits of the shape of the default ones, which hold one frame of the largest size.
abbrev tight_limits : FrameLimits
tight_limits = record { max_frame_bytes = 8; max_buffered_bytes = 12 }

tight-Sound : Sound tight_limits
tight-Sound = record { within_protocol = omega arith; holds_frame = omega arith }

deliver_roundtrip_example :
    ((deliver (Frame.new tight_limits) pieces).1 ≡ two_bodies)
    × ((deliver (Frame.new tight_limits) pieces).0.buffered ≡ [])
unfolding flatten
deliver_roundtrip_example =
    deliver_roundtrip tight_limits 2 pieces two_bodies tight-Sound (omega arith) (omega arith)
      (omega arith, (omega arith, tt))
      (omega arith, (omega arith, (omega arith, (omega arith, tt)))) refl

new_limits_cases_example :
    (Sound (asked 2 9) × (new_limits 2 9 ≡ limits (asked 2 9)))
    ⊎ ((Sound (asked 2 9) → ⊥) × Refuses (new_limits 2 9))
new_limits_cases_example = new_limits_cases 2 9

run-new-Bounded_example :
    Bounded (Bounds.run (Frame.new small_limits) (feeds (0 ∷ 0 ∷ []) ∷ decodes ∷ []))
run-new-Bounded_example = run-new-Bounded small_limits (feeds (0 ∷ 0 ∷ []) ∷ decodes ∷ [])

abbrev holding : FrameDecoder
holding = record {
  decoder_limits = small_limits;
  buffered = 0 ∷ 0 ∷ 0 ∷ 1 ∷ 5 ∷ 0 ∷ [];
  failed = false;
}

next_frame-Takes_example : Takes holding (next_frame holding)
next_frame-Takes_example = next_frame-Takes holding
