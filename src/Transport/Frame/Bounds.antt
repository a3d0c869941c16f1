-- ===== src/Transport/Frame/Bounds.antt =====
-- The bounds that the decoder keeps, and its terminal fault.
use kafka_driver.Base.{
  ℕ, length, ◌≤◌, ◌≡◌, List, i32_max, ◌⊎◌, arith, length-append, ◌+◌, ◌∷◌, true, length-drop, inl,
  [], length-take, inr, take, false, subst, sym, refl, drop, ◌<◌, ap, ◌++◌, suc, ◌∙◌,
  take-append-drop,
}
use kafka_driver.Transport.Frame.{
  FrameDecoder, FrameLimits, LimitsResult, new_limits, feed, next_frame, limits, invalid,
  length_prefix_bytes, body_of, prefix_in, new, Decoded, be_bits, frame, not_fed, fault,
  decoder_failed, more, FrameDecodeError, buffer_capacity_exceeded, negative_frame_length,
  frame_too_large,
}

-- Limits that `new_limits` may return.
pub record Sound (l : FrameLimits) : Type 0 where
  pub within_protocol : l.max_frame_bytes ≤ i32_max
  pub holds_frame : length_prefix_bytes + l.max_frame_bytes ≤ l.max_buffered_bytes

abbrev pub Refuses : LimitsResult → Type 0
Refuses (limits l) = ⊥
Refuses (invalid e) = Unit {0}

abbrev pub asked : ℕ → ℕ → FrameLimits
asked max_frame max_buffered = record {
  max_frame_bytes = max_frame;
  max_buffered_bytes = max_buffered;
}

-- Limits are accepted, as given, exactly when a frame fits the signed length word and the buffer.
pub new_limits_cases :
    (max_frame max_buffered : ℕ)
    → (Sound (asked max_frame max_buffered)
        × (new_limits max_frame max_buffered ≡ limits (asked max_frame max_buffered)))
      ⊎ ((Sound (asked max_frame max_buffered) → ⊥) × Refuses (new_limits max_frame max_buffered))
unfolding new_limits
new_limits_cases max_frame max_buffered = ground arith

-- The buffer stays within its bound.
pub record Bounded (d : FrameDecoder) : Type 0 where
  pub within : length d.buffered ≤ d.decoder_limits.max_buffered_bytes

feed-Bounded : (d : FrameDecoder) (input : List ℕ) → Bounded d → Bounded (feed d input).0
unfolding feed
feed-Bounded d input b = ground (arith, length-append d.buffered input)

body_of-Bounded : (d : FrameDecoder) (bits : ℕ) → Bounded d → Bounded (body_of d bits).0
unfolding body_of
body_of-Bounded d bits b = ground (arith, length-drop (length_prefix_bytes + bits) d.buffered)

prefix_in-Bounded : (d : FrameDecoder) (xs : List ℕ) → Bounded d → Bounded (prefix_in d xs).0
unfolding prefix_in
prefix_in-Bounded d (a ∷ b ∷ c ∷ e ∷ rest) v = body_of-Bounded d (be_bits a b c e) v
prefix_in-Bounded d _ v = v

next_frame-Bounded : (d : FrameDecoder) → Bounded d → Bounded (next_frame d).0
unfolding next_frame
next_frame-Bounded d b = ground (arith, prefix_in-Bounded d d.buffered b)

-- A call of the connection that owns the decoder.
pub data Call : Type 0 where
  feeds : List ℕ → Call
  decodes : Call

abbrev pub step : FrameDecoder → Call → FrameDecoder
step d (feeds input) = (feed d input).0
step d decodes = (next_frame d).0

abbrev pub run : FrameDecoder → List Call → FrameDecoder
run d [] = d
run d (c ∷ cs) = run (step d c) cs

step-Bounded : (d : FrameDecoder) (c : Call) → Bounded d → Bounded (step d c)
step-Bounded d (feeds input) b = feed-Bounded d input b
step-Bounded d decodes b = next_frame-Bounded d b

run-Bounded : (d : FrameDecoder) (cs : List Call) → Bounded d → Bounded (run d cs)
run-Bounded d [] b = b
run-Bounded d (c ∷ cs) b = run-Bounded (step d c) cs (step-Bounded d c b)

-- Whatever is fed to a new decoder, and in whatever pieces, it retains at most
-- `max_buffered_bytes`.
pub run-new-Bounded : (l : FrameLimits) (cs : List Call) → Bounded (run (new l) cs)
unfolding new
run-new-Bounded l cs = run-Bounded (new l) cs (omega arith)

pub drop_prefix :
    (a b c e n : ℕ) (xs : List ℕ) → drop (length_prefix_bytes + n) (a ∷ b ∷ c ∷ e ∷ xs) ≡ drop n xs
drop_prefix a b c e n xs =
    let same : length_prefix_bytes + n ≡ suc (suc (suc (suc n))) = omega arith in rw same

pub take_prefix :
    (a b c e n : ℕ) (xs : List ℕ)
    → drop length_prefix_bytes (take (length_prefix_bytes + n) (a ∷ b ∷ c ∷ e ∷ xs)) ≡ take n xs
take_prefix a b c e n xs =
    let same : length_prefix_bytes + n ≡ suc (suc (suc (suc n))) = omega arith in rw same

pub next_frame_cases :
    (d : FrameDecoder)
    → ((d.failed ≡ true) × (next_frame d ≡ (d, fault decoder_failed)))
      ⊎ ((d.failed ≡ false) × (next_frame d ≡ prefix_in d d.buffered))
unfolding next_frame
next_frame_cases d = ground arith

-- The buffer starts with a length prefix of the given value.
abbrev pub Prefixed : List ℕ → (bits : ℕ) → Type 0
Prefixed buffer bits =
    (a : ℕ) × (b : ℕ) × (c : ℕ) × (e : ℕ) × (rest : List ℕ) × (buffer ≡ a ∷ b ∷ c ∷ e ∷ rest)
    × (be_bits a b c e ≡ bits)

-- The reason of a fault.
abbrev pub Justified : FrameDecoder → FrameDecodeError → Type 0
Justified d decoder_failed = d.failed ≡ true
Justified d (buffer_capacity_exceeded held incoming limit) = ⊥
Justified d (negative_frame_length bits) = Prefixed d.buffered bits × (i32_max < bits)
Justified d (frame_too_large bits limit) =
    Prefixed d.buffered bits
    × (bits ≤ i32_max)
    × (limit ≡ d.decoder_limits.max_frame_bytes)
    × (limit < bits)

-- The buffer ends inside of the prefix, or inside of a body that the limit admits.
abbrev pub Waits : FrameDecoder → Type 0
Waits d =
    (length d.buffered < length_prefix_bytes)
    ⊎ ((bits : ℕ) × Prefixed d.buffered bits
        × (bits ≤ d.decoder_limits.max_frame_bytes)
        × (length d.buffered < length_prefix_bytes + bits))

-- The buffer is a prefix, the body that it announces, and what is left.
abbrev pub Splits : List ℕ → (body left : List ℕ) → Type 0
Splits buffer body left =
    (a : ℕ) × (b : ℕ) × (c : ℕ) × (e : ℕ) × (buffer ≡ a ∷ b ∷ c ∷ e ∷ body ++ left)
    × (be_bits a b c e ≡ length body)

-- What a call of `next_frame` does, for each of its results.
abbrev pub Takes : FrameDecoder → FrameDecoder × Decoded → Type 0
Takes d (d', frame body) =
    Splits d.buffered body d'.buffered
    × (length body ≤ d.decoder_limits.max_frame_bytes)
    × (d' ≡ record d { buffered = d'.buffered })
Takes d (d', more) = (d' ≡ d) × (d.failed ≡ false) × Waits d
Takes d (d', fault e) = (d' ≡ record d { failed = true }) × Justified d e

body_of_cases :
    (d : FrameDecoder) (bits : ℕ)
    → let limit = d.decoder_limits.max_frame_bytes in
      let total = length_prefix_bytes + bits in
      ((i32_max < bits)
        × (body_of d bits ≡ (record d { failed = true }, fault (negative_frame_length bits))))
      ⊎ (((bits ≤ i32_max)
            × (limit < bits)
            × (body_of d bits ≡ (record d { failed = true }, fault (frame_too_large bits limit))))
          ⊎ (((bits ≤ limit) × (length d.buffered < total) × (body_of d bits ≡ (d, more)))
              ⊎ ((bits ≤ limit)
                  × (total ≤ length d.buffered)
                  × (body_of d bits ≡ (
                    record d { buffered = drop total d.buffered },
                    frame (drop length_prefix_bytes (take total d.buffered)),
                  )))))
unfolding body_of
body_of_cases d bits = ground arith

body_of-Takes :
    (d : FrameDecoder) (a b c e : ℕ) (rest : List ℕ)
    → d.failed ≡ false
    → d.buffered ≡ a ∷ b ∷ c ∷ e ∷ rest
    → Takes d (body_of d (be_bits a b c e))
body_of-Takes d a b c e rest alive same = elim (body_of_cases d bits) [
  | inl (negative, r) ↦ subst (Takes d) (sym r) (refl, (announced, negative))
  | inr (inl (small, large, r)) ↦ subst (Takes d) (sym r) (refl, (announced, small, refl, large))
  | inr (inr (inl (fits, short, r))) ↦
      subst (Takes d) (sym r) (refl, alive, inr (bits, announced, fits, short))
  | inr (inr (inr (fits, whole, r))) ↦
      let total = length_prefix_bytes + bits in
      let held : bits ≤ length rest = omega (arith, whole, ap length same) in
      let left : drop total d.buffered ≡ drop bits rest =
        ap (drop total) same ∙ drop_prefix a b c e bits rest in
      let body : drop length_prefix_bytes (take total d.buffered) ≡ take bits rest =
        ap (λ xs. drop length_prefix_bytes (take total xs)) same ∙ take_prefix a b c e bits rest in
      let size : length (take bits rest) ≡ bits = omega (arith, length-take bits rest, held) in
      let split : d.buffered ≡ a ∷ b ∷ c ∷ e ∷ take bits rest ++ drop bits rest =
        same ∙ ap (λ xs. a ∷ b ∷ c ∷ e ∷ xs) (sym (take-append-drop bits rest)) in
      subst (Takes d) (sym r)
        (rw (left, body) ((a, b, c, e, split, sym size), omega (arith, size, fits), refl))
]
  where
    bits : ℕ
    bits = be_bits a b c e

    announced : Prefixed d.buffered bits
    announced = (a, b, c, e, rest, same, refl)

prefix_in-Takes :
    (d : FrameDecoder) (xs : List ℕ) → d.failed ≡ false → d.buffered ≡ xs → Takes d (prefix_in d xs)
unfolding prefix_in
prefix_in-Takes d (a ∷ b ∷ c ∷ e ∷ rest) alive same = body_of-Takes d a b c e rest alive same
prefix_in-Takes d (a ∷ b ∷ c ∷ []) alive same = (refl, alive, inl (omega (arith, ap length same)))
prefix_in-Takes d (a ∷ b ∷ []) alive same = (refl, alive, inl (omega (arith, ap length same)))
prefix_in-Takes d (a ∷ []) alive same = (refl, alive, inl (omega (arith, ap length same)))
prefix_in-Takes d [] alive same = (refl, alive, inl (omega (arith, ap length same)))

-- A returned body is within the frame bound, and the buffer was its prefix, the body and what is kept; a
-- call that needs more bytes changes nothing, and the buffer ends inside of a prefix or of a body that
-- the bound admits; a fault only marks the decoder, and was marked before or is due to a prefix that is
-- negative or above the bound.
pub next_frame-Takes : (d : FrameDecoder) → Takes d (next_frame d)
next_frame-Takes d = elim (next_frame_cases d) [
  | inl (bad, e) ↦ subst (Takes d) (sym e) (ap (λ b. record d { failed = b }) bad, bad)
  | inr (alive, e) ↦ subst (Takes d) (sym e) (prefix_in-Takes d d.buffered alive refl)
]

step_failed : (d : FrameDecoder) (c : Call) → d.failed ≡ true → step d c ≡ d
unfolding feed next_frame
step_failed d (feeds xs) bad = ground arith
step_failed d decodes bad = ground arith

-- A marked decoder stays as it is: it takes no more bytes and returns no more bodies.
pub failed_absorbs :
    (d : FrameDecoder) (cs : List Call) (input : List ℕ)
    → d.failed ≡ true
    → (run d cs ≡ d)
      × (feed d input ≡ (d, not_fed decoder_failed))
      × (next_frame d ≡ (d, fault decoder_failed))
unfolding feed next_frame
failed_absorbs d [] input bad = (refl, ground arith, ground arith)
failed_absorbs d (c ∷ cs) input bad = rw (step_failed d c bad) (failed_absorbs d cs input bad)
