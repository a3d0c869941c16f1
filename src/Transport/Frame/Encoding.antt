-- ===== src/Transport/Frame/Encoding.antt =====
-- A frame is its length as a big-endian signed word, then its body: its decoding, whole or in part.
use kafka_driver.Base.{
  ℕ, List, ◌≤◌, length, ◌∷◌, i32_max, ◌/◌, ◌++◌, ◌%◌, [], ◌≡◌, arith, ◌<◌, All, ap, subst, refl,
  length-append, sym, ◌+◌, drop-length, take-length,
}
use kafka_driver.Transport.Frame.Bounds.{drop_prefix, take_prefix}
use kafka_driver.Transport.Frame.{
  FrameDecoder, be_bits, frame, more, body_of, prefix_in, length_prefix_bytes,
}

abbrev pub encode : List ℕ → List ℕ
encode body =
    let n = length body in n / 16777216 % 256 ∷ n / 65536 % 256 ∷ n / 256 % 256 ∷ n % 256 ∷ body

abbrev pub encode_all : List (List ℕ) → List ℕ
encode_all [] = []
encode_all (b ∷ bs) = encode b ++ encode_all bs

be_bits_bytes :
    (n : ℕ)
    → n ≤ i32_max
    → be_bits (n / 16777216 % 256) (n / 65536 % 256) (n / 256 % 256) (n % 256) ≡ n
be_bits_bytes n h = omega arith

-- Bodies of at most `largest` bytes.
abbrev pub Fit : (largest : ℕ) → List (List ℕ) → Type 0
Fit largest = All (λ b. length b ≤ largest)

-- The buffer does not reach the end of the next frame.
abbrev pub Short : List ℕ → List (List ℕ) → Type 0
Short buffer [] = Unit
Short buffer (b ∷ bs) = length buffer < length (encode b)

body_of_whole :
    (d : FrameDecoder) (a b c e : ℕ) (body rest : List ℕ)
    → d.decoder_limits.max_frame_bytes ≤ i32_max
    → length body ≤ d.decoder_limits.max_frame_bytes
    → d.buffered ≡ a ∷ b ∷ c ∷ e ∷ body ++ rest
    → body_of d (length body) ≡ (record d { buffered = rest }, frame body)
unfolding body_of
body_of_whole d a b c e body rest small fits same = ground (
  arith,
  ap length same,
  length-append body rest,
  drop_prefix a b c e (length body) (body ++ rest),
  take_prefix a b c e (length body) (body ++ rest),
  drop-length body rest,
  take-length body rest,
)

-- With the first frame whole in the buffer, its body comes out and the rest stays.
pub whole_frame :
    (d : FrameDecoder) (body rest : List ℕ)
    → d.decoder_limits.max_frame_bytes ≤ i32_max
    → length body ≤ d.decoder_limits.max_frame_bytes
    → d.buffered ≡ encode body ++ rest
    → prefix_in d d.buffered ≡ (record d { buffered = rest }, frame body)
unfolding prefix_in
whole_frame d body rest small fits e =
    subst (λ xs. prefix_in d xs ≡ (record d { buffered = rest }, frame body)) (sym e)
      (rw (be_bits_bytes (length body) (omega arith))
        (body_of_whole d _ _ _ _ body rest small fits e))

body_of_part :
    (d : FrameDecoder) (bits n : ℕ)
    → bits ≡ n
    → d.decoder_limits.max_frame_bytes ≤ i32_max
    → n ≤ d.decoder_limits.max_frame_bytes
    → length d.buffered < length_prefix_bytes + n
    → body_of d bits ≡ (d, more)
unfolding body_of
body_of_part d bits n same small fits short = ground arith

-- With less than the first frame in the buffer, nothing happens.
pub part_frame :
    (d : FrameDecoder) (xs body tail later : List ℕ)
    → d.decoder_limits.max_frame_bytes ≤ i32_max
    → length body ≤ d.decoder_limits.max_frame_bytes
    → xs ++ tail ≡ encode body ++ later
    → length d.buffered < length (encode body)
    → prefix_in d xs ≡ (d, more)
unfolding prefix_in
part_frame d (a ∷ b ∷ c ∷ e ∷ r) body tail later small fits same short =
    body_of_part d (be_bits a b c e) (length body)
      (cc (same, be_bits_bytes (length body) (omega arith))) small fits (omega arith)
part_frame d (a ∷ b ∷ c ∷ []) body tail later small fits same short = refl
part_frame d (a ∷ b ∷ []) body tail later small fits same short = refl
part_frame d (a ∷ []) body tail later small fits same short = refl
part_frame d [] body tail later small fits same short = refl
