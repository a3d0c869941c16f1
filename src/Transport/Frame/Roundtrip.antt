-- ===== src/Transport/Frame/Roundtrip.antt =====
-- Decoding what a peer encoded, however it is cut into pieces.
use kafka_driver.Base.{
  ℕ, List, ◌≤◌, length, ◌∷◌, i32_max, ◌++◌, [], ◌≡◌, arith, ◌<◌, false, All, drop, suc, ap, subst,
  zero, refl, length-append, sym, ◌+◌, ◌∙◌, dec_lt, usize_max, append_split, length-drop,
  append-nil, flatten, append_assoc, All-append_right,
}
use kafka_driver.Transport.Frame.Bounds.{next_frame_cases, Sound}
use kafka_driver.Transport.Frame.{
  FrameDecoder, FrameLimits, next_frame, frame, more, prefix_in, Decoded, feed, fault, new,
}
use kafka_driver.Transport.Frame.Encoding.{encode, encode_all, Fit, Short, whole_frame, part_frame}

pub record Working (l : FrameLimits) (d : FrameDecoder) : Type 0 where
  pub limited : d.decoder_limits ≡ l
  pub alive : d.failed ≡ false

after :
    (FrameDecoder → FrameDecoder × List (List ℕ))
    → FrameDecoder × Decoded
    → FrameDecoder × List (List ℕ)
after next (d, more) = (d, [])
after next (d, fault e) = (d, [])
after next (d, frame body) = let (d', bodies) = next d in (d', body ∷ bodies)

-- Calls `next_frame` until it returns no body.
pub drain : ℕ → FrameDecoder → FrameDecoder × List (List ℕ)
unfolding after
drain zero d = (d, [])
drain (suc fuel) d = after (drain fuel) (next_frame d)

-- Feeds each piece of the stream and drains it. Every body takes four bytes at least.
pub deliver : FrameDecoder → List (List ℕ) → FrameDecoder × List (List ℕ)
deliver d [] = (d, [])
deliver d (piece ∷ pieces) =
    let d1 = (feed d piece).0 in
    let (d2, bodies) = drain (suc (length d1.buffered)) d1 in
    let (d3, others) = deliver d2 pieces in (d3, bodies ++ others)

-- What `drain` leaves of a stream that encodes `bodies`: the bodies that came out, then those left,
-- the first of which is not whole yet.
record Drained (l : FrameLimits) (rest : List ℕ) (bodies : List (List ℕ))
    (r : FrameDecoder × List (List ℕ)) : Type 0 where
  left : List (List ℕ)
  parted : bodies ≡ r.1 ++ left
  stream : r.0.buffered ++ rest ≡ encode_all left
  short : Short r.0.buffered left
  working : Working l r.0

drain_more : (fuel : ℕ) (d : FrameDecoder) → next_frame d ≡ (d, more) → drain (suc fuel) d ≡ (d, [])
unfolding drain
drain_more fuel d e = ap (after (drain fuel)) e

drain_frame :
    (fuel : ℕ) (d d' : FrameDecoder) (body : List ℕ)
    → next_frame d ≡ (d', frame body)
    → drain (suc fuel) d ≡ ((drain fuel d').0, body ∷ (drain fuel d').1)
unfolding drain
drain_frame fuel d d' body e = ap (after (drain fuel)) e

Working-next :
    (l : FrameLimits) (d : FrameDecoder) → Working l d → next_frame d ≡ prefix_in d d.buffered
Working-next l d w = ground (arith, next_frame_cases d)

drain_none :
    (fuel : ℕ) (l : FrameLimits) (d : FrameDecoder) (bodies : List (List ℕ)) (rest : List ℕ)
    → Working l d
    → d.buffered ++ rest ≡ encode_all bodies
    → Short d.buffered bodies
    → next_frame d ≡ (d, more)
    → Drained l rest bodies (drain (suc fuel) d)
drain_none fuel l d bodies rest w e short stay =
    subst (Drained l rest bodies) (sym (drain_more fuel d stay))
      (record { left = bodies; parted = refl; stream = e; short = short; working = w })

append-eq-nil : (xs ys : List ℕ) → xs ++ ys ≡ [] → xs ≡ []
append-eq-nil [] ys e = refl
append-eq-nil (x ∷ xs) ys e = cc

-- A whole frame in front: its body comes out, and the rest of the stream is drained.
drain_some :
    (fuel : ℕ) (l : FrameLimits) (d : FrameDecoder) (b buffer rest : List ℕ) (bs : List (List ℕ))
    → next_frame d ≡ (record d { buffered = buffer }, frame b)
    → Drained l rest bs (drain fuel (record d { buffered = buffer }))
    → Drained l rest (b ∷ bs) (drain (suc fuel) d)
drain_some fuel l d b buffer rest bs e r =
    subst (Drained l rest (b ∷ bs)) (sym (drain_frame fuel d _ b e)) (record {
      left = r.left;
      parted = ap (λ xs. b ∷ xs) r.parted;
      stream = r.stream;
      short = r.short;
      working = r.working;
    })

drain_lem :
    (fuel : ℕ) (l : FrameLimits) (n : ℕ) (d : FrameDecoder) (bodies : List (List ℕ)) (rest : List ℕ)
    → Working l d
    → l.max_frame_bytes ≤ i32_max
    → n ≤ l.max_frame_bytes
    → Fit n bodies
    → d.buffered ++ rest ≡ encode_all bodies
    → length d.buffered < fuel
    → Drained l rest bodies (drain fuel d)
drain_lem zero l n d bodies rest w small cover fit e more_fuel = absurd (omega arith)
drain_lem (suc fuel) l n d [] rest w small cover fit e more_fuel =
    drain_none fuel l d [] rest w e tt (
      Working-next l d w
      ∙ subst (λ xs. prefix_in d xs ≡ (d, more)) (sym (append-eq-nil d.buffered rest e))
          (unfold prefix_in in refl))
drain_lem (suc fuel) l n d (b ∷ bs) rest w small cover fit e more_fuel =
    elim (dec_lt (length d.buffered) (length (encode b))) [
      | yes short ↦
          drain_none fuel l d (b ∷ bs) rest w e short (
            Working-next l d w
            ∙ part_frame d d.buffered b rest (encode_all bs) limited fits e short)
      | no long ↦
          let (whole, stream) =
            append_split d.buffered rest (encode b) (encode_all bs) e (omega arith) in
          drain_some fuel l d b (drop (length (encode b)) d.buffered) rest bs
            (Working-next l d w ∙ whole_frame d b _ limited fits whole)
            (drain_lem fuel l n (record d { buffered = drop (length (encode b)) d.buffered }) bs
              rest (record { limited = w.limited; alive = w.alive }) small cover fit.1 stream
              (omega (arith, length-drop (length (encode b)) d.buffered)))
    ]
  where
    limited : d.decoder_limits.max_frame_bytes ≤ i32_max
    limited = rw w.limited small

    fits : length b ≤ d.decoder_limits.max_frame_bytes
    fits = rw w.limited (omega (arith, cover, fit.0))

feed_room :
    (d : FrameDecoder) (piece : List ℕ)
    → d.failed ≡ false
    → length d.buffered + length piece ≤ d.decoder_limits.max_buffered_bytes
    → d.decoder_limits.max_buffered_bytes ≤ usize_max
    → (feed d piece).0 ≡ record d { buffered = d.buffered ++ piece }
unfolding feed
feed_room d piece alive room word = ground arith

-- What is held of a frame that is not whole leaves room for a piece.
held_bound :
    (n : ℕ) (buffer rest : List ℕ) (bodies : List (List ℕ))
    → Fit n bodies
    → buffer ++ rest ≡ encode_all bodies
    → Short buffer bodies
    → length buffer ≤ 3 + n
held_bound n buffer rest [] fit e short = omega (arith, ap length (append-eq-nil buffer rest e))
held_bound n buffer rest (b ∷ bs) fit e short = omega arith

nothing_left :
    (buffer : List ℕ) (bodies : List (List ℕ))
    → buffer ++ [] ≡ encode_all bodies
    → Short buffer bodies
    → (buffer ≡ []) × (bodies ≡ [])
nothing_left buffer [] e short = (append-eq-nil buffer [] e, refl)
nothing_left buffer (b ∷ bs) e short = absurd (
    omega (
      arith,
      ap length e,
      ap length (append-nil buffer),
      length-append (encode b) (encode_all bs),
      length-append b (encode_all bs),
    ))

abbrev Delivers : FrameDecoder → List (List ℕ) → List (List ℕ) → Type 0
Delivers d pieces bodies = ((deliver d pieces).1 ≡ bodies) × ((deliver d pieces).0.buffered ≡ [])

-- One piece, if the pieces behind it are delivered.
deliver_step :
    (l : FrameLimits) (n : ℕ) (d : FrameDecoder) (p : List ℕ) (ps bodies : List (List ℕ))
    → ((d' : FrameDecoder) (left : List (List ℕ))
        → Working l d'
        → Fit n left
        → d'.buffered ++ flatten ps ≡ encode_all left
        → Short d'.buffered left
        → Delivers d' ps left)
    → Working l d
    → l.max_frame_bytes ≤ i32_max
    → l.max_buffered_bytes ≤ usize_max
    → n ≤ l.max_frame_bytes
    → Fit n bodies
    → length p + 3 + n ≤ l.max_buffered_bytes
    → d.buffered ++ flatten (p ∷ ps) ≡ encode_all bodies
    → Short d.buffered bodies
    → Delivers d (p ∷ ps) bodies
unfolding deliver flatten
deliver_step l n d p ps bodies later w small word cover fit room e short =
    (ap (λ bs. r.1 ++ bs) rest.0 ∙ sym drained.parted, rest.1)
  where
    held : length d.buffered ≤ 3 + n
    held = held_bound n d.buffered (flatten (p ∷ ps)) bodies fit e short

    d1 : FrameDecoder
    d1 = (feed d p).0

    fed_lem : d1 ≡ record d { buffered = d.buffered ++ p }
    fed_lem = feed_room d p w.alive (rw w.limited (omega (arith, held, room))) (rw w.limited word)

    working1 : Working l d1
    working1 = rw fed_lem (record { limited = w.limited; alive = w.alive })

    stream1 : d1.buffered ++ flatten ps ≡ encode_all bodies
    stream1 = rw fed_lem (append_assoc d.buffered p (flatten ps) ∙ e)

    r : FrameDecoder × List (List ℕ)
    r = drain (suc (length d1.buffered)) d1

    drained : Drained l (flatten ps) bodies r
    drained =
        drain_lem (suc (length d1.buffered)) l n d1 bodies (flatten ps) working1 small cover fit
          stream1 (omega arith)

    fit1 : Fit n drained.left
    fit1 = All-append_right _ r.1 drained.left (subst (Fit n) drained.parted fit)

    rest : Delivers r.0 ps drained.left
    rest = later r.0 drained.left drained.working fit1 drained.stream drained.short

deliver_lem :
    (l : FrameLimits) (n : ℕ) (d : FrameDecoder) (pieces bodies : List (List ℕ))
    → Working l d
    → l.max_frame_bytes ≤ i32_max
    → l.max_buffered_bytes ≤ usize_max
    → n ≤ l.max_frame_bytes
    → Fit n bodies
    → All (λ p. length p + 3 + n ≤ l.max_buffered_bytes) pieces
    → d.buffered ++ flatten pieces ≡ encode_all bodies
    → Short d.buffered bodies
    → Delivers d pieces bodies
unfolding deliver flatten
deliver_lem l n d [] bodies w small word cover fit room e short =
    let (empty, none_left) = nothing_left d.buffered bodies e short in (sym none_left, empty)
deliver_lem l n d (p ∷ ps) bodies w small word cover fit room e short =
    deliver_step l n d p ps bodies
      (λ d' left w' fit' e' short'.
        deliver_lem l n d' ps left w' small word cover fit' room.1 e' short')
      w small word cover fit room.0 e short

Short-empty : (bodies : List (List ℕ)) → Short [] bodies
Short-empty [] = tt
Short-empty (b ∷ bs) = omega arith

-- With limits that a decoder may have, if no body is longer than some number of bytes that is within
-- the frame limit, and every piece with that number and three more bytes is within the buffer limit,
-- which is a word, then however the encoding of the bodies is cut into such pieces, a new decoder that
-- is fed the pieces in order and drained after each returns exactly the bodies, in order, and holds no
-- byte at the end.
pub deliver_roundtrip :
    (l : FrameLimits) (largest : ℕ) (pieces bodies : List (List ℕ))
    → Sound l
    → l.max_buffered_bytes ≤ usize_max
    → largest ≤ l.max_frame_bytes
    → Fit largest bodies
    → All (λ p. length p + 3 + largest ≤ l.max_buffered_bytes) pieces
    → flatten pieces ≡ encode_all bodies
    → ((deliver (new l) pieces).1 ≡ bodies) × ((deliver (new l) pieces).0.buffered ≡ [])
unfolding new
deliver_roundtrip l largest pieces bodies sound word cover fit room e =
    deliver_lem l largest (new l) pieces bodies (record { limited = refl; alive = refl })
      sound.within_protocol word cover fit room e (Short-empty bodies)
