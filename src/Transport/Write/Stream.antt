-- ===== src/Transport/Write/Stream.antt =====
-- The writer as a byte stream: what is still to go out, and what has gone.
use kafka_driver.Base.{
  ℕ, ◌+◌, List, Option, ◌≡◌, ◌∷◌, [], drop, some, ◌++◌, ◌<◌, none, sym, length, append_assoc,
  append-nil, arith, ◌≤◌, drop_all, ◌-◌, drop-drop, take-min-append-drop, length-drop, ◌∙◌, refl,
  ap, inl, inr, subst,
}
use kafka_driver.Core.Identity.{CallId, EffectId}
use kafka_driver.Transport.Write.{
  WriteQueueLimits, new, discard_all, WriteQueue, enqueue, Progress, advance_front, QueuedWrite,
  WriteSlice, advanced, front, fault, slice_of, advance_in, admit, advance, Admission, accepted,
  refused,
}
use kafka_driver.Transport.Write.Invariant.{
  discard_all-IsValid, IsValid, admit-IsValid, FrontOnly, Returns, admit_cases, advance-IsValid,
}

-- The bytes of the frames that no socket write has taken, in wire order.
abbrev pub unwritten : List QueuedWrite → List ℕ
unwritten [] = []
unwritten (w ∷ ws) = drop w.written w.frame ++ unwritten ws

unwritten-append : (xs ys : List QueuedWrite) → unwritten (xs ++ ys) ≡ unwritten xs ++ unwritten ys
unwritten-append [] ys = refl
unwritten-append (x ∷ xs) ys =
    rw (unwritten-append xs ys)
      (sym (append_assoc (drop x.written x.frame) (unwritten xs) (unwritten ys)))

enqueue_stream :
    (q : WriteQueue) (c : CallId) (e : EffectId) (frame : List ℕ) (total : ℕ)
    → unwritten (enqueue q c e frame total).0.frames ≡ unwritten q.frames ++ frame
unfolding enqueue
enqueue_stream q c e frame total = rw (unwritten-append, append-nil)

-- The bytes of the slice that the writer lends.
abbrev pub lent : Option WriteSlice → List ℕ
lent none = []
lent (some s) = s.bytes

-- Progress of `n` bytes is the slice that the writer lends for at most `n` bytes.
abbrev pub sent : WriteQueue → Progress → ℕ → List ℕ
sent q (advanced p) n = lent (front q n)
sent q (fault e) n = []

-- A slice of `n` bytes, and what is left of the frame.
slice_rest :
    (w : QueuedWrite) (ws : List QueuedWrite) (n : ℕ)
    → n ≤ length w.frame - w.written
    → lent (slice_of (w ∷ ws) n) ++ drop (w.written + n) w.frame ≡ drop w.written w.frame
unfolding slice_of
slice_rest w ws n h =
    rw (← drop-drop w.written n w.frame) (
      take-min-append-drop n (drop w.written w.frame)
        (omega (arith, length-drop w.written w.frame)))

advance_front_stream :
    (q : WriteQueue) (w : QueuedWrite) (ws : List QueuedWrite) (e : EffectId) (n : ℕ)
    → q.frames ≡ w ∷ ws
    → w.written < length w.frame
    → let (q', p) = advance_front q w ws e n in
      sent q p n ++ unwritten q'.frames ≡ unwritten (w ∷ ws)
unfolding advance_front front
advance_front_stream q w ws e n same h = ground (
  arith,
  slice_rest w ws n,
  drop_all (w.written + n) w.frame,
  append-nil (lent (slice_of (w ∷ ws) n)),
  append_assoc (lent (slice_of (w ∷ ws) n)) (drop (w.written + n) w.frame) (unwritten ws),
)

advance_in_stream :
    (q : WriteQueue) (ws : List QueuedWrite) (e : EffectId) (n : ℕ)
    → q.frames ≡ ws
    → FrontOnly ws
    → let (q', p) = advance_in q ws e n in sent q p n ++ unwritten q'.frames ≡ unwritten ws
unfolding advance_in
advance_in_stream q [] e n same f = ap unwritten same
advance_in_stream q (w ∷ ws) e n same f = advance_front_stream q w ws e n same f.0

-- One call of the transport owner.
pub data Call : Type 0 where
  admits : CallId → EffectId → List ℕ → Call
  advances : EffectId → ℕ → Call

abbrev pub step : WriteQueue → Call → WriteQueue
step q (admits c e frame) = (admit q c e frame).0
step q (advances e n) = (advance q e n).0

abbrev pub sent_by : WriteQueue → Call → List ℕ
sent_by q (admits c e frame) = []
sent_by q (advances e n) = sent q (advance q e n).1 n

abbrev taken : Admission → List ℕ → List ℕ
taken (accepted a) frame = frame
taken (refused e) frame = []

abbrev pub taken_by : WriteQueue → Call → List ℕ
taken_by q (admits c e frame) = taken (admit q c e frame).1 frame
taken_by q (advances e n) = []

taken_refused : (a : Admission) (frame : List ℕ) → Returns frame a → taken a frame ≡ []
taken_refused (accepted a) frame r = absurd r
taken_refused (refused e) frame r = refl

abbrev Streams : WriteQueue → List ℕ → WriteQueue × Admission → Type 0
Streams q frame r = unwritten r.0.frames ≡ unwritten q.frames ++ taken r.1 frame

admit_stream :
    (q : WriteQueue) (c : CallId) (e : EffectId) (frame : List ℕ)
    → Streams q frame (admit q c e frame)
unfolding enqueue
admit_stream q c e frame = elim (admit_cases q c e frame) [
  | inl (_, same) ↦
      subst (Streams q frame) (sym same)
        (enqueue_stream q c e frame (q.buffered_bytes + length frame))
  | inr (_, same, back) ↦
      rw (same, taken_refused (admit q c e frame).1 frame back) (sym (append-nil _))
]

step_stream :
    (q : WriteQueue) (c : Call)
    → IsValid q
    → sent_by q c ++ unwritten (step q c).frames ≡ unwritten q.frames ++ taken_by q c
unfolding advance
step_stream q (admits c e frame) v = admit_stream q c e frame
step_stream q (advances e n) v =
    advance_in_stream q q.frames e n refl v.front_only ∙ sym (append-nil _)

step-IsValid : (q : WriteQueue) (c : Call) → IsValid q → IsValid (step q c)
step-IsValid q (admits c e frame) v = admit-IsValid q c e frame v
step-IsValid q (advances e n) v = advance-IsValid q e n v

abbrev pub run : WriteQueue → List Call → WriteQueue
run q [] = q
run q (c ∷ cs) = run (step q c) cs

-- What a history puts on the wire, and what it takes in.
abbrev pub wire : WriteQueue → List Call → List ℕ
wire q [] = []
wire q (c ∷ cs) = sent_by q c ++ wire (step q c) cs

abbrev pub intake : WriteQueue → List Call → List ℕ
intake q [] = []
intake q (c ∷ cs) = taken_by q c ++ intake (step q c) cs

-- Over any history of a valid writer the bytes sent, followed by those still unwritten, are the
-- bytes that were unwritten at the start, followed by the frames accepted since, in that order.
pub wire_stream :
    (q : WriteQueue) (cs : List Call)
    → IsValid q
    → wire q cs ++ unwritten (run q cs).frames ≡ unwritten q.frames ++ intake q cs
wire_stream q [] v = sym (append-nil _)
wire_stream q (c ∷ cs) v =
    append_assoc (sent_by q c) (wire (step q c) cs) (unwritten (run (step q c) cs).frames)
    ∙ ap (λ xs. sent_by q c ++ xs) (wire_stream (step q c) cs (step-IsValid q c v))
    ∙ sym (append_assoc (sent_by q c) (unwritten (step q c).frames) (intake (step q c) cs))
    ∙ ap (λ xs. xs ++ intake (step q c) cs) (step_stream q c v)
    ∙ append_assoc (unwritten q.frames) (taken_by q c) (intake (step q c) cs)

run-IsValid : (q : WriteQueue) (cs : List Call) → IsValid q → IsValid (run q cs)
run-IsValid q [] v = v
run-IsValid q (c ∷ cs) v = run-IsValid (step q c) cs (step-IsValid q c v)

-- Whatever is offered to a new writer and reported to it, its byte count is the sum of its frames, the
-- two bounds hold, only the front frame is partly sent and none is sent whole, and no two frames have
-- the same call or effect; and so it is after everything is discarded.
pub writer-IsValid :
    (limits : WriteQueueLimits) (cs : List Call)
    → IsValid (run (new limits) cs) × IsValid (discard_all (run (new limits) cs)).0
unfolding new
writer-IsValid limits cs =
    let v = run-IsValid (new limits) cs (ground arith) in
    (v, discard_all-IsValid (run (new limits) cs) v)
