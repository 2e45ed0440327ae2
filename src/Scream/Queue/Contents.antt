-- ===== src/Scream/Queue/Contents.antt =====
-- What the queue holds, and that its byte count is the size of that.
use rtp_over_quic.Base.{
  ℕ, ◌%◌, ◌^◌, ◌<◌, ◌≡◌, refl, ◌∙◌, sym, List, [], ◌∷◌, ◌++◌, map, Option, none, some, sum,
  sum-append, arith,
}
use rtp_over_quic.Base.Int.{pos}
use rtp_over_quic.Pion.{RtpLib, FloatLib}
use rtp_over_quic.Scream.Queue.{
  Queue, Packet, RtpQueueItem, size_of, new_queue, enqueue, dequeue, clear, bytes_in_queue,
}
use mathlib.Core.List.{map-append, append_assoc, append-nil}

-- The calls that change a queue.
pub data Op (r : RtpLib) (f : FloatLib) : Type 0 where
  enqueues : Packet r → f.Float → Op r f
  dequeues : Op r f
  clears : Op r f

abbrev pub sizes : {r : RtpLib} → List (Packet r) → List ℕ
sizes = map size_of

abbrev pub to_list : {r : RtpLib} → Option (Packet r) → List (Packet r)
to_list none = []
to_list (some p) = p ∷ []

module _ {r : RtpLib} {f : FloatLib} where
  abbrev pub packets : Queue r f → List (Packet r)
  packets q = map (λ item. item.packet) q.queue

  -- The byte count is the sum of the sizes, modulo the range of Go's int.
  abbrev IsCounted : Queue r f → Type 0
  IsCounted q = q.bytes_in_queue ≡ sum (sizes (packets q)) % 2 ^ 64

  -- One call: the queue after it, and the packets that it takes out.
  abbrev pub step : Queue r f → Op r f → Queue r f × List (Packet r)
  step q (enqueues p ts) = (enqueue p ts q, [])
  step q dequeues = let (q', p) = dequeue q in (q', to_list p)
  step q clears = ((clear q).0, packets q)

  abbrev pub run : Queue r f → List (Op r f) → Queue r f × List (Packet r)
  run q [] = (q, [])
  run q (op ∷ ops) = let (q', out) = step q op in let (q'', outs) = run q' ops in (q'', out ++ outs)

  abbrev pub enqueued : List (Op r f) → List (Packet r)
  enqueued [] = []
  enqueued (enqueues p ts ∷ ops) = p ∷ enqueued ops
  enqueued (dequeues ∷ ops) = enqueued ops
  enqueued (clears ∷ ops) = enqueued ops

  pub packets-enqueue :
      (p : Packet r) (ts : f.Float) (q : Queue r f) → packets (enqueue p ts q) ≡ packets q ++ p ∷ []
  unfolding enqueue
  packets-enqueue p ts q = map-append _ q.queue _

  enqueue-IsCounted :
      (p : Packet r) (ts : f.Float) (q : Queue r f) → IsCounted q → IsCounted (enqueue p ts q)
  enqueue-IsCounted p ts q counted =
      rw (packets-enqueue p ts q, map-append, sum-append) (unfold enqueue in omega arith)

  dequeue-IsCounted :
      (n : ℕ) (items : List (RtpQueueItem r f))
      → (let q : Queue r f = record { bytes_in_queue = n; queue = items } in
          IsCounted q → IsCounted (dequeue q).0)
  unfolding dequeue
  dequeue-IsCounted n [] counted = counted
  dequeue-IsCounted n (item ∷ rest) counted = omega arith

  pub dequeue-packets : (q : Queue r f) → packets q ≡ to_list (dequeue q).1 ++ packets (dequeue q).0
  unfolding dequeue
  dequeue-packets q =
      elim q.queue
        as (λ items.
          let q' : Queue r f = record q { queue = items } in
          packets q' ≡ to_list (dequeue q').1 ++ packets (dequeue q').0) [
            | [] ↦ refl
            | item ∷ rest ↦ refl
          ]

  step-IsCounted : (q : Queue r f) (op : Op r f) → IsCounted q → IsCounted (step q op).0
  step-IsCounted q (enqueues p ts) counted = enqueue-IsCounted p ts q counted
  step-IsCounted q dequeues counted = dequeue-IsCounted q.bytes_in_queue q.queue counted
  step-IsCounted q clears counted = unfold clear in omega arith

  step-packets :
      (q : Queue r f) (op : Op r f)
      → packets q ++ enqueued (op ∷ []) ≡ (step q op).1 ++ packets (step q op).0
  step-packets q (enqueues p ts) = sym (packets-enqueue p ts q)
  step-packets q dequeues = append-nil _ ∙ dequeue-packets q
  step-packets q clears = unfold clear in refl

  enqueued-cons :
      (op : Op r f) (ops : List (Op r f)) → enqueued (op ∷ ops) ≡ enqueued (op ∷ []) ++ enqueued ops
  enqueued-cons (enqueues p ts) ops = refl
  enqueued-cons dequeues ops = refl
  enqueued-cons clears ops = refl

  -- Whatever is enqueued, dequeued and cleared, in any order: `bytesInQueue` stays the sum of the
  -- sizes of the packets in the queue, modulo 2 ^ 64.
  run-IsCounted : (q : Queue r f) (ops : List (Op r f)) → IsCounted q → IsCounted (run q ops).0
  run-IsCounted q [] counted = counted
  run-IsCounted q (op ∷ ops) counted = run-IsCounted (step q op).0 ops (step-IsCounted q op counted)

  -- No packet is lost, made up or overtaken: those that were in the queue, followed by those that
  -- are enqueued, are those that are taken out by `Dequeue` and `Clear` in the order in which they
  -- are taken out, followed by those that are in the queue in the end.
  pub run-packets :
      (q : Queue r f) (ops : List (Op r f))
      → packets q ++ enqueued ops ≡ (run q ops).1 ++ packets (run q ops).0
  run-packets q [] = append-nil _
  run-packets q (op ∷ ops) =
      rw
        (
          enqueued-cons op ops,
          ← append_assoc (packets q),
          step-packets q op,
          append_assoc,
          run-packets (step q op).0 ops,
        )
        (sym (append_assoc (step q op).1 _ _))

  -- `BytesInQueue` of a queue that began empty is the sum of the sizes of the packets in it, if
  -- that is below 2 ^ 63.
  pub bytes_in_queue-run :
      (ops : List (Op r f))
      → sum (sizes (packets (run new_queue ops).0)) < 2 ^ 63
      → bytes_in_queue (run new_queue ops).0 ≡ pos (sum (sizes (packets (run new_queue ops).0)))
  unfolding bytes_in_queue
  bytes_in_queue-run ops small =
      ground (arith, run-IsCounted new_queue ops (unfold new_queue in refl))
