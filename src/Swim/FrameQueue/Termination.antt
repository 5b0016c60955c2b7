-- ===== src/Swim/FrameQueue/Termination.antt =====
-- offchain-interface/pkg/transport/swim/frameset.go: the queue comes to its end.
use wineventchain.Common.{
  ℕ, zero, suc, ◌+◌, ◌-◌, ◌*◌, ◌%◌, ◌^◌, ◌≤◌, ◌<◌, ◌≡◌, ap, ◌∙◌, inl, inr, true, List, [], ◌∷◌,
  Option, some, Outcome, ok, ltb, leb, if◌then◌else◌, length, slice, replicate, arith, Bool-cases,
  Option-cases,
}
use wineventchain.Swim.Frame.{Frame, new_frame, calculate_max_data_bytes, header_bytes}
use wineventchain.Swim.FrameQueue.{
  FrameQueue, NextError, eof, new_frame_queue, compress_first, emit, next_with, next, drain,
}

module _ (compress : List ℕ → Option (List ℕ)) (mtu avail : ℕ) where
  -- A queue that need not compress any more, with `n` frames of room for what is left.
  record HasRoom (q : FrameQueue) (n : ℕ) : Type 0 where
    size : calculate_max_data_bytes mtu q.source_name ≡ ok avail
    some_byte : 0 < avail
    short : length q.bytes + avail < 2 ^ 64
    inside : q.offset ≤ length q.bytes
    enough : length q.bytes ≤ q.offset + n * avail
    frames : q.frame_number + n ≤ 64

  emit-HasRoom :
      (q : FrameQueue) (n : ℕ)
      → HasRoom q (suc n)
      → (f : Frame) × (q' : FrameQueue) × (emit q avail ≡ (q', ok f))
        × HasRoom q' n
        × (0 < q'.frame_number)
  unfolding emit
  emit-HasRoom q n r =
      let limit = (q.offset + avail) % 2 ^ 64 in
      let exact : limit ≡ q.offset + avail = omega (arith, r.short, r.inside) in
      let is_last = leb (length q.bytes) limit in
      let end = if ltb (length q.bytes) limit then length q.bytes else limit in
      let sent : FrameQueue = record q {
        offset = end;
        frame_number = (q.frame_number + 1) % 2 ^ 16;
      } in
      let frame =
        new_frame q.compressed q.id q.frame_number is_last q.source_name
          (slice q.bytes q.offset end) in
      (
        frame,
        sent,
        ground (arith, r.inside),
        record {
          size = r.size;
          some_byte = r.some_byte;
          short = r.short;
          inside = ground (arith, exact);
          enough = ground (arith, exact, r.enough);
          frames = omega (arith, r.frames);
        },
        omega (arith, r.frames),
      )

  compress_first-later :
      (q : FrameQueue) → 0 < q.frame_number → compress_first compress q avail ≡ some q
  unfolding compress_first
  compress_first-later q h = ground arith

  -- One call of Next on a queue that has bytes left.
  next-HasRoom :
      (q cut : FrameQueue) (n : ℕ)
      → q.offset < length q.bytes
      → q.frame_number < 64
      → calculate_max_data_bytes mtu q.source_name ≡ ok avail
      → compress_first compress q avail ≡ some cut
      → HasRoom cut (suc n)
      → (f : Frame) × (q' : FrameQueue) × (next compress q mtu ≡ (q', ok f))
        × HasRoom q' n
        × (0 < q'.frame_number)
  unfolding next next_with
  next-HasRoom q cut n left few size prepared r =
      let (f, q', e, r', later) = emit-HasRoom cut n r in
      let byte = r.some_byte in (f, q', ground arith, r', later)

  drain_ok :
      (q q' : FrameQueue) (f : Frame) (mtus : List ℕ)
      → next compress q mtu ≡ (q', ok f)
      → (drain compress q (mtu ∷ mtus)).1 ≡ (drain compress q' mtus).1
  unfolding drain
  drain_ok q q' f mtus e =
      rw (ap (λ r. r.1) e, drain)
        (ap (λ (r : FrameQueue × Outcome NextError Frame). (drain compress r.0 mtus).1) e)

  drain_over :
      (q : FrameQueue) (mtus : List ℕ)
      → leb (length q.bytes) q.offset ≡ true
      → (drain compress q (mtu ∷ mtus)).1 ≡ some eof
  unfolding drain next
  drain_over q mtus e = ground arith

  drain-HasRoom :
      (n : ℕ) (q : FrameQueue)
      → HasRoom q n
      → 0 < q.frame_number
      → (drain compress q (replicate (suc n) mtu)).1 ≡ some eof
  drain-HasRoom zero q r later = drain_over q [] (let enough = r.enough in ground arith)
  drain-HasRoom (suc n) q r later = elim (Bool-cases (leb (length q.bytes) q.offset)) [
    | inl over ↦ drain_over q (replicate (suc n) mtu) over
    | inr left ↦
        let (f, q', e, r', later') =
          next-HasRoom q q n (ground arith) (omega (arith, r.frames)) r.size
            (compress_first-later q later) r in
        drain_ok q q' f (replicate (suc n) mtu) e ∙ drain-HasRoom n q' r' later'
  ]

-- What the first call makes of the message keeps the start of the reader.
compress_first_start :
    (compress : List ℕ → Option (List ℕ)) (q cut : FrameQueue) (avail : ℕ)
    → compress_first compress q avail ≡ some cut
    → (cut.source_name ≡ q.source_name)
      × (cut.offset ≡ q.offset)
      × (cut.frame_number ≡ q.frame_number)
unfolding compress_first
compress_first_start compress q cut avail h = elim (Option-cases (compress q.bytes)) [
  | inl n ↦ ground arith
  | inr (out, n) ↦ ground arith
]

-- A message that, compressed if it does not fit into one frame, takes up at most 64 frames is
-- sent to its end: of 65 calls of Next with an MTU beyond the size of the header, one answers EOF
-- and those before it give frames.
pub drain-eof :
    (compress : List ℕ → Option (List ℕ)) (id source msg : List ℕ) (mtu : ℕ) (cut : FrameQueue)
    → 0 < length msg
    → header_bytes source < mtu
    → compress_first compress (new_frame_queue id source msg) (mtu - header_bytes source) ≡ some cut
    → length cut.bytes ≤ 64 * (mtu - header_bytes source)
    → length cut.bytes + mtu < 2 ^ 64
    → (drain compress (new_frame_queue id source msg) (replicate 65 mtu)).1 ≡ some eof
unfolding calculate_max_data_bytes new_frame_queue
drain-eof compress id source msg mtu cut some_byte wide prepared fits short =
    let q = new_frame_queue id source msg in
    let avail = mtu - header_bytes source in
    let (same_source, same_offset, same_number) =
      compress_first_start compress q cut avail prepared in
    let size : calculate_max_data_bytes mtu source ≡ ok avail = ground arith in
    let room : HasRoom compress mtu avail cut 64 = record {
      size = ap (calculate_max_data_bytes mtu) same_source ∙ size;
      some_byte = omega (arith, wide);
      short = omega (arith, short);
      inside = omega (arith, same_offset);
      enough = omega (arith, fits, same_offset);
      frames = omega (arith, same_number);
    } in
    let (f, q', e, r', later) =
      next-HasRoom compress mtu avail q cut 63 some_byte (omega arith) size prepared room in
    drain_ok compress mtu avail q q' f (replicate 64 mtu) e
    ∙ drain-HasRoom compress mtu avail 63 q' r' later
