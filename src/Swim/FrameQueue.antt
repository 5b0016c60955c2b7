-- ===== src/Swim/FrameQueue.antt =====
-- offchain-interface/pkg/transport/swim/frameset.go: the queue that cuts one message into frames.
-- zlib is the parameter `compress`, which fails with `none`; `uint` has 64 bits.
pub mod Fragments
pub mod Progress
pub mod Termination
use wineventchain.Common.{
  ℕ, zero, suc, ◌+◌, ◌%◌, ◌^◌, Bool, true, false, not, ◌&&◌, List, [], ◌∷◌, Option, none, some,
  Outcome, ok, err, panic, ltb, leb, ◌==◌, if◌then◌else◌, length, slice,
}
use wineventchain.Swim.Frame.{Frame, new_frame, SizeError, calculate_max_data_bytes}

pub record FrameQueue : Type 0 where
  pub id : List ℕ
  pub source_name : List ℕ
  pub bytes : List ℕ
  pub compressed : Bool
  pub offset : ℕ
  pub frame_number : ℕ

abbrev pub max_frame_count : ℕ
max_frame_count = 64

pub data NextError : Type 0 where
  eof max_frame_count_exceeded mtu_too_small compress_failed : NextError

-- newFrameQueue, with the random identifier as an argument.
unfoldable pub new_frame_queue : List ℕ → List ℕ → List ℕ → FrameQueue
new_frame_queue id source_name bytes = record {
  id = id;
  source_name = source_name;
  bytes = bytes;
  compressed = false;
  offset = 0;
  frame_number = 0;
}

-- frameQueue.ResetReader
unfoldable pub reset_reader : FrameQueue → FrameQueue
reset_reader q = record q { offset = 0; frame_number = 0 }

-- The first frame compresses a message that does not fit into it.
unfoldable pub compress_first : (List ℕ → Option (List ℕ)) → FrameQueue → ℕ → Option FrameQueue
compress_first compress q avail_bytes =
    if (q.frame_number == 0) && (ltb avail_bytes (length q.bytes) && not q.compressed)
    then elim (compress q.bytes) [
      | none ↦ none
      | some bytes ↦ some (record q { bytes = bytes; compressed = true })
    ]
    else some q

-- The byte range to send, and the frame of it. The sum may wrap; a range that is then reversed
-- panics.
unfoldable pub emit : FrameQueue → ℕ → FrameQueue × Outcome NextError Frame
emit q avail_bytes =
    let limit = (q.offset + avail_bytes) % 2 ^ 64 in
    let is_last = leb (length q.bytes) limit in
    let end = if ltb (length q.bytes) limit then length q.bytes else limit in
    if leb q.offset end
    then (
      record q { offset = end; frame_number = (q.frame_number + 1) % 2 ^ 16 },
      ok (
          new_frame q.compressed q.id q.frame_number is_last q.source_name
            (slice q.bytes q.offset end)),
    )
    else (q, panic)

unfoldable pub next_with :
    (List ℕ → Option (List ℕ))
    → FrameQueue
    → Outcome SizeError ℕ
    → FrameQueue × Outcome NextError Frame
next_with compress q (err e) = (q, err mtu_too_small)
next_with compress q panic = (q, panic)
next_with compress q (ok avail_bytes) =
    if ltb avail_bytes 1
    then (q, err mtu_too_small)
    else elim (compress_first compress q avail_bytes) [
      | none ↦ (q, err compress_failed)
      | some q' ↦ emit q' avail_bytes
    ]

-- frameQueue.Next
unfoldable pub next :
    (List ℕ → Option (List ℕ)) → FrameQueue → ℕ → FrameQueue × Outcome NextError Frame
unfolding next_with
next compress q mtu =
    if leb (length q.bytes) q.offset
    then (q, err eof)
    else if leb max_frame_count q.frame_number
    then (q, err max_frame_count_exceeded)
    else next_with compress q (calculate_max_data_bytes mtu q.source_name)

-- Successive calls of Next, one for each MTU offered: the frames up to the first call that
-- returns none, and what that call returned.
unfoldable pub drain :
    (List ℕ → Option (List ℕ)) → FrameQueue → List ℕ → List Frame × Option NextError
drain compress q [] = ([], none)
drain compress q (mtu ∷ mtus) =
    let (q', result) = next compress q mtu in
    elim result [
      | ok f ↦ let rest = drain compress q' mtus in (f ∷ rest.0, rest.1)
      | err e ↦ ([], some e)
      | panic ↦ ([], none)
    ]
