-- ===== src/Swim/Decoder.antt =====
-- offchain-interface/pkg/transport/swim/framesetdecoder.go: the frames of one message, collected
-- in any order. zlib is the parameter `decompress`, which fails with `none`.
pub mod Slots
pub mod Collect
pub mod Complete
use wineventchain.Common.{
  ℕ, zero, suc, ◌+◌, ◌-◌, ◌%◌, ◌^◌, Bool, true, false, not, ◌&&◌, ◌||◌, List, [], ◌∷◌, ◌++◌, Option,
  none, some, Outcome, ok, err, panic, ◌>>=◌, ◌>>◌, guard, ltb, leb, ◌==◌, if◌then◌else◌, length,
  get_elem?, set, replicate, bytes_eq, bool_eq,
}
use wineventchain.Swim.Frame.{Frame, FrameError, unmarshal}
use wineventchain.Swim.FrameQueue.{max_frame_count}

pub record Decoder : Type 0 where
  pub id : List ℕ
  pub received_count : ℕ
  pub terminated : Bool
  pub is_compressed : Bool
  pub frames : List (Option Frame)

pub data DecoderError : Type 0 where
  max_frame_count_exceeded stream_uuid_mismatch mixed_compression : DecoderError
  not_terminated no_frames decompress_failed : DecoderError
  bad_frame : FrameError → DecoderError

unfoldable pub new_decoder : List ℕ → Decoder
new_decoder id = record {
  id = id;
  received_count = 0;
  terminated = false;
  is_compressed = false;
  frames = [];
}

-- The slot of a frame number: empty beyond the slice and at a nil pointer.
unfoldable pub slot : List (Option Frame) → ℕ → Option Frame
slot [] i = none
slot (x ∷ xs) zero = x
slot (x ∷ xs) (suc i) = slot xs i

unfoldable pub is_some : Option Frame → Bool
is_some none = false
is_some (some f) = true

-- make and copy: the slice, extended by nil pointers to hold the frame number.
unfoldable pub extend : List (Option Frame) → ℕ → List (Option Frame)
extend frames frame_number =
    if leb (length frames) frame_number
    then frames ++ replicate (suc frame_number - length frames) none
    else frames

unfoldable pub store : Decoder → Frame → Decoder
store d f = record d {
  received_count = (d.received_count + 1) % 2 ^ 16;
  terminated = d.terminated || f.is_last;
  frames = set (extend d.frames f.frame_number) f.frame_number (some f);
}

-- The first frame received sets the compression flag.
unfoldable pub mark_compression : Decoder → Frame → Decoder
mark_compression d f =
    if d.received_count == 0 then record d { is_compressed = f.is_compressed } else d

-- The end of ReadFrame: a duplicate is ignored, another frame is stored.
unfoldable pub accept : Decoder → Frame → Decoder
unfolding is_some
accept d f =
    let d' = mark_compression d f in
    if is_some (slot d'.frames f.frame_number) then d' else store d' f

-- frameQueueDecoder.ReadFrame: the decoder after the frame, or the error, which leaves it alone.
unfoldable pub read_frame : Decoder → Frame → Outcome DecoderError Decoder
read_frame d f = do
  guard (not (ltb max_frame_count d.received_count || ltb max_frame_count f.frame_number))
      max_frame_count_exceeded
  guard (bytes_eq d.id f.stream_id) stream_uuid_mismatch
  guard ((d.received_count == 0) || bool_eq d.is_compressed f.is_compressed) mixed_compression
  ok (accept d f)

-- frameQueueDecoder.ReadBytes
unfoldable pub read_bytes : Decoder → List ℕ → List ℕ → Outcome DecoderError Decoder
read_bytes d input spare = elim (unmarshal input spare) [
  | ok f ↦ read_frame d f
  | err e ↦ err (bad_frame e)
  | panic ↦ panic
]

-- frameQueueDecoder.HasReceivedFrame: the loop reads a field of each entry, nil or not, up to the
-- one that it looks for.
unfoldable pub has_received_frame : List (Option Frame) → ℕ → Outcome DecoderError Bool
has_received_frame [] frame_number = ok false
has_received_frame (none ∷ frames) frame_number = panic
has_received_frame (some f ∷ frames) frame_number =
    let rest = has_received_frame frames frame_number in
    if f.frame_number == frame_number then ok true else rest

-- frameQueueDecoder.ReceivedAll
unfoldable pub received_all : Decoder → Bool
received_all d = d.terminated && (d.received_count == length d.frames % 2 ^ 16)

-- frameQueueDecoder.SourceName
unfoldable pub source_name : Decoder → Outcome DecoderError (List ℕ)
source_name d = elim d.frames [
  | [] ↦ err no_frames
  | x ∷ xs ↦ elim x [ none ↦ panic | some f ↦ ok f.source ]
]

-- The data of all frames, joined: a nil pointer panics.
unfoldable pub join : List (Option Frame) → Outcome DecoderError (List ℕ)
join [] = ok []
join (none ∷ frames) = panic
join (some f ∷ frames) = do rest ← join frames; ok (f.body ++ rest)

unfoldable pub unpack : (List ℕ → Option (List ℕ)) → Bool → List ℕ → Outcome DecoderError (List ℕ)
unpack decompress false buf = ok buf
unpack decompress true buf = elim (decompress buf) [
  | none ↦ err decompress_failed
  | some out ↦ ok out
]

-- frameQueueDecoder.Decode
unfoldable pub decode : (List ℕ → Option (List ℕ)) → Decoder → Outcome DecoderError (List ℕ)
decode decompress d = do
  guard d.terminated not_terminated
  buf ← join d.frames
  unpack decompress d.is_compressed buf

-- The frames read one after the other, as handleInboundMessage reads them: an error is logged,
-- and leaves the decoder as it was.
unfoldable pub read_all : Decoder → List Frame → Decoder
read_all d [] = d
read_all d (f ∷ fs) = read_all (elim (read_frame d f) [ ok d' ↦ d' | err e ↦ d | panic ↦ d ]) fs

-- The same from the bytes of the datagrams, each in a buffer with the bytes `spare` behind it.
unfoldable pub receive : Decoder → List ℕ → List (List ℕ) → Decoder
receive d spare [] = d
receive d spare (input ∷ inputs) =
    receive (elim (read_bytes d input spare) [ ok d' ↦ d' | err e ↦ d | panic ↦ d ]) spare inputs
