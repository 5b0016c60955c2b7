-- ===== src/Tests/SwimTests.antt =====
-- A message of three bytes, sent in two frames: the theorems of the Swim modules at it.
use wineventchain.Common.{
  ◌-◌, ◌*◌, ℕ, ◌+◌, ◌≤◌, ◌<◌, ◌≡◌, ◌↔◌, refl, true, false, List, [], ◌∷◌, ◌++◌, map, Option, none,
  some, ok, panic, length, get_elem?, arith, replicate, slice, ap, sym, subst, some-injective,
  bytes_eq,
}
use wineventchain.Swim.Frame.{
  Frame, new_frame, calculate_max_data_bytes, marshal, unmarshal, checksum_ieee, get_uint,
}
use wineventchain.Swim.Frame.RoundTrip.{unmarshal-marshal, IsWellFormed}
use wineventchain.Swim.Frame.Bounds.{unmarshal-panic, unmarshal-fits}
use wineventchain.Swim.FrameQueue.Termination.{drain-eof}
use wineventchain.Swim.Frame.{header_bytes}
use wineventchain.Swim.FrameQueue.{
  FrameQueue, new_frame_queue, next, drain, eof, compress_first, emit,
}
use wineventchain.Swim.FrameQueue.Progress.{length-marshal-next}
use wineventchain.Swim.Decoder.{
  new_decoder, receive, received_all, decode, read_all, read_frame, accept, mark_compression, store,
  extend, slot, is_some, unpack,
}
use wineventchain.Swim.Decoder.Complete.{received_all_iff, decode-read_all, Occurs, InStream}
use wineventchain.Swim.Stream.{StreamFrom, payload}
use wineventchain.Swim.Delivery.{new_frame_queue-Transmits, Transmits, delivery}

abbrev pub uuid : List ℕ
uuid = replicate 16 7

abbrev pub sender : List ℕ
sender = 110 ∷ []

abbrev pub message : List ℕ
message = 5 ∷ 6 ∷ 7 ∷ []

-- zlib replaced by a function that puts a byte in front.
abbrev pub wrap : List ℕ → Option (List ℕ)
wrap bs = some (9 ∷ bs)

abbrev pub unwrap : List ℕ → Option (List ℕ)
unwrap [] = none
unwrap (b ∷ bs) = some bs

-- Room for two bytes: the message is compressed to four, in two frames.
abbrev pub mtus : List ℕ
mtus = 33 ∷ 33 ∷ 33 ∷ []

abbrev pub first : Frame
first = new_frame true uuid 0 false sender (9 ∷ 5 ∷ [])

abbrev pub second : Frame
second = new_frame true uuid 1 true sender (6 ∷ 7 ∷ [])

pub sent_frames :
    drain wrap (new_frame_queue uuid sender message) mtus ≡ (first ∷ second ∷ [], some eof)
unfolding drain new_frame_queue next compress_first emit calculate_max_data_bytes new_frame
sent_frames = refl

-- The second frame arrives first, and twice.
abbrev arrivals : List Frame
arrivals = second ∷ first ∷ second ∷ []

arrivals-InStream : InStream (first ∷ second ∷ []) arrivals
arrivals-InStream = ((1, refl), ((0, refl), ((1, refl), tt)))

pub ended : (drain wrap (new_frame_queue uuid sender message) mtus).1 ≡ some eof
ended = ap (λ t. t.1) sent_frames

arrivals_sent : InStream (drain wrap (new_frame_queue uuid sender message) mtus).0 arrivals
arrivals_sent = subst (λ t. InStream t.0 arrivals) (sym sent_frames) arrivals-InStream

pub wrap_law : (bs out : List ℕ) → wrap bs ≡ some out → unwrap out ≡ some bs
wrap_law bs out e = subst (λ t. unwrap t ≡ some bs) (some-injective (9 ∷ bs) out e) refl

delivery_example :
    let d = receive (new_decoder uuid) [] (map marshal arrivals) in
    ((received_all d ≡ true) ↔ (
      (i : ℕ) (f : Frame)
      → get_elem? (drain wrap (new_frame_queue uuid sender message) mtus).0 i ≡ some f
      → Occurs f arrivals))
    × (received_all d ≡ true → decode unwrap d ≡ ok message)
delivery_example =
    delivery wrap unwrap uuid sender message mtus [] arrivals wrap_law refl (omega arith)
      (omega arith) (omega arith) ended arrivals_sent

new_frame_queue-Transmits_example :
    Transmits wrap uuid message (drain wrap (new_frame_queue uuid sender message) mtus).0
new_frame_queue-Transmits_example =
    new_frame_queue-Transmits wrap uuid sender message mtus (omega arith) ended

pair_stream : StreamFrom true uuid 0 2 (first ∷ second ∷ [])
unfolding new_frame
pair_stream = ((refl, refl, refl, refl, (refl, refl, refl, refl, refl)))

received_all_iff_example :
    (received_all (read_all (new_decoder uuid) arrivals) ≡ true)
    ↔ ((i : ℕ) (f : Frame) → get_elem? (first ∷ second ∷ []) i ≡ some f → Occurs f arrivals)
received_all_iff_example =
    received_all_iff true uuid (first ∷ second ∷ []) pair_stream (omega arith) arrivals
      (omega arith) arrivals-InStream

arrivals_complete : received_all (read_all (new_decoder uuid) arrivals) ≡ true
unfolding received_all read_all read_frame new_decoder accept mark_compression store extend slot
    is_some new_frame bytes_eq
arrivals_complete = refl

decode-read_all_example :
    decode unwrap (read_all (new_decoder uuid) arrivals)
    ≡ unpack unwrap true (payload (first ∷ second ∷ []))
decode-read_all_example =
    decode-read_all true uuid (first ∷ second ∷ []) pair_stream (omega arith) unwrap arrivals
      (omega arith) arrivals-InStream arrivals_complete

pub second-IsWellFormed : IsWellFormed second
unfolding new_frame
second-IsWellFormed = record {
  stream = refl;
  number = omega arith;
  source = omega arith;
  body = omega arith;
}

unmarshal-marshal_example : unmarshal (marshal second ++ (1 ∷ [])) (2 ∷ []) ≡ ok second
unmarshal-marshal_example = unmarshal-marshal second (1 ∷ []) (2 ∷ []) second-IsWellFormed

-- Twenty-seven bytes, of which three for the source and two of the four of the data length.
abbrev short_input : List ℕ
short_input = replicate 20 0 ++ (3 ∷ 0 ∷ 1 ∷ 1 ∷ 1 ∷ 0 ∷ 0 ∷ [])

unmarshal-panic_example :
    (unmarshal short_input [] ≡ panic) ↔ ((27 ≤ 27) × (27 ≤ 27) × (27 + 0 < 29))
unmarshal-panic_example = unmarshal-panic short_input []

unmarshal-fits_example :
    (26 + 1 + 2 + 4 ≤ length (marshal second))
    × (length second.stream_id ≡ 16)
    × (checksum_ieee (slice (marshal second) 0 29) ≡ get_uint (slice (marshal second) 29 33))
unfolding marshal new_frame unmarshal checksum_ieee
unmarshal-fits_example = unmarshal-fits (marshal second) [] second refl

length-marshal-next_example : length (marshal first) ≤ 33
unfolding new_frame new_frame_queue next compress_first emit calculate_max_data_bytes
length-marshal-next_example =
    length-marshal-next wrap (new_frame_queue uuid sender message) 33
      (next wrap (new_frame_queue uuid sender message) 33).0 first refl refl

-- The message does not fit into a frame of two bytes.
abbrev cut_queue : FrameQueue
cut_queue = record {
  id = uuid;
  source_name = sender;
  bytes = 9 ∷ message;
  compressed = true;
  offset = 0;
  frame_number = 0;
}

cut_first :
    compress_first wrap (new_frame_queue uuid sender message) (33 - header_bytes sender)
    ≡ some cut_queue
unfolding compress_first new_frame_queue header_bytes
cut_first = refl

header_fits : header_bytes sender < 33
unfolding header_bytes
header_fits = omega arith

cut_fits : 4 ≤ 64 * (33 - header_bytes sender)
unfolding header_bytes
cut_fits = omega arith

drain-eof_example :
    (drain wrap (new_frame_queue uuid sender message) (replicate 65 33)).1 ≡ some eof
drain-eof_example =
    drain-eof wrap uuid sender message 33 cut_queue (omega arith) header_fits cut_first cut_fits
      (omega arith)
