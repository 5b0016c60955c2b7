-- ===== src/Swim/Delegate.antt =====
-- offchain-interface/pkg/transport/swim/delegate.go: the delegate of a node, which takes the messages
-- to send, answers memberlist with frames to broadcast, and puts the frames of others together.
-- A call holds its locks throughout and is one step. zlib, the random identifiers, the clock, the
-- number of members and the rounded logarithm of it are parameters.
pub mod Retransmission
pub mod Transmission
pub mod Arrival
pub mod Inbound
pub mod InOrder
pub mod Transport
pub mod Reordering
pub mod Steps
pub mod Tracking
use wineventchain.Common.{
  ℕ, ◌+◌, ◌-◌, ◌*◌, ◌≡◌, Bool, true, false, List, [], ◌∷◌, ◌++◌, Option, none, some, Outcome, ok,
  err, panic, ltb, leb, ◌==◌, ◌||◌, if◌then◌else◌, bytes_eq, Map, lookup, insert, delete,
}
use wineventchain.Swim.Frame.{Frame, marshal, unmarshal}
use wineventchain.Swim.FrameQueue.{FrameQueue, NextError, eof, new_frame_queue, next}
use wineventchain.Swim.Decoder.{
  Decoder, new_decoder, has_received_frame, read_bytes, received_all, decode, source_name,
}

pub record RetransmissionFrame : Type 0 where
  pub frame : Frame
  pub transmit_count : ℕ

pub record InboundMessage : Type 0 where
  pub source : List ℕ
  pub body : List ℕ

-- A set of frame numbers is the list of them in the order in which they came.
pub record Delegate : Type 0 where
  pub source_name : List ℕ
  pub retransmit_multiplier : ℕ
  pub decoders : Map Decoder
  pub last_seen : Map ℕ
  pub message_queue : List FrameQueue
  pub retransmit_queue : List RetransmissionFrame
  pub frames_seen : Map (List ℕ)

-- In nanoseconds.
abbrev pub wait_timeout : ℕ
wait_timeout = 10 * 1000000000

-- newDelegate
unfoldable pub new_delegate : List ℕ → ℕ → Delegate
new_delegate source_name retransmit_multiplier = record {
  source_name = source_name;
  retransmit_multiplier = retransmit_multiplier;
  decoders = [];
  last_seen = [];
  message_queue = [];
  retransmit_queue = [];
  frames_seen = [];
}

-- delegate.Send, with the random identifier of the queue.
unfoldable pub send : Delegate → List ℕ → List ℕ → Delegate
send d id msg = record d {
  message_queue = d.message_queue ++ (new_frame_queue id d.source_name msg ∷ []);
}

-- getTransmissionCount
unfoldable pub get_transmission_count : (ℕ → ℕ) → ℕ → Delegate → ℕ
get_transmission_count log10_ceil members d = d.retransmit_multiplier * log10_ceil (members + 1)

-- What the loop over the message queue comes to: a frame, no message left, or a message dropped
-- at an error.
pub data Taken : Type 0 where
  taken : Frame → Taken
  exhausted : Taken
  dropped : Taken

-- The messages left after an error of the first.
unfoldable pub after_error :
    NextError
    → List FrameQueue
    → Option (List FrameQueue × Taken)
    → Option (List FrameQueue × Taken)
after_error eof rest later = later
after_error e rest later = some (rest, dropped)

-- `none` is a panic.
unfoldable pub take_frame :
    (List ℕ → Option (List ℕ)) → ℕ → List FrameQueue → Option (List FrameQueue × Taken)
unfolding after_error
take_frame compress mtu [] = some ([], exhausted)
take_frame compress mtu (fq ∷ queue) =
    let (fq', result) = next compress fq mtu in
    elim result [
      | ok f ↦ some (fq' ∷ queue, taken f)
      | err e ↦ after_error e queue (take_frame compress mtu queue)
      | panic ↦ none
    ]

-- A retransmission of the first frame that waits for one.
unfoldable pub retransmit : ℕ → Delegate → Delegate × List (List ℕ)
retransmit count d = elim d.retransmit_queue [
  | [] ↦ (d, [])
  | r ∷ rest ↦
      let sent : RetransmissionFrame = record r { transmit_count = r.transmit_count + 1 } in
      (
        record d { retransmit_queue = if leb count sent.transmit_count then rest else sent ∷ rest },
        marshal r.frame ∷ [],
      )
]

-- A new frame is noted for its retransmissions.
unfoldable pub transmit : ℕ → Delegate → Frame → Delegate × List (List ℕ)
transmit count d f = (
  if ltb 1 count
      then record d {
        retransmit_queue = d.retransmit_queue ++ (record { frame = f; transmit_count = 1 } ∷ []);
      }
      else d,
  marshal f ∷ [],
)

unfoldable pub is_idle : Delegate → Bool
is_idle d = elim d.message_queue [
  | [] ↦ elim d.retransmit_queue [ [] ↦ true | r ∷ rest ↦ false ]
  | q ∷ queue ↦ false
]

-- delegate.GetBroadcasts; `none` is a panic.
unfoldable pub get_broadcasts :
    (List ℕ → Option (List ℕ)) → (ℕ → ℕ) → ℕ → Delegate → ℕ → ℕ → Option (Delegate × List (List ℕ))
unfolding get_transmission_count
get_broadcasts compress log10_ceil members d overhead limit =
    if is_idle d || ltb (limit - overhead) 1
    then some (d, [])
    else elim (take_frame compress (limit - overhead) d.message_queue) [
      | none ↦ none
      | some (queue, result) ↦
          let d' : Delegate = record d { message_queue = queue } in
          elim result [
            | taken f ↦ some (transmit (get_transmission_count log10_ceil members d) d' f)
            | exhausted ↦ some (retransmit (get_transmission_count log10_ceil members d) d')
            | dropped ↦ some (d', [])
          ]
    ]

unfoldable pub has_number : List ℕ → ℕ → Bool
has_number [] n = false
has_number (m ∷ ms) n = let rest = has_number ms n in if m == n then true else rest

-- The frame of another node is noted, and from the second frame of a stream on it is queued.
unfoldable pub note_frame : Delegate → Frame → Delegate
note_frame d f =
    if bytes_eq f.source d.source_name then d else elim (lookup d.frames_seen f.stream_id) [
      | none ↦ record d { frames_seen = insert d.frames_seen f.stream_id (f.frame_number ∷ []) }
      | some numbers ↦ if has_number numbers f.frame_number then d else record d {
        frames_seen = insert d.frames_seen f.stream_id (numbers ++ (f.frame_number ∷ []));
        retransmit_queue = d.retransmit_queue ++ (record { frame = f; transmit_count = 0 } ∷ []);
      }
    ]

-- The decoder of a stream, a new one where there is none.
unfoldable pub open_stream : ℕ → Delegate → List ℕ → Delegate × Decoder
unfolding new_decoder
open_stream now d id = elim (lookup d.decoders id) [
  | some decoder ↦ (d, decoder)
  | none ↦ (
    record d {
      decoders = insert d.decoders id (new_decoder id);
      last_seen = insert d.last_seen id now;
    },
    new_decoder id,
  )
]

-- The message of a complete stream, after its state is removed.
unfoldable pub close_stream :
    (List ℕ → Option (List ℕ))
    → Delegate
    → List ℕ
    → Decoder
    → Option (Delegate × List InboundMessage)
close_stream decompress d id decoder =
    let closed : Delegate = record d {
      decoders = delete d.decoders id;
      last_seen = delete d.last_seen id;
    } in
    elim (decode decompress decoder) [
      | err e ↦ some (closed, [])
      | panic ↦ none
      | ok decoded ↦ elim (source_name decoder) [
        | err e ↦ some (closed, [])
        | panic ↦ none
        | ok source ↦ some (closed, record { source = source; body = decoded } ∷ [])
      ]
    ]

-- The frame in the decoder of its stream, if it is no duplicate.
unfoldable pub read_inbound :
    (List ℕ → Option (List ℕ))
    → Delegate
    → Decoder
    → Frame
    → List ℕ
    → List ℕ
    → Option (Delegate × List InboundMessage)
unfolding close_stream
read_inbound decompress d decoder f input spare =
    elim (has_received_frame decoder.frames f.frame_number) [
      | panic ↦ none
      | err e ↦ some (d, [])
      | ok duplicate ↦ if duplicate then some (d, []) else elim (read_bytes decoder input spare) [
        | panic ↦ none
        | err e ↦ some (d, [])
        | ok decoder' ↦
            if received_all decoder'
            then close_stream decompress d f.stream_id decoder'
            else some (record d { decoders = insert d.decoders f.stream_id decoder' }, [])
      ]
    ]

-- delegate.handleInboundMessage, with the messages that it passes on; `none` is a panic.
unfoldable pub handle_inbound_message :
    (List ℕ → Option (List ℕ))
    → ℕ
    → Delegate
    → List ℕ
    → List ℕ
    → Option (Delegate × List InboundMessage)
unfolding open_stream note_frame read_inbound
handle_inbound_message decompress now d input spare = elim (unmarshal input spare) [
  | err e ↦ some (d, [])
  | panic ↦ none
  | ok f ↦
      let (opened, decoder) = open_stream now d f.stream_id in
      read_inbound decompress (note_frame opened f) decoder f input spare
]

-- One round of the prune loop at the time `now`, over the streams of `entries`.
unfoldable pub prune_entries : ℕ → Map ℕ → Delegate → Delegate
prune_entries now [] d = d
prune_entries now ((id, seen) ∷ entries) d = prune_entries now entries (
    if ltb wait_timeout (now - seen)
    then record d {
      decoders = delete d.decoders id;
      last_seen = delete d.last_seen id;
      frames_seen = delete d.frames_seen id;
    }
    else d)

unfoldable pub prune : ℕ → Delegate → Delegate
unfolding prune_entries
prune now d = prune_entries now d.last_seen d
