-- ===== src/Tests/DelegateTests.antt =====
-- The message of the Swim tests between two delegates: the theorems of the Delegate modules at it.
use wineventchain.Common.{
  ℕ, ◌-◌, ◌*◌, ◌<◌, ◌≤◌, ◌≡◌, refl, ap, sym, List, [], ◌∷◌, ◌++◌, map, none, some, arith, replicate,
  lookup,
}
use wineventchain.Swim.Frame.{Frame, new_frame, marshal}
use wineventchain.Swim.Frame.RoundTrip.{IsWellFormed}
use wineventchain.Swim.FrameQueue.{new_frame_queue, drain}
use wineventchain.Swim.Delegate.{
  Delegate, new_delegate, send, get_transmission_count, handle_inbound_message,
}
use wineventchain.Swim.Delegate.Retransmission.{broadcast_all, broadcast_all_retransmits, copies}
use wineventchain.Swim.Delegate.Transmission.{broadcast_all-send, repeats}
use wineventchain.Swim.Delegate.Inbound.{handle_all, datagram}
use wineventchain.Swim.Delegate.Transport.{handle_all-drain}
use wineventchain.Swim.Delegate.Reordering.{handle_inbound_message-panic}
use wineventchain.Swim.Delegate.Steps.{starts, steps, sends}
use wineventchain.Swim.Delegate.Tracking.{IsTracked, Reachable-IsTracked}
use wineventchain.Tests.SwimTests.{
  uuid, sender, message, mtus, first, second, wrap, unwrap, sent_frames, ended, wrap_law,
  second-IsWellFormed,
}

-- The logarithm of the number of members is rounded to one.
abbrev one : ℕ → ℕ
one n = 1

abbrev idle : Delegate
idle = record {
  source_name = sender;
  retransmit_multiplier = 3;
  decoders = [];
  last_seen = [];
  message_queue = [];
  retransmit_queue = [];
  frames_seen = [];
}

many : 1 < get_transmission_count one 4 idle
unfolding get_transmission_count
many = omega arith

enough_calls : 4 ≡ 2 * (get_transmission_count one 4 idle - 1)
unfolding get_transmission_count
enough_calls = refl

broadcast_all-send_example :
    broadcast_all wrap one 4 (send idle uuid message) (replicate 2 (2, 35) ++ replicate 4 (2, 50))
    ≡ some (
      idle,
      map marshal (first ∷ second ∷ [])
          ++ repeats (get_transmission_count one 4 idle - 1) (first ∷ second ∷ []),
    )
broadcast_all-send_example =
    broadcast_all-send wrap one 4 idle uuid message (replicate 2 (2, 35)) (replicate 4 (2, 50)) 33
      (first ∷ second ∷ []) refl refl many (omega arith) (omega arith, (omega arith, tt))
      (omega arith, (omega arith, (omega arith, (omega arith, tt)))) sent_frames refl enough_calls

abbrev waiting_frames : Delegate
waiting_frames = record idle {
  retransmit_queue =
      record { frame = first; transmit_count = 1 }
      ∷ record { frame = second; transmit_count = 0 }
      ∷ [];
}

broadcast_all_retransmits_example :
    broadcast_all wrap one 4 waiting_frames (replicate 5 (2, 50))
    ≡ some
        (idle, copies (get_transmission_count one 4 waiting_frames) waiting_frames.retransmit_queue)
unfolding get_transmission_count
broadcast_all_retransmits_example =
    broadcast_all_retransmits wrap one 4 waiting_frames (replicate 5 (2, 50)) refl
      (omega arith, (omega arith, (omega arith, (omega arith, (omega arith, tt))))) refl

abbrev arrivals : List (ℕ × Frame)
arrivals = (100, first) ∷ (200, second) ∷ []

arrivals_sent : first ∷ second ∷ [] ≡ (drain wrap (new_frame_queue uuid sender message) mtus).0
arrivals_sent = ap (λ t. t.0) (sym sent_frames)

unknown_stream : lookup idle.decoders uuid ≡ none
unfolding lookup
unknown_stream = refl

handle_all-drain_example :
    (d' : Delegate) × (handle_all unwrap [] idle (map datagram arrivals)
      ≡ some (d', record { source = sender; body = message } ∷ []))
    × (lookup d'.decoders uuid ≡ none)
    × (lookup d'.last_seen uuid ≡ none)
handle_all-drain_example =
    handle_all-drain wrap unwrap uuid sender message mtus [] idle arrivals wrap_law refl
      (omega arith) (omega arith, (omega arith, (omega arith, tt))) (omega arith) ended
      arrivals_sent unknown_stream

first-IsWellFormed : IsWellFormed first
unfolding new_frame
first-IsWellFormed = record {
  stream = refl;
  number = omega arith;
  source = omega arith;
  body = omega arith;
}

same_stream : first.stream_id ≡ second.stream_id
unfolding new_frame
same_stream = refl

late_number : (0 < second.frame_number) × (second.frame_number ≤ 64)
unfolding new_frame
late_number = (omega arith, omega arith)

late_unknown : lookup idle.decoders second.stream_id ≡ none
unfolding new_frame lookup
late_unknown = refl

-- The second frame arrives before the first.
handle_inbound_message-panic_example :
    (d' : Delegate) × (handle_inbound_message unwrap 100 idle (marshal second) [] ≡ some (d', []))
    × (handle_inbound_message unwrap 200 d' (marshal first) [] ≡ none)
handle_inbound_message-panic_example =
    handle_inbound_message-panic unwrap [] 100 200 idle second first second-IsWellFormed
      first-IsWellFormed same_stream late_number.0 late_number.1 late_unknown

Reachable-IsTracked_example : IsTracked (send (new_delegate sender 3) uuid message)
Reachable-IsTracked_example =
    Reachable-IsTracked wrap unwrap one (send (new_delegate sender 3) uuid message) (
      steps (new_delegate sender 3) (send (new_delegate sender 3) uuid message) (starts sender 3)
        (sends uuid message))
