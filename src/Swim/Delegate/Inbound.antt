-- ===== src/Swim/Delegate/Inbound.antt =====
-- delegate.go: the datagrams of one message, handled one after the other.
use wineventchain.Common.{
  ℕ, ◌+◌, ◌≡◌, refl, sym, ap, ap₂, ◌∙◌, Bool, true, false, ◌||◌, List, [], ◌∷◌, ◌++◌, append-nil,
  Option, none, some, ok, length, length-append, All, arith, insert, delete,
}
use wineventchain.Swim.Frame.{Frame, marshal, unmarshal}
use wineventchain.Swim.Frame.RoundTrip.{IsWellFormed, unmarshal-marshal}
use wineventchain.Swim.Stream.{payload}
use wineventchain.Swim.Decoder.{Decoder, accept, read_frame, read_bytes, received_all, unpack}
use wineventchain.Swim.Delegate.{
  Delegate, InboundMessage, note_frame, open_stream, close_stream, read_inbound,
  handle_inbound_message,
}
use wineventchain.Swim.Delegate.Arrival.{
  InOrder, IsNext, not_received, accept-InOrder, received_all-InOrder, decode-InOrder,
  source_name-InOrder,
}

-- The datagrams with the times at which they are handled, each in a buffer with the bytes `spare`
-- behind it; `none` is a panic.
unfoldable pub handle_all :
    (List ℕ → Option (List ℕ))
    → List ℕ
    → Delegate
    → List (ℕ × List ℕ)
    → Option (Delegate × List InboundMessage)
handle_all decompress spare d [] = some (d, [])
handle_all decompress spare d ((now, input) ∷ inputs) =
    elim (handle_inbound_message decompress now d input spare) [
      | none ↦ none
      | some (d', messages) ↦ elim (handle_all decompress spare d' inputs) [
        | none ↦ none
        | some (d'', more) ↦ some (d'', messages ++ more)
      ]
    ]

abbrev pub datagram : ℕ × Frame → ℕ × List ℕ
datagram (now, f) = (now, marshal f)

abbrev pub frame_of : ℕ × Frame → Frame
frame_of (now, f) = f

read_marshal : (f : Frame) (spare : List ℕ) → IsWellFormed f → unmarshal (marshal f) spare ≡ ok f
read_marshal f spare w =
    ap (λ t. unmarshal t spare) (sym (append-nil (marshal f))) ∙ unmarshal-marshal f [] spare w

module _ (decompress : List ℕ → Option (List ℕ)) (spare : List ℕ) where
  pub handle_marshal :
      (now : ℕ) (d : Delegate) (f : Frame)
      → IsWellFormed f
      → handle_inbound_message decompress now d (marshal f) spare
        ≡ read_inbound decompress
            (note_frame (open_stream now d f.stream_id).0 f)
            (open_stream now d f.stream_id).1
            f
            (marshal f)
            spare
  unfolding handle_inbound_message
  handle_marshal now d f w = rw (read_marshal f spare w, handle_inbound_message) refl

  pub read_bytes_marshal :
      (decoder : Decoder) (f : Frame)
      → IsWellFormed f
      → read_bytes decoder (marshal f) spare ≡ read_frame decoder f
  unfolding read_bytes
  read_bytes_marshal decoder f w = rw (read_marshal f spare w, read_bytes) refl

  pub handle_all_cons :
      (now : ℕ) (input : List ℕ) (inputs : List (ℕ × List ℕ)) (d d' d'' : Delegate)
      (ms more : List InboundMessage)
      → handle_inbound_message decompress now d input spare ≡ some (d', ms)
      → handle_all decompress spare d' inputs ≡ some (d'', more)
      → handle_all decompress spare d ((now, input) ∷ inputs) ≡ some (d'', ms ++ more)
  unfolding handle_all
  handle_all_cons now input inputs d d' d'' ms more h k =
      rw (h, handle_all) (rw (k, handle_all) refl)

  module _ (c : Bool) (id source : List ℕ) where
    -- A frame that is not the last is put into the decoder.
    pub read_inbound_more :
        (d : Delegate) (decoder : Decoder) (pre : List Frame) (f : Frame)
        → IsWellFormed f
        → InOrder c id pre decoder
        → IsNext c id pre f
        → decoder.terminated ≡ false
        → f.is_last ≡ false
        → read_inbound decompress d decoder f (marshal f) spare
          ≡ some (record d { decoders = insert d.decoders f.stream_id (accept decoder f) }, [])
    unfolding read_inbound
    read_inbound_more d decoder pre f w o n unfinished more =
        let (read, o', ended) = accept-InOrder c id pre decoder f o n in
        let longer : length (pre ++ (f ∷ [])) ≡ length pre + 1 = length-append pre (f ∷ []) in
        let pending : received_all (accept decoder f) ≡ false =
          received_all-InOrder c id (pre ++ (f ∷ [])) (accept decoder f) o'
            (omega (arith, longer, n.few))
          ∙ ended
          ∙ ap₂ (λ a b. a || b) unfinished more in
        let new = not_received c id pre decoder f o n in
        let bytes = read_bytes_marshal decoder f w ∙ read in
        rw (new, read_inbound) (rw (bytes, read_inbound) (rw (pending, read_inbound) refl))

    -- The last frame completes the message.
    pub read_inbound_last :
        (d : Delegate) (decoder : Decoder) (pre : List Frame) (f : Frame) (msg : List ℕ)
        → IsWellFormed f
        → InOrder c id pre decoder
        → IsNext c id pre f
        → f.is_last ≡ true
        → All (λ g. g.source ≡ source) (pre ++ (f ∷ []))
        → unpack decompress c (payload (pre ++ (f ∷ []))) ≡ ok msg
        → read_inbound decompress d decoder f (marshal f) spare
          ≡ some (
            record d {
              decoders = delete d.decoders f.stream_id;
              last_seen = delete d.last_seen f.stream_id;
            },
            record { source = source; body = msg } ∷ [],
          )
    unfolding read_inbound close_stream
    read_inbound_last d decoder pre f msg w o n last named whole =
        let (read, o', ended) = accept-InOrder c id pre decoder f o n in
        let longer : length (pre ++ (f ∷ [])) ≡ length pre + 1 = length-append pre (f ∷ []) in
        let done : (accept decoder f).terminated ≡ true = ground (arith, ended, last) in
        let complete : received_all (accept decoder f) ≡ true =
          received_all-InOrder c id (pre ++ (f ∷ [])) (accept decoder f) o'
            (omega (arith, longer, n.few))
          ∙ done in
        let new = not_received c id pre decoder f o n in
        let bytes = read_bytes_marshal decoder f w ∙ read in
        let decoded =
          decode-InOrder c id decompress (pre ++ (f ∷ [])) (accept decoder f) o'
            (omega (arith, longer)) done
          ∙ whole in
        let sent_by =
          source_name-InOrder c id (pre ++ (f ∷ [])) (accept decoder f) source o'
            (omega (arith, longer)) named in
        rw (new, read_inbound)
          (rw (bytes, read_inbound)
            (rw (complete, read_inbound)
              (rw (decoded, close_stream) (rw (sent_by, close_stream) refl))))
