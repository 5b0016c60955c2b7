-- ===== src/Swim/Delegate/InOrder.antt =====
-- delegate.go: the frames of a message that arrive in their order are put together to the message.
use wineventchain.Common.{
  ℕ, suc, ◌+◌, ◌≡◌, ◌≤◌, ◌<◌, refl, sym, ap, ap₂, ◌∙◌, Bool, false, ◌||◌, List, [], ◌∷◌, ◌++◌, map,
  append_assoc, Option, none, some, ok, subst, length, length-append, All, arith, lookup, insert,
  delete, lookup-insert, lookup-delete,
}
use wineventchain.Swim.Frame.{Frame, marshal}
use wineventchain.Swim.Frame.RoundTrip.{IsWellFormed}
use wineventchain.Swim.Stream.{StreamFrom, payload, StreamFrom-cast}
use wineventchain.Swim.Decoder.{Decoder, new_decoder, accept, unpack}
use wineventchain.Swim.Delegate.{
  Delegate, note_frame, open_stream, read_inbound, handle_inbound_message,
}
use wineventchain.Swim.Delegate.Arrival.{InOrder, IsNext, new_decoder-InOrder, accept-InOrder}
use wineventchain.Swim.Delegate.Inbound.{
  handle_all, datagram, frame_of, handle_marshal, handle_all_cons, read_inbound_more,
  read_inbound_last,
}

module _ (decompress : List ℕ → Option (List ℕ)) (spare : List ℕ) (c : Bool)
    (id source : List ℕ) where
  -- What is known of the stream when its frames `pre` have arrived and those of `ts` follow.
  record Arriving (d : Delegate) (decoder : Decoder) (pre : List Frame) (ts : List (ℕ × Frame))
      : Type 0 where
    held : (now : ℕ) → (open_stream now d id).1 ≡ decoder
    order : InOrder c id pre decoder
    unfinished : decoder.terminated ≡ false
    few : length pre + length ts ≤ 64
    stream : StreamFrom c id (length pre) (length pre + length ts) (map frame_of ts)
    formed : All IsWellFormed (map frame_of ts)
    named : All (λ f. f.source ≡ source) (pre ++ map frame_of ts)

  held_after :
      (d : Delegate) (decoder : Decoder) (now : ℕ)
      → (open_stream now (record d { decoders = insert d.decoders id decoder }) id).1 ≡ decoder
  unfolding open_stream
  held_after d decoder now = rw (lookup-insert d.decoders id decoder, open_stream) refl

  -- One frame of several that are left.
  arrive :
      (d : Delegate) (decoder : Decoder) (pre : List Frame) (now : ℕ) (f : Frame) (t : ℕ × Frame)
      (ts : List (ℕ × Frame))
      → Arriving d decoder pre ((now, f) ∷ t ∷ ts)
      → (d' : Delegate) × (handle_inbound_message decompress now d (marshal f) spare
          ≡ some (d', []))
        × Arriving d' (accept decoder f) (pre ++ (f ∷ [])) (t ∷ ts)
  arrive d decoder pre now f t ts a =
      let (compression, stream, number, last, rest) = a.stream in
      let next : IsNext c id pre f = record {
        compression = compression;
        stream = stream;
        number = number;
        few = omega (arith, a.few);
      } in
      let more : f.is_last ≡ false = ground (arith, last) in
      let noted : Delegate = note_frame (open_stream now d f.stream_id).0 f in
      let d' : Delegate = record noted {
        decoders = insert noted.decoders f.stream_id (accept decoder f);
      } in
      let here : (open_stream now d f.stream_id).1 ≡ decoder =
        ap (λ i. (open_stream now d i).1) stream ∙ a.held now in
      let (read, order, ended) = accept-InOrder c id pre decoder f a.order next in
      let longer : length (pre ++ (f ∷ [])) ≡ suc (length pre) =
        ground (arith, length-append pre (f ∷ [])) in
      let total : length pre + length ((now, f) ∷ t ∷ ts)
          ≡ length (pre ++ (f ∷ [])) + length (t ∷ ts) =
        omega (arith, longer) in
      (
        d',
        handle_marshal decompress spare now d f a.formed.0
            ∙ ap (λ x. read_inbound decompress noted x f (marshal f) spare) here
            ∙ read_inbound_more decompress spare c id source noted decoder pre f a.formed.0 a.order
                next a.unfinished more,
        record {
          held = λ later.
              ap
                (λ i.
                  (open_stream later
                    (record noted { decoders = insert noted.decoders i (accept decoder f) }) id).1)
                stream
              ∙ held_after noted (accept decoder f) later;
          order = order;
          unfinished = ended ∙ ap₂ (λ x y. x || y) a.unfinished more;
          few = omega (arith, a.few, longer);
          stream = StreamFrom-cast (map frame_of (t ∷ ts)) refl refl (sym longer) total rest;
          formed = a.formed.1;
          named =
              subst (λ l. All (λ g. g.source ≡ source) l)
                (sym (append_assoc pre (f ∷ []) (map frame_of (t ∷ ts)))) a.named;
        },
      )

  abbrev whole_of : List Frame → List (ℕ × Frame) → List ℕ
  whole_of pre ts = payload (pre ++ map frame_of ts)

  arrive_all :
      (ts : List (ℕ × Frame)) (d : Delegate) (decoder : Decoder) (pre : List Frame) (msg : List ℕ)
      → 0 < length ts
      → Arriving d decoder pre ts
      → unpack decompress c (whole_of pre ts) ≡ ok msg
      → (d' : Delegate) × (handle_all decompress spare d (map datagram ts)
          ≡ some (d', record { source = source; body = msg } ∷ []))
        × (lookup d'.decoders id ≡ none)
        × (lookup d'.last_seen id ≡ none)
  unfolding handle_all
  arrive_all [] d decoder pre msg h a whole = absurd (omega arith)
  arrive_all ((now, f) ∷ []) d decoder pre msg h a whole =
      let (compression, stream, number, last, rest) = a.stream in
      let next : IsNext c id pre f = record {
        compression = compression;
        stream = stream;
        number = number;
        few = omega (arith, a.few);
      } in
      let noted : Delegate = note_frame (open_stream now d f.stream_id).0 f in
      let d' : Delegate = record noted {
        decoders = delete noted.decoders f.stream_id;
        last_seen = delete noted.last_seen f.stream_id;
      } in
      let here : (open_stream now d f.stream_id).1 ≡ decoder =
        ap (λ i. (open_stream now d i).1) stream ∙ a.held now in
      (
        d',
        handle_all_cons decompress spare now (marshal f) [] d d' d'
            (record { source = source; body = msg } ∷ []) []
            (handle_marshal decompress spare now d f a.formed.0
              ∙ ap (λ x. read_inbound decompress noted x f (marshal f) spare) here
              ∙ read_inbound_last decompress spare c id source noted decoder pre f msg a.formed.0
                  a.order next (ground (arith, last)) a.named whole)
            refl,
        ap (λ i. lookup (delete noted.decoders i) id) stream ∙ lookup-delete noted.decoders id,
        ap (λ i. lookup (delete noted.last_seen i) id) stream ∙ lookup-delete noted.last_seen id,
      )
  arrive_all ((now, f) ∷ t ∷ ts) d decoder pre msg h a whole =
      let (d1, handled, next) = arrive d decoder pre now f t ts a in
      let (d', rest, closed, unseen) =
        arrive_all (t ∷ ts) d1 (accept decoder f) (pre ++ (f ∷ [])) msg (omega arith) next (
          ap (λ l. unpack decompress c (payload l))
            (append_assoc pre (f ∷ []) (map frame_of (t ∷ ts)))
          ∙ whole) in
      (
        d',
        handle_all_cons decompress spare now (marshal f) (map datagram (t ∷ ts)) d d1 d' []
            (record { source = source; body = msg } ∷ []) handled rest,
        closed,
        unseen,
      )

  -- The frames of a stream that is not known yet arrive in their order: the message is passed on
  -- once, with its source, and the stream has no decoder and no time any more.
  pub handle_all_in_order :
      (d : Delegate) (ts : List (ℕ × Frame)) (msg : List ℕ)
      → lookup d.decoders id ≡ none
      → 0 < length ts
      → length ts ≤ 64
      → StreamFrom c id 0 (length ts) (map frame_of ts)
      → All IsWellFormed (map frame_of ts)
      → All (λ f. f.source ≡ source) (map frame_of ts)
      → unpack decompress c (payload (map frame_of ts)) ≡ ok msg
      → (d' : Delegate) × (handle_all decompress spare d (map datagram ts)
          ≡ some (d', record { source = source; body = msg } ∷ []))
        × (lookup d'.decoders id ≡ none)
        × (lookup d'.last_seen id ≡ none)
  unfolding open_stream new_decoder
  handle_all_in_order d ts msg unknown h few stream formed named whole =
      arrive_all ts d (new_decoder id) [] msg h
        (record {
          held = λ now. rw (unknown, open_stream) refl;
          order = new_decoder-InOrder c id;
          unfinished = refl;
          few = omega (arith, few);
          stream = StreamFrom-cast (map frame_of ts) refl refl refl (omega arith) stream;
          formed = formed;
          named = named;
        })
        whole
