-- ===== src/Swim/Delegate/Reordering.antt =====
-- delegate.go with framesetdecoder.go: a stream whose first frame is late.
use wineventchain.Common.{
  ℕ, zero, suc, ◌-◌, ◌≡◌, ◌<◌, ◌≤◌, refl, ap, ◌∙◌, false, true, List, [], ◌∷◌, Option, none, some,
  ok, panic, leb, replicate, set, arith, lookup, insert, lookup-insert, bytes_eq, bytes_eq_refl,
  length-set,
}
use wineventchain.Swim.Frame.{Frame, marshal}
use wineventchain.Swim.Frame.RoundTrip.{IsWellFormed}
use wineventchain.Swim.Decoder.{
  Decoder, new_decoder, slot, extend, store, mark_compression, is_some, accept, read_frame,
  has_received_frame, received_all,
}
use wineventchain.Swim.Decoder.Slots.{length-extend}
use wineventchain.Swim.Delegate.{
  Delegate, note_frame, open_stream, read_inbound, handle_inbound_message,
}
use wineventchain.Swim.Delegate.Inbound.{handle_marshal, read_bytes_marshal}

set_late :
    (n : ℕ) (x : Option Frame)
    → 0 < n
    → (rest : List (Option Frame)) × (set (extend [] n) n x ≡ none ∷ rest)
unfolding extend
set_late zero x h = absurd (omega arith)
set_late (suc n) x h =
    let e : suc (suc n) - 0 ≡ suc (suc n) = omega arith in
    let low : leb 0 (suc n) ≡ true = ground arith in
    (set (replicate (suc n) none) n x, rw (low, e) refl)

accept_new :
    (id : List ℕ) (f : Frame)
    → 0 < f.frame_number
    → (rest : List (Option Frame)) × ((accept (new_decoder id) f).frames ≡ none ∷ rest)
unfolding accept new_decoder mark_compression store extend slot is_some
accept_new id f h = set_late f.frame_number (some f) h

accept_new_pending :
    (id : List ℕ) (f : Frame)
    → 0 < f.frame_number
    → f.frame_number ≤ 64
    → received_all (accept (new_decoder id) f) ≡ false
unfolding accept new_decoder mark_compression store slot is_some received_all
accept_new_pending id f h few = ground (
  arith,
  length-set (extend [] f.frame_number) f.frame_number (some f),
  length-extend [] f.frame_number,
)

read_frame_new :
    (id : List ℕ) (f : Frame)
    → f.stream_id ≡ id
    → f.frame_number ≤ 64
    → read_frame (new_decoder id) f ≡ ok (accept (new_decoder id) f)
unfolding read_frame new_decoder
read_frame_new id f same few = ground (arith, ap (bytes_eq id) same ∙ bytes_eq_refl id)

none_received : (id : List ℕ) (n : ℕ) → has_received_frame (new_decoder id).frames n ≡ ok false
unfolding new_decoder has_received_frame
none_received id n = refl

module _ (decompress : List ℕ → Option (List ℕ)) (spare : List ℕ) where
  -- The first frame that arrives is put into a new decoder.
  late_start :
      (now : ℕ) (d : Delegate) (f : Frame)
      → IsWellFormed f
      → 0 < f.frame_number
      → f.frame_number ≤ 64
      → lookup d.decoders f.stream_id ≡ none
      → let noted = note_frame (open_stream now d f.stream_id).0 f in
        handle_inbound_message decompress now d (marshal f) spare
        ≡ some (
          record noted {
            decoders = insert noted.decoders f.stream_id (accept (new_decoder f.stream_id) f);
          },
          [],
        )
  unfolding open_stream read_inbound
  late_start now d f w h few unknown =
      let noted : Delegate = note_frame (open_stream now d f.stream_id).0 f in
      let fresh : (open_stream now d f.stream_id).1 ≡ new_decoder f.stream_id =
        rw (unknown, open_stream) refl in
      let empty : has_received_frame (new_decoder f.stream_id).frames f.frame_number ≡ ok false =
        none_received f.stream_id f.frame_number in
      let bytes =
        read_bytes_marshal decompress spare (new_decoder f.stream_id) f w
        ∙ read_frame_new f.stream_id f refl few in
      let pending = accept_new_pending f.stream_id f h few in
      handle_marshal decompress spare now d f w
      ∙ ap (λ x. read_inbound decompress noted x f (marshal f) spare) fresh
      ∙ rw (empty, read_inbound) (rw (bytes, read_inbound) (rw (pending, read_inbound) refl))

  stuck_stream :
      (now : ℕ) (d : Delegate) (g : Frame) (decoder : Decoder) (rest : List (Option Frame))
      → IsWellFormed g
      → lookup d.decoders g.stream_id ≡ some decoder
      → decoder.frames ≡ none ∷ rest
      → handle_inbound_message decompress now d (marshal g) spare ≡ none
  unfolding open_stream read_inbound has_received_frame
  stuck_stream now d g decoder rest w known late =
      let noted : Delegate = note_frame (open_stream now d g.stream_id).0 g in
      let held : (open_stream now d g.stream_id).1 ≡ decoder = rw (known, open_stream) refl in
      let crash : has_received_frame decoder.frames g.frame_number ≡ panic =
        ap (λ l. has_received_frame l g.frame_number) late in
      handle_marshal decompress spare now d g w
      ∙ ap (λ x. read_inbound decompress noted x g (marshal g) spare) held
      ∙ rw (crash, read_inbound) refl

  -- Where a frame that is not the first of its stream arrives before the others, the next frame of
  -- that stream panics, whichever it is.
  pub handle_inbound_message-panic :
      (now later : ℕ) (d : Delegate) (f g : Frame)
      → IsWellFormed f
      → IsWellFormed g
      → g.stream_id ≡ f.stream_id
      → 0 < f.frame_number
      → f.frame_number ≤ 64
      → lookup d.decoders f.stream_id ≡ none
      → (d' : Delegate) × (handle_inbound_message decompress now d (marshal f) spare
          ≡ some (d', []))
        × (handle_inbound_message decompress later d' (marshal g) spare ≡ none)
  handle_inbound_message-panic now later d f g w v same h few unknown =
      let noted : Delegate = note_frame (open_stream now d f.stream_id).0 f in
      let decoder = accept (new_decoder f.stream_id) f in
      let d' : Delegate = record noted { decoders = insert noted.decoders f.stream_id decoder } in
      let (rest, late) = accept_new f.stream_id f h in
      (
        d',
        late_start now d f w h few unknown,
        stuck_stream later d' g decoder rest v
            (ap (lookup d'.decoders) same ∙ lookup-insert noted.decoders f.stream_id decoder) late,
      )
