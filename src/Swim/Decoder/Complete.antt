-- ===== src/Swim/Decoder/Complete.antt =====
-- framesetdecoder.go: a message is complete exactly when each of its frames has arrived, and it
-- is then decoded from their data in the order of the stream.
use wineventchain.Common.{
  ℕ, ◌+◌, ◌-◌, ◌≤◌, ◌<◌, ◌≡◌, ◌≢◌, ◌↔◌, refl, sym, ap, ap₂, ◌∙◌, ◌⊎◌, inl, inr, Bool, true, List,
  [], ◌∷◌, map, Option, none, some, length, get_elem?, get_elem?-some, get_elem?-below,
  some-injective, subst, arith, ok, bytes_eq, bytes_eq_refl, Option-cases,
}
use wineventchain.Swim.Frame.{Frame}
use wineventchain.Swim.Stream.{StreamFrom, payload}
use wineventchain.Swim.Decoder.{
  Decoder, slot, accept, mark_compression, is_some, read_frame, read_all, new_decoder, received_all,
  decode, join, unpack,
}
use wineventchain.Swim.Decoder.Slots.{
  filled, filled-le-length, full_of_filled, slot-below, filled_of_full, frames_of_slots,
}
use wineventchain.Swim.Decoder.Collect.{
  Place, place, Collected, new_decoder-Collected, accept-Collected, mark_compression-Collected,
  slot-store,
}

-- Every frame of the sequence is one of the stream.
abbrev pub InStream : List Frame → List Frame → Type 0
InStream fs [] = Unit {0}
InStream fs (f ∷ seq) = ((i : ℕ) × (get_elem? fs i ≡ some f)) × InStream fs seq

abbrev pub Occurs : Frame → List Frame → Type 0
Occurs f [] = ⊥
Occurs f (g ∷ seq) = (f ≡ g) ⊎ Occurs f seq

pub join-some : (fs : List Frame) → join (map some fs) ≡ ok (payload fs)
unfolding join
join-some [] = refl
join-some (f ∷ fs) = rw (join-some fs)

module _ (c : Bool) (id : List ℕ) (fs : List Frame) (st : StreamFrom c id 0 (length fs) fs)
    (small : length fs ≤ 64) where
  placed : (i : ℕ) (f : Frame) → get_elem? fs i ≡ some f → Place c id i (length fs) f
  placed i f e = let r : 0 + i ≡ i = omega arith in rw r at (place c id 0 (length fs) i fs f st e)

  read_frame-accept :
      (d : Decoder) (i : ℕ) (f : Frame)
      → Collected c id fs d
      → get_elem? fs i ≡ some f
      → read_frame d f ≡ ok (accept d f)
  unfolding read_frame
  read_frame-accept d i f v e =
      let p = placed i f e in
      let same : bytes_eq d.id f.stream_id ≡ true =
        ap₂ bytes_eq v.same_id p.stream ∙ bytes_eq_refl id in
      ground
        (arith, filled-le-length d.frames, same, v.compression, p.compression, p.number_eq, p.below)

  accept_origin :
      (d : Decoder) (i : ℕ) (f : Frame) (j : ℕ) (g : Frame)
      → Collected c id fs d
      → Place c id i (length fs) f
      → slot (accept d f).frames j ≡ some g
      → (slot d.frames j ≡ some g) ⊎ (g ≡ f)
  unfolding accept is_some
  accept_origin d i f j g v p h =
      let same = (mark_compression-Collected c id fs d i f v p).2 in
      ground (arith, slot-store (mark_compression d f) f j, ap (λ t. slot t j) same)

  -- Reading the sequence `seq` takes the decoder `d` to `d'`.
  record Reads (d : Decoder) (seq : List Frame) (d' : Decoder) : Type 0 where
    state : Collected c id fs d'
    keeps : (j : ℕ) (g : Frame) → slot d.frames j ≡ some g → slot d'.frames j ≡ some g
    delivers :
        (j : ℕ) (g : Frame) → get_elem? fs j ≡ some g → Occurs g seq → slot d'.frames j ≡ some g
    origin :
        (j : ℕ) (g : Frame) → slot d'.frames j ≡ some g → (slot d.frames j ≡ some g) ⊎ Occurs g seq

  Reads-cons :
      {d d' : Decoder} {seq : List Frame} (i : ℕ) (f : Frame)
      → Collected c id fs d
      → get_elem? fs i ≡ some f
      → Reads (accept d f) seq d'
      → Reads d (f ∷ seq) d'
  Reads-cons {d} {d'} {seq} i f v e r =
      let p = placed i f e in
      let (v', here, kept) = accept-Collected c id fs d i f v small e p in
      record {
        state = r.state;
        keeps = λ j g h. r.keeps j g (kept j g h);
        delivers = λ j g h o. elim o [
          | inl same ↦
              let q = placed j g h in
              let at : i ≡ j =
                sym p.number_eq ∙ ap (λ (x : Frame). x.frame_number) (sym same) ∙ q.number_eq in
              r.keeps j g (ap (slot (accept d f).frames) (sym at) ∙ here ∙ ap some (sym same))
          | inr later ↦ r.delivers j g h later
        ];
        origin = λ j g h. elim (r.origin j g h) [
          | inl before ↦ elim (accept_origin d i f j g v p before) [
            | inl old ↦ inl old
            | inr same ↦ inr (inl same)
          ]
          | inr later ↦ inr (inr later)
        ];
      }

  read_all-Reads :
      (d : Decoder) (seq : List Frame)
      → Collected c id fs d
      → InStream fs seq
      → Reads d seq (read_all d seq)
  unfolding read_all
  read_all-Reads d [] v i = record {
    state = v;
    keeps = λ j g h. h;
    delivers = λ j g e o. absurd o;
    origin = λ j g h. inl h;
  }
  read_all-Reads d (f ∷ seq) v ((i, e), rest) =
      let v' = (accept-Collected c id fs d i f v small e (placed i f e)).0 in
      rw (read_frame-accept d i f v e)
        (Reads-cons i f v e (read_all-Reads (accept d f) seq v' rest))

  complete :
      {d : Decoder}
      → Collected c id fs d
      → received_all d ≡ true
      → (filled d.frames ≡ length d.frames) × (length d.frames ≡ length fs)
  unfolding received_all
  complete {d} v h = ground (arith, v.ended, v.counted, filled-le-length d.frames)

  received_of_full :
      {d : Decoder}
      → Collected c id fs d
      → 0 < length fs
      → ((i : ℕ) → i < length fs → slot d.frames i ≢ none)
      → received_all d ≡ true
  unfolding received_all
  received_of_full {d} v h full =
      let reached : length fs ≤ length d.frames =
        elim (Option-cases (slot d.frames (length fs - 1))) [
          | inl free ↦ absurd (full (length fs - 1) (omega arith) free)
          | inr (g, taken) ↦ omega (arith, slot-below d.frames (length fs - 1) g taken)
        ] in
      let count = filled_of_full d.frames (λ i k. full i (omega (arith, v.short))) in
      ground (arith, v.ended, v.counted, v.short)

  -- However often and in whatever order frames of a stream are read, the decoder has received
  -- all exactly when each frame of the stream is among them.
  pub received_all_iff :
      (seq : List Frame)
      → 0 < length fs
      → InStream fs seq
      → (received_all (read_all (new_decoder id) seq) ≡ true)
        ↔ ((i : ℕ) (f : Frame) → get_elem? fs i ≡ some f → Occurs f seq)
  unfolding new_decoder slot
  received_all_iff seq h i =
      let r = read_all-Reads (new_decoder id) seq (new_decoder-Collected c id fs h) i in
      (
        λ all j f e.
            let full = complete r.state all in
            let inside = get_elem?-below fs j f e in
            let (g, there) =
              full_of_filled (read_all (new_decoder id) seq).frames j full.0 (omega arith) in
            let same : some g ≡ some f = sym (r.state.agree j g there) ∙ e in
            elim (r.origin j g there) [
              | inl before ↦ absurd (ground arith)
              | inr occurs ↦ subst (λ x. Occurs x seq) (some-injective g f same) occurs
            ],
        λ every. received_of_full r.state h (λ j k free.
            let (f, e) = get_elem?-some fs j k in
            let got = r.delivers j f e (every j f e) in ground (arith, got)),
      )

  -- A decoder that has received all of a stream, in any order, decodes to the data of its frames
  -- in the order of the stream, unpacked as their flag says.
  pub decode-read_all :
      (decompress : List ℕ → Option (List ℕ)) (seq : List Frame)
      → 0 < length fs
      → InStream fs seq
      → received_all (read_all (new_decoder id) seq) ≡ true
      → decode decompress (read_all (new_decoder id) seq) ≡ unpack decompress c (payload fs)
  unfolding decode
  decode-read_all decompress seq h i all =
      let d = read_all (new_decoder id) seq in
      let v = (read_all-Reads (new_decoder id) seq (new_decoder-Collected c id fs h) i).state in
      let full = complete v all in
      let joined : join d.frames ≡ ok (payload fs) =
        ap join (frames_of_slots d.frames fs full.1 full.0 v.agree) ∙ join-some fs in
      let ended : d.terminated ≡ true = ground (arith, v.ended, full.1) in
      let flag : d.is_compressed ≡ c = ground (arith, v.compression, v.counted, full.0, full.1) in
      rw (ended, joined, flag)
