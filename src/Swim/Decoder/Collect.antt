-- ===== src/Swim/Decoder/Collect.antt =====
-- framesetdecoder.go: the frames of one stream, read in any order and any number of times.
use wineventchain.Common.{
  ℕ, zero, suc, ◌+◌, ◌≤◌, ◌<◌, ◌≡◌, refl, sym, ap, ap₂, ◌∙◌, ◌⊎◌, inl, inr, Bool, List, [], ◌∷◌,
  none, some, ◌==◌, if◌then◌else◌, length, get_elem?, length-set, arith, some-injective,
  Option-cases, Bool-cases,
}
use wineventchain.Swim.Frame.{Frame}
use wineventchain.Swim.Stream.{StreamFrom}
use wineventchain.Swim.Decoder.{
  Decoder, slot, extend, accept, mark_compression, store, new_decoder, is_some,
}
use wineventchain.Swim.Decoder.Slots.{
  filled, filled-le-length, slot-extend, length-extend, filled-extend, filled-set, slot-set,
}

-- A frame of a stream is known by its place.
pub record Place (c : Bool) (id : List ℕ) (number total : ℕ) (f : Frame) : Type 0 where
  pub compression : f.is_compressed ≡ c
  pub stream : f.stream_id ≡ id
  pub number_eq : f.frame_number ≡ number
  pub last : f.is_last ≡ (suc number == total)
  pub below : number < total

StreamFrom-length :
    (c : Bool) (id : List ℕ) (n total : ℕ) (fs : List Frame)
    → StreamFrom c id n total fs
    → n + length fs ≡ total
StreamFrom-length c id n total [] st = omega arith
StreamFrom-length c id n total (f ∷ fs) st =
    omega (arith, StreamFrom-length c id (suc n) total fs st.4)

pub place :
    (c : Bool) (id : List ℕ) (n total i : ℕ) (fs : List Frame) (f : Frame)
    → StreamFrom c id n total fs
    → get_elem? fs i ≡ some f
    → Place c id (n + i) total f
place c id n total i [] f st e = absurd (ground arith)
place c id n total zero (x ∷ fs) f st e =
    let same : x ≡ f = some-injective x f e in
    let r : n ≡ n + 0 = omega arith in
    rw (← same, ← r)
      (record {
        compression = st.0;
        stream = st.1;
        number_eq = st.2;
        last = st.3;
        below = omega (arith, StreamFrom-length c id (suc n) total fs st.4);
      })
place c id n total (suc i) (x ∷ fs) f st e =
    let r : suc n + i ≡ n + suc i = omega arith in rw (← r) (place c id (suc n) total i fs f st.4 e)

pub slot-store :
    (d : Decoder) (f : Frame) (j : ℕ)
    → slot (store d f).frames j ≡ (if f.frame_number == j then some f else slot d.frames j)
unfolding store
slot-store d f j =
    let inside : f.frame_number < length (extend d.frames f.frame_number) =
      ground (arith, length-extend d.frames f.frame_number) in
    ground (
      arith,
      slot-set (extend d.frames f.frame_number) f.frame_number j f inside,
      slot-extend d.frames f.frame_number j,
    )

-- What the decoder knows of the stream `fs`: its slots hold frames of it at their places, it
-- counts them, and it has ended exactly when the slots reach the end of the stream.
module _ (c : Bool) (id : List ℕ) (fs : List Frame) where
  pub record Collected (d : Decoder) : Type 0 where
    pub same_id : d.id ≡ id
    pub compression : (d.received_count ≡ 0) ⊎ (d.is_compressed ≡ c)
    pub agree : (i : ℕ) (g : Frame) → slot d.frames i ≡ some g → get_elem? fs i ≡ some g
    pub short : length d.frames ≤ length fs
    pub counted : d.received_count ≡ filled d.frames
    pub ended : d.terminated ≡ (length d.frames == length fs)

  pub new_decoder-Collected : 0 < length fs → Collected (new_decoder id)
  unfolding new_decoder slot
  new_decoder-Collected h = record {
    same_id = refl;
    compression = inl refl;
    agree = λ i g e. absurd (ground arith);
    short = omega arith;
    counted = refl;
    ended = ground arith;
  }

  store-Collected :
      (d : Decoder) (i : ℕ) (f : Frame)
      → Collected d
      → length fs ≤ 64
      → d.is_compressed ≡ c
      → get_elem? fs i ≡ some f
      → Place c id i (length fs) f
      → slot d.frames i ≡ none
      → Collected (store d f)
  unfolding store
  store-Collected d i f v small flag e p free =
      let n = f.frame_number in
      let len = length-extend d.frames n in
      let inside : n < length (extend d.frames n) = ground arith in
      let empty : slot (extend d.frames n) n ≡ none =
        slot-extend d.frames n n ∙ ap (slot d.frames) p.number_eq ∙ free in
      let written = length-set (extend d.frames n) n (some f) in
      let one_more =
        filled-set (extend d.frames n) n f inside empty ∙ ap suc (filled-extend d.frames n) in
      let few = filled-le-length d.frames in
      record {
        same_id = v.same_id;
        compression = inr flag;
        agree = λ j g h. ground (
          arith,
          slot-set (extend d.frames n) n j f inside,
          slot-extend d.frames n j,
          v.agree j g,
        );
        short = ground arith;
        counted = ground arith;
        ended = ground arith;
      }

  pub mark_compression-Collected :
      (d : Decoder) (i : ℕ) (f : Frame)
      → Collected d
      → Place c id i (length fs) f
      → Collected (mark_compression d f)
        × ((mark_compression d f).is_compressed ≡ c)
        × ((mark_compression d f).frames ≡ d.frames)
  unfolding mark_compression
  mark_compression-Collected d i f v p = elim (Bool-cases (d.received_count == 0)) [
    | inl first ↦ rw first (
      record {
        same_id = v.same_id;
        compression = inr p.compression;
        agree = v.agree;
        short = v.short;
        counted = v.counted;
        ended = v.ended;
      },
      p.compression,
      refl,
    )
    | inr later ↦ rw later (v, ground (arith, v.compression), refl)
  ]

  -- A frame of the stream is accepted, and is then in its slot, with all that was there before.
  pub accept-Collected :
      (d : Decoder) (i : ℕ) (f : Frame)
      → Collected d
      → length fs ≤ 64
      → get_elem? fs i ≡ some f
      → Place c id i (length fs) f
      → Collected (accept d f)
        × (slot (accept d f).frames i ≡ some f)
        × ((j : ℕ) (g : Frame) → slot d.frames j ≡ some g → slot (accept d f).frames j ≡ some g)
  unfolding accept is_some
  accept-Collected d i f v small e p =
      let (v', flag, same) = mark_compression-Collected d i f v p in
      let here : slot (mark_compression d f).frames f.frame_number ≡ slot d.frames i =
        ap₂ slot same p.number_eq in
      elim (Option-cases (slot d.frames i)) [
        | inl free ↦
            rw (here, free)
              (
                store-Collected (mark_compression d f) i f v' small flag e p
                    (ap (λ t. slot t i) same ∙ free),
                slot-store (mark_compression d f) f i ∙ ground (arith, p.number_eq),
                λ j g h.
                    slot-store (mark_compression d f) f j
                    ∙ ground (arith, p.number_eq, ap (λ t. slot t j) same),
              )
        | inr (g, taken) ↦
            rw (here, taken)
              (
                v',
                ap (λ t. slot t i) same ∙ taken ∙ sym (v.agree i g taken) ∙ e,
                λ j g h. ap (λ t. slot t j) same ∙ h,
              )
      ]
