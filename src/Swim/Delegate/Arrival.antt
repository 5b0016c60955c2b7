-- ===== src/Swim/Delegate/Arrival.antt =====
-- delegate.go with framesetdecoder.go: the frames of one stream that arrive in their order.
use wineventchain.Common.{
  ℕ, suc, ◌+◌, ◌-◌, ◌≡◌, ◌≤◌, ◌<◌, refl, sym, ap, ap₂, ◌∙◌, inl, inr, Bool, true, false, ◌||◌, List,
  [], ◌∷◌, ◌++◌, map, Option, none, some, ok, subst, leb, ◌==◌, length, set, length-append, All,
  arith, Bool-cases, bytes_eq, bytes_eq_refl,
}
use wineventchain.Swim.Frame.{Frame}
use wineventchain.Swim.Stream.{payload}
use wineventchain.Swim.Decoder.{
  Decoder, new_decoder, slot, extend, store, mark_compression, is_some, accept, read_frame,
  has_received_frame, received_all, source_name, decode, join, unpack,
}
use wineventchain.Swim.Decoder.Complete.{join-some}

-- The decoder after the frames `pre` of the stream, which are its first.
pub record InOrder (c : Bool) (id : List ℕ) (pre : List Frame) (d : Decoder) : Type 0 where
  pub same_id : d.id ≡ id
  pub frames : d.frames ≡ map some pre
  pub count : d.received_count ≡ length pre
  pub flag : 0 < length pre → d.is_compressed ≡ c
  pub numbered : All (λ f. f.frame_number < length pre) pre

-- The next frame of the stream.
pub record IsNext (c : Bool) (id : List ℕ) (pre : List Frame) (f : Frame) : Type 0 where
  pub compression : f.is_compressed ≡ c
  pub stream : f.stream_id ≡ id
  pub number : f.frame_number ≡ length pre
  pub few : length pre < 64

length-some : (fs : List Frame) → length (map some fs) ≡ length fs
length-some [] = refl
length-some (f ∷ fs) = ap suc (length-some fs)

slot-past : (fs : List Frame) → slot (map some fs) (length fs) ≡ none
unfolding slot
slot-past [] = refl
slot-past (f ∷ fs) = slot-past fs

set-past :
    (fs : List Frame) (f : Frame)
    → set (map some fs ++ (none ∷ [])) (length fs) (some f) ≡ map some (fs ++ (f ∷ []))
set-past [] f = refl
set-past (g ∷ fs) f = ap (λ l. some g ∷ l) (set-past fs f)

extend-past :
    (fs : List Frame) (n : ℕ) → n ≡ length fs → extend (map some fs) n ≡ map some fs ++ (none ∷ [])
unfolding extend
extend-past fs n e =
    let short : leb (length (map some fs)) n ≡ true = ground (arith, length-some fs) in
    let one : suc n - length (map some fs) ≡ 1 = omega (arith, length-some fs) in
    rw (short, one) refl

has_received_frame-map :
    (fs : List Frame) (n : ℕ)
    → All (λ f. f.frame_number < n) fs
    → has_received_frame (map some fs) n ≡ ok false
unfolding has_received_frame
has_received_frame-map [] n h = refl
has_received_frame-map (f ∷ fs) n h = ground (arith, has_received_frame-map fs n h.1)

module _ (c : Bool) (id : List ℕ) where
  pub new_decoder-InOrder : InOrder c id [] (new_decoder id)
  unfolding new_decoder
  new_decoder-InOrder = record {
    same_id = refl;
    frames = refl;
    count = refl;
    flag = λ h. absurd (omega arith);
    numbered = tt;
  }

  pub not_received :
      (pre : List Frame) (d : Decoder) (f : Frame)
      → InOrder c id pre d
      → IsNext c id pre f
      → has_received_frame d.frames f.frame_number ≡ ok false
  not_received pre d f o n =
      ap₂ has_received_frame o.frames n.number ∙ has_received_frame-map pre (length pre) o.numbered

  below_suc :
      (fs : List Frame) (m n : ℕ)
      → m ≤ n
      → All (λ f. f.frame_number < m) fs
      → All (λ f. f.frame_number < n) fs
  below_suc [] m n h a = tt
  below_suc (f ∷ fs) m n h a = (omega (arith, a.0), below_suc fs m n h a.1)

  All-append :
      (fs : List Frame) (f : Frame) (n : ℕ)
      → All (λ g. g.frame_number < n) fs
      → f.frame_number < n
      → All (λ g. g.frame_number < n) (fs ++ (f ∷ []))
  All-append [] f n a h = (h, tt)
  All-append (g ∷ fs) f n a h = (a.0, All-append fs f n a.1 h)

  mark_keeps :
      (d : Decoder) (f : Frame)
      → let m = mark_compression d f in
        (m.frames ≡ d.frames)
        × (m.id ≡ d.id)
        × (m.received_count ≡ d.received_count)
        × (m.terminated ≡ d.terminated)
  unfolding mark_compression
  mark_keeps d f = (ground arith, ground arith, ground arith, ground arith)

  mark_flag :
      (pre : List Frame) (d : Decoder) (f : Frame)
      → InOrder c id pre d
      → IsNext c id pre f
      → (mark_compression d f).is_compressed ≡ c
  unfolding mark_compression
  mark_flag pre d f o n = elim (Bool-cases (d.received_count == 0)) [
    | inl first ↦ ground (arith, n.compression)
    | inr later ↦ ground (arith, o.flag (ground (arith, o.count)))
  ]

  accept-store :
      (pre : List Frame) (d : Decoder) (f : Frame)
      → InOrder c id pre d
      → IsNext c id pre f
      → accept d f ≡ store (mark_compression d f) f
  unfolding accept is_some
  accept-store pre d f o n =
      let free : slot (mark_compression d f).frames f.frame_number ≡ none =
        ap₂ slot ((mark_keeps d f).0 ∙ o.frames) n.number ∙ slot-past pre in
      rw (free, is_some) refl

  stored_frames :
      (pre : List Frame) (d : Decoder) (f : Frame)
      → InOrder c id pre d
      → IsNext c id pre f
      → (store (mark_compression d f) f).frames ≡ map some (pre ++ (f ∷ []))
  unfolding store
  stored_frames pre d f o n =
      let extended : extend (mark_compression d f).frames f.frame_number
          ≡ map some pre ++ (none ∷ []) =
        ap (λ l. extend l f.frame_number) ((mark_keeps d f).0 ∙ o.frames)
        ∙ extend-past pre f.frame_number n.number in
      ap₂ (λ l i. set l i (some f)) extended n.number ∙ set-past pre f

  store-InOrder :
      (pre : List Frame) (d : Decoder) (f : Frame)
      → InOrder c id pre d
      → IsNext c id pre f
      → InOrder c id (pre ++ (f ∷ [])) (store (mark_compression d f) f)
  unfolding store
  store-InOrder pre d f o n =
      let longer : length (pre ++ (f ∷ [])) ≡ length pre + 1 = length-append pre (f ∷ []) in
      let keeps = mark_keeps d f in
      let few = n.few in
      record {
        same_id = keeps.1 ∙ o.same_id;
        frames = stored_frames pre d f o n;
        count = ground (arith, keeps.2, o.count, longer);
        flag = λ h. mark_flag pre d f o n;
        numbered =
            All-append pre f (length (pre ++ (f ∷ [])))
              (below_suc pre (length pre) (length (pre ++ (f ∷ []))) (omega (arith, longer))
                o.numbered)
              (omega (arith, longer, n.number));
      }

  -- A decoder takes the next frame of its stream.
  pub accept-InOrder :
      (pre : List Frame) (d : Decoder) (f : Frame)
      → InOrder c id pre d
      → IsNext c id pre f
      → (read_frame d f ≡ ok (accept d f))
        × InOrder c id (pre ++ (f ∷ [])) (accept d f)
        × ((accept d f).terminated ≡ (d.terminated || f.is_last))
  unfolding read_frame store
  accept-InOrder pre d f o n =
      let same : bytes_eq d.id f.stream_id ≡ true =
        ap₂ bytes_eq o.same_id n.stream ∙ bytes_eq_refl id in
      let stored = accept-store pre d f o n in
      (
        elim (Bool-cases (d.received_count == 0)) [
          | inl first ↦ ground (arith, o.count, n.number, n.few, same)
          | inr later ↦
              let flag : d.is_compressed ≡ c = o.flag (ground (arith, o.count)) in
              ground (arith, o.count, n.number, n.few, same, n.compression)
        ],
        subst (InOrder c id (pre ++ (f ∷ []))) (sym stored) (store-InOrder pre d f o n),
        ap (λ (x : Decoder). x.terminated) stored ∙ ap (λ b. b || f.is_last) (mark_keeps d f).3,
      )

  -- It has received all once the frame is the last one.
  pub received_all-InOrder :
      (pre : List Frame) (d : Decoder)
      → InOrder c id pre d
      → length pre ≤ 64
      → received_all d ≡ d.terminated
  unfolding received_all
  received_all-InOrder pre d o few =
      let size : length d.frames ≡ length pre = ap length o.frames ∙ length-some pre in
      ground (arith, o.count)

  pub decode-InOrder :
      (decompress : List ℕ → Option (List ℕ)) (pre : List Frame) (d : Decoder)
      → InOrder c id pre d
      → 0 < length pre
      → d.terminated ≡ true
      → decode decompress d ≡ unpack decompress c (payload pre)
  unfolding decode
  decode-InOrder decompress pre d o h ended =
      let joined : join d.frames ≡ ok (payload pre) = ap join o.frames ∙ join-some pre in
      rw (ended, joined, o.flag h) refl

  pub source_name-InOrder :
      (pre : List Frame) (d : Decoder) (source : List ℕ)
      → InOrder c id pre d
      → 0 < length pre
      → All (λ f. f.source ≡ source) pre
      → source_name d ≡ ok source
  unfolding source_name
  source_name-InOrder [] d source o h a = absurd (omega arith)
  source_name-InOrder (f ∷ fs) d source o h a = rw o.frames (ap ok a.0)
