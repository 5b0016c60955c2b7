-- ===== src/Swim/Delivery.antt =====
-- The transport of one message, from the queue that cuts it up to the decoder that joins it
-- (frameset.go, frame.go and framesetdecoder.go together).
use wineventchain.Common.{
  ℕ, zero, suc, ◌^◌, ◌≤◌, ◌<◌, ◌≡◌, refl, sym, ap, ◌∙◌, ◌⊎◌, inl, inr, Bool, true, false, List, [],
  ◌∷◌, map, Option, none, some, ok, length, drop, leb, ◌==◌, arith, Outcome-cases, All, append-nil,
  get_elem?, some-injective, subst, ◌↔◌,
}
use wineventchain.Swim.Frame.{Frame, marshal, unmarshal}
use wineventchain.Swim.Frame.RoundTrip.{IsWellFormed, unmarshal-marshal}
use wineventchain.Swim.Stream.{StreamFrom, payload, StreamFrom-cast}
use wineventchain.Swim.FrameQueue.{FrameQueue, eof, compress_first, next, drain, new_frame_queue}
use wineventchain.Swim.FrameQueue.Fragments.{
  Cuts, emit-Emits, Sends, sent, next-eof, drain-Cuts, drain-EndsWith, Emits-Cuts, later_number,
}
use wineventchain.Swim.FrameQueue.Progress.{drain-IsWellFormed}
use wineventchain.Swim.Decoder.{
  Decoder, read_frame, read_bytes, read_all, receive, new_decoder, received_all, decode, unpack,
}
use wineventchain.Swim.Decoder.Complete.{InStream, Occurs, received_all_iff, decode-read_all}

-- What the frames carry: the message itself, or its compression.
abbrev pub Packed : (List ℕ → Option (List ℕ)) → List ℕ → Bool → List Frame → Type 0
Packed compress msg c fs =
    ((c ≡ false) × (payload fs ≡ msg)) ⊎ ((c ≡ true) × (compress msg ≡ some (payload fs)))

first_cut :
    (compress : List ℕ → Option (List ℕ)) (id source msg : List ℕ) (avail : ℕ) (p : FrameQueue)
    → compress_first compress (new_frame_queue id source msg) avail ≡ some p
    → (p.id ≡ id)
      × (p.offset ≡ 0)
      × (p.frame_number ≡ 0)
      × (((p.compressed ≡ false) × (p.bytes ≡ msg))
          ⊎ ((p.compressed ≡ true) × (compress msg ≡ some p.bytes)))
unfolding compress_first new_frame_queue
first_cut compress id source msg avail p h = ground arith

pub record Transmits (compress : List ℕ → Option (List ℕ)) (id msg : List ℕ) (fs : List Frame)
    : Type 0 where
  pub compressed : Bool
  pub stream : StreamFrom compressed id 0 (length fs) fs
  pub packed : Packed compress msg compressed fs
  pub some_frames : 0 < length fs
  pub few_frames : length fs ≤ 64

first_frame :
    (compress : List ℕ → Option (List ℕ)) (id source msg : List ℕ) (mtu : ℕ) (q' : FrameQueue)
    (f : Frame) (fs : List Frame)
    → Sends compress (new_frame_queue id source msg) mtu q' f
    → ((0 < q'.frame_number) → (q'.frame_number ≤ 64) → Cuts q' fs)
    → leb (length q'.bytes) q'.offset ≡ (length fs == 0)
    → Transmits compress id msg (f ∷ fs)
first_frame compress id source msg mtu q' f fs s rest done =
    let k = first_cut compress id source msg s.avail s.cut s.prepared in
    let e = emit-Emits s.cut s.avail q' f s.emitted (omega (arith, k.1)) in
    let n = later_number e.0 (omega (arith, k.2)) in
    let cuts =
      Emits-Cuts s.cut q' s.avail f fs e.0 (omega (arith, k.2))
        (rest (omega (arith, k.2)) (omega (arith, k.2))) done in
    let whole : payload (f ∷ fs) ≡ s.cut.bytes = cuts.1 ∙ ap (λ o. drop o s.cut.bytes) k.1 in
    record {
      compressed = s.cut.compressed;
      stream = StreamFrom-cast (f ∷ fs) refl k.0 k.2 (omega (arith, k.2)) cuts.0;
      packed = elim k.3 [
        | inl (flag, same) ↦ inl (flag, whole ∙ same)
        | inr (flag, out) ↦ inr (flag, out ∙ ap some (sym whole))
      ];
      some_frames = omega arith;
      few_frames = omega (arith, cuts.2);
    }

fresh_pending :
    (id source msg : List ℕ)
    → 0 < length msg
    → ¬ (length (new_frame_queue id source msg).bytes ≤ (new_frame_queue id source msg).offset)
unfolding new_frame_queue
fresh_pending id source msg h k = omega arith

-- When Next has returned the end of the queue of a message, the frames before it are a stream of
-- 1 to 64 frames that carry the message or its compression, for any sequence of MTUs.
pub new_frame_queue-Transmits :
    (compress : List ℕ → Option (List ℕ)) (id source msg mtus : List ℕ)
    → 0 < length msg
    → (drain compress (new_frame_queue id source msg) mtus).1 ≡ some eof
    → Transmits compress id msg (drain compress (new_frame_queue id source msg) mtus).0
unfolding drain
new_frame_queue-Transmits compress id source msg [] h e = absurd (ground arith)
new_frame_queue-Transmits compress id source msg (mtu ∷ mtus) h e =
    let q = new_frame_queue id source msg in
    let q' = (next compress q mtu).0 in
    elim (Outcome-cases (next compress q mtu).1) [
      | inl (f, r) ↦
          rw (r, drain)
            (let end : (drain compress q' mtus).1 ≡ some eof = rw (r, drain) at e in
              first_frame compress id source msg mtu q' f _ (sent compress q mtu f r)
                (λ n m. drain-Cuts compress q' mtus n m end) (drain-EndsWith compress q' mtus end))
      | inr (inl (x, r)) ↦
          let stop : some x ≡ some eof = rw (r, drain) at e in
          let done = next-eof compress q mtu (ground arith) in
          absurd (fresh_pending id source msg h done)
      | inr (inr r) ↦ absurd (let stop : none ≡ some eof = rw (r, drain) at e in ground arith)
    ]

All-get_elem? {ℓ} :
    (P : Frame → Type ℓ) (fs : List Frame) (i : ℕ) (f : Frame)
    → All P fs
    → get_elem? fs i ≡ some f
    → P f
All-get_elem? P [] i f a e = absurd (ground arith)
All-get_elem? P (x ∷ fs) zero f a e = subst P (some-injective x f e) a.0
All-get_elem? P (x ∷ fs) (suc i) f a e = All-get_elem? P fs i f a.1 e

read_bytes-marshal :
    (d : Decoder) (spare : List ℕ) (f : Frame)
    → IsWellFormed f
    → read_bytes d (marshal f) spare ≡ read_frame d f
unfolding read_bytes
read_bytes-marshal d spare f w =
    let read : unmarshal (marshal f) spare ≡ ok f =
      ap (λ t. unmarshal t spare) (sym (append-nil (marshal f))) ∙ unmarshal-marshal f [] spare w in
    rw (read, read_bytes)

-- Reading the bytes of frames is reading the frames.
receive-read_all :
    (spare : List ℕ) (fs seq : List Frame) (d : Decoder)
    → All IsWellFormed fs
    → InStream fs seq
    → receive d spare (map marshal seq) ≡ read_all d seq
unfolding receive read_all
receive-read_all spare fs [] d a i = refl
receive-read_all spare fs (f ∷ seq) d a ((i, e), rest) =
    rw (read_bytes-marshal d spare f (All-get_elem? IsWellFormed fs i f a e), receive)
      (receive-read_all spare fs seq _ a rest)

pub unpack-Packed :
    (compress decompress : List ℕ → Option (List ℕ)) (msg : List ℕ) (c : Bool) (fs : List Frame)
    → ((bs out : List ℕ) → compress bs ≡ some out → decompress out ≡ some bs)
    → Packed compress msg c fs
    → unpack decompress c (payload fs) ≡ ok msg
unfolding unpack
unpack-Packed compress decompress msg c fs law (inl (flag, same)) = rw (flag, same)
unpack-Packed compress decompress msg c fs law (inr (flag, out)) =
    rw (flag, law msg (payload fs) out, unpack)

-- A message is delivered whole: its frames, sent for any MTUs and received in any order and
-- however often, are recognised as complete exactly when each has arrived, and then decode to
-- the message. zlib is assumed to decompress what it compresses.
pub delivery :
    (compress decompress : List ℕ → Option (List ℕ)) (id source msg mtus spare : List ℕ)
    (seq : List Frame)
    → ((bs out : List ℕ) → compress bs ≡ some out → decompress out ≡ some bs)
    → length id ≡ 16
    → length source < 2 ^ 16
    → All (λ mtu. mtu < 2 ^ 32) mtus
    → 0 < length msg
    → (drain compress (new_frame_queue id source msg) mtus).1 ≡ some eof
    → InStream (drain compress (new_frame_queue id source msg) mtus).0 seq
    → let d = receive (new_decoder id) spare (map marshal seq) in
      ((received_all d ≡ true) ↔ (
        (i : ℕ) (f : Frame)
        → get_elem? (drain compress (new_frame_queue id source msg) mtus).0 i ≡ some f
        → Occurs f seq))
      × (received_all d ≡ true → decode decompress d ≡ ok msg)
unfolding new_frame_queue
delivery compress decompress id source msg mtus spare seq law uuid named small h e i =
    let fs = (drain compress (new_frame_queue id source msg) mtus).0 in
    let t = new_frame_queue-Transmits compress id source msg mtus h e in
    let a = drain-IsWellFormed compress (new_frame_queue id source msg) mtus uuid named small in
    rw (receive-read_all spare fs seq (new_decoder id) a i) (
      received_all_iff t.compressed id fs t.stream t.few_frames seq t.some_frames i,
      λ all.
          decode-read_all t.compressed id fs t.stream t.few_frames decompress seq t.some_frames i
            all
          ∙ unpack-Packed compress decompress msg t.compressed fs law t.packed,
    )
