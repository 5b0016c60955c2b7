-- ===== src/Swim/Delegate/Transport.antt =====
-- From the queue of a message (frameset.go) to the delegate that receives its frames (delegate.go).
use wineventchain.Common.{
  ℕ, suc, ◌≡◌, ◌<◌, ◌^◌, refl, sym, ap, ◌∙◌, inl, inr, List, [], ◌∷◌, map, Option, none, some, ok,
  subst, length, All, arith, Outcome-cases, lookup,
}
use wineventchain.Swim.Frame.{Frame, new_frame}
use wineventchain.Swim.Frame.RoundTrip.{IsWellFormed}
use wineventchain.Swim.Stream.{StreamFrom, StreamFrom-cast, payload}
use wineventchain.Swim.FrameQueue.{
  FrameQueue, eof, new_frame_queue, compress_first, emit, next_with, next, drain,
}
use wineventchain.Swim.FrameQueue.Progress.{drain-IsWellFormed}
use wineventchain.Swim.Decoder.{unpack}
use wineventchain.Swim.Delivery.{new_frame_queue-Transmits, unpack-Packed}
use wineventchain.Swim.Delegate.{Delegate}
use wineventchain.Swim.Delegate.Inbound.{handle_all, datagram, frame_of}
use wineventchain.Swim.Delegate.InOrder.{handle_all_in_order}

module _ (compress : List ℕ → Option (List ℕ)) where
  next_source :
      (q : FrameQueue) (mtu : ℕ) (f : Frame)
      → (next compress q mtu).1 ≡ ok f
      → (f.source ≡ q.source_name) × ((next compress q mtu).0.source_name ≡ q.source_name)
  unfolding next next_with emit compress_first new_frame
  next_source q mtu f r = (ground arith, ground arith)

  drain-source :
      (q : FrameQueue) (mtus : List ℕ)
      → All (λ f. f.source ≡ q.source_name) (drain compress q mtus).0
  unfolding drain
  drain-source q [] = tt
  drain-source q (mtu ∷ mtus) = elim (Outcome-cases (next compress q mtu).1) [
    | inl (f, r) ↦
        let (here, same) = next_source q mtu f r in
        let q' = (next compress q mtu).0 in
        rw (r, drain)
          (
            here,
            subst (λ s. All (λ g. g.source ≡ s) (drain compress q' mtus).0) same
                (drain-source q' mtus),
          )
    | inr (inl (x, r)) ↦ rw (r, drain) tt
    | inr (inr r) ↦ rw (r, drain) tt
  ]

length-frames : (ts : List (ℕ × Frame)) → length (map frame_of ts) ≡ length ts
length-frames [] = refl
length-frames (t ∷ ts) = ap suc (length-frames ts)

-- Another node receives a message as it was sent: where the frames of a message of `source`, cut
-- for any MTUs, arrive in their order at a delegate that does not know the stream yet, the delegate
-- passes on one message, which is the one that was sent, and its source; the stream then has no
-- decoder and no time of its last frame any more, while the numbers of its frames stay noted. zlib is
-- assumed to decompress what it compresses.
pub handle_all-drain :
    (compress decompress : List ℕ → Option (List ℕ)) (id source msg mtus spare : List ℕ)
    (d : Delegate) (ts : List (ℕ × Frame))
    → ((bs out : List ℕ) → compress bs ≡ some out → decompress out ≡ some bs)
    → length id ≡ 16
    → length source < 2 ^ 16
    → All (λ mtu. mtu < 2 ^ 32) mtus
    → 0 < length msg
    → (drain compress (new_frame_queue id source msg) mtus).1 ≡ some eof
    → map frame_of ts ≡ (drain compress (new_frame_queue id source msg) mtus).0
    → lookup d.decoders id ≡ none
    → (d' : Delegate) × (handle_all decompress spare d (map datagram ts)
        ≡ some (d', record { source = source; body = msg } ∷ []))
      × (lookup d'.decoders id ≡ none)
      × (lookup d'.last_seen id ≡ none)
unfolding new_frame_queue
handle_all-drain compress decompress id source msg mtus spare d ts law uuid named small h e same
      unknown =
    let fs = (drain compress (new_frame_queue id source msg) mtus).0 in
    let t = new_frame_queue-Transmits compress id source msg mtus h e in
    let formed =
      drain-IsWellFormed compress (new_frame_queue id source msg) mtus uuid named small in
    let size : length ts ≡ length fs = sym (length-frames ts) ∙ ap length same in
    let stream : StreamFrom t.compressed id 0 (length ts) (map frame_of ts) =
      subst (λ l. StreamFrom t.compressed id 0 (length ts) l) (sym same)
        (StreamFrom-cast fs refl refl refl (sym size) t.stream) in
    handle_all_in_order decompress spare t.compressed id source d ts msg unknown
      (omega (arith, size, t.some_frames)) (omega (arith, size, t.few_frames)) stream
      (subst (All IsWellFormed) (sym same) formed)
      (subst (All (λ f. f.source ≡ source)) (sym same)
        (drain-source compress (new_frame_queue id source msg) mtus))
      (ap (λ l. unpack decompress t.compressed (payload l)) same
        ∙ unpack-Packed compress decompress msg t.compressed fs law t.packed)
