-- ===== src/Swim/FrameQueue/Progress.antt =====
-- frameset.go: the sizes of the frames of one message, and how many calls cut it up.
use wineventchain.Common.{
  ℕ, ◌+◌, ◌-◌, ◌%◌, ◌^◌, ◌≤◌, ◌<◌, ◌≡◌, ap, ◌∙◌, inl, inr, List, [], ◌∷◌, Option, some, ok, ltb,
  if◌then◌else◌, length, drop, take, length-take, arith, Outcome-cases, All,
}
use wineventchain.Swim.Frame.{Frame, new_frame, header_bytes, marshal}
use wineventchain.Swim.Frame.RoundTrip.{IsWellFormed, length-marshal}
use wineventchain.Swim.FrameQueue.{FrameQueue, compress_first, emit, next_with, next, drain}
use wineventchain.Swim.FrameQueue.Fragments.{next-Sends}

-- Compression changes only the bytes and the flag.
compress_first_keeps :
    (compress : List ℕ → Option (List ℕ)) (q : FrameQueue) (avail : ℕ) (p : FrameQueue)
    → compress_first compress q avail ≡ some p
    → (p.id ≡ q.id)
      × (p.source_name ≡ q.source_name)
      × (p.offset ≡ q.offset)
      × (p.frame_number ≡ q.frame_number)
unfolding compress_first
compress_first_keeps compress q avail p h = ground arith

-- The frame that a call returns, by its sizes.
pub record Sizes (q : FrameQueue) (mtu : ℕ) (f : Frame) : Type 0 where
  pub id : f.stream_id ≡ q.id
  pub source : f.source ≡ q.source_name
  pub number : f.frame_number < 64
  pub room : header_bytes q.source_name + length f.body ≤ mtu

length-take-le : (n : ℕ) (xs : List ℕ) → length (take n xs) ≤ n
length-take-le n xs = omega (arith, length-take n xs)

emit_sizes :
    (p : FrameQueue) (avail : ℕ) (q' : FrameQueue) (f : Frame)
    → emit p avail ≡ (q', ok f)
    → (f.stream_id ≡ p.id)
      × (f.source ≡ p.source_name)
      × (f.frame_number ≡ p.frame_number)
      × (length f.body ≤ avail)
unfolding emit new_frame
emit_sizes p avail q' f h =
    let limit = (p.offset + avail) % 2 ^ 64 in
    let end = if ltb (length p.bytes) limit then length p.bytes else limit in
    ground (arith, length-take-le (end - p.offset) (drop p.offset p.bytes))

pub next-Sizes :
    (compress : List ℕ → Option (List ℕ)) (q : FrameQueue) (mtu : ℕ) (q' : FrameQueue) (f : Frame)
    → next compress q mtu ≡ (q', ok f)
    → Sizes q mtu f
unfolding header_bytes
next-Sizes compress q mtu q' f h =
    let s = next-Sends compress q mtu q' f h in
    let k = compress_first_keeps compress q s.avail s.cut s.prepared in
    let e = emit_sizes s.cut s.avail q' f s.emitted in
    record {
      id = e.0 ∙ k.0;
      source = e.1 ∙ k.1;
      number = omega (arith, s.number, e.2, k.3);
      room = omega (arith, s.size, e.3);
    }

-- A frame that Next returns for an MTU is, on the wire and with its checksum, no longer than the
-- MTU.
pub length-marshal-next :
    (compress : List ℕ → Option (List ℕ)) (q : FrameQueue) (mtu : ℕ) (q' : FrameQueue) (f : Frame)
    → length q.id ≡ 16
    → next compress q mtu ≡ (q', ok f)
    → length (marshal f) ≤ mtu
unfolding header_bytes
length-marshal-next compress q mtu q' f uuid h =
    let z = next-Sizes compress q mtu q' f h in
    omega (arith, length-marshal f (ap length z.id ∙ uuid), ap length z.source, z.room)

-- The fields of a frame are in the ranges of its format.
next-IsWellFormed :
    (compress : List ℕ → Option (List ℕ)) (q : FrameQueue) (mtu : ℕ) (q' : FrameQueue) (f : Frame)
    → length q.id ≡ 16
    → length q.source_name < 2 ^ 16
    → mtu < 2 ^ 32
    → next compress q mtu ≡ (q', ok f)
    → IsWellFormed f
unfolding header_bytes
next-IsWellFormed compress q mtu q' f uuid named small h =
    let z = next-Sizes compress q mtu q' f h in
    record {
      stream = ap length z.id ∙ uuid;
      number = omega (arith, z.number);
      source = omega (arith, ap length z.source);
      body = omega (arith, z.room);
    }

next_keeps :
    (compress : List ℕ → Option (List ℕ)) (q : FrameQueue) (mtu : ℕ)
    → ((next compress q mtu).0.id ≡ q.id) × ((next compress q mtu).0.source_name ≡ q.source_name)
unfolding next next_with compress_first emit
next_keeps compress q mtu = ground arith

pub drain-IsWellFormed :
    (compress : List ℕ → Option (List ℕ)) (q : FrameQueue) (mtus : List ℕ)
    → length q.id ≡ 16
    → length q.source_name < 2 ^ 16
    → All (λ mtu. mtu < 2 ^ 32) mtus
    → All IsWellFormed (drain compress q mtus).0
unfolding drain
drain-IsWellFormed compress q [] uuid named small = tt
drain-IsWellFormed compress q (mtu ∷ mtus) uuid named small =
    elim (Outcome-cases (next compress q mtu).1) [
      | inl (f, r) ↦
          let k = next_keeps compress q mtu in
          rw (r, drain)
            (
              next-IsWellFormed compress q mtu (next compress q mtu).0 f uuid named small.0
                  (ap (λ o. ((next compress q mtu).0, o)) r),
              drain-IsWellFormed compress (next compress q mtu).0 mtus (ap length k.0 ∙ uuid)
                  (omega (arith, ap length k.1)) small.1,
            )
      | inr (inl (x, r)) ↦ rw (r, drain) tt
      | inr (inr r) ↦ rw (r, drain) tt
    ]
