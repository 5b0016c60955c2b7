-- ===== src/Swim/FrameQueue/Fragments.antt =====
-- frameset.go: what the frames of one message are.
use wineventchain.Common.{
  ℕ, suc, ◌+◌, ◌-◌, ◌%◌, ◌^◌, ◌≤◌, ◌<◌, ◌≡◌, ◌⊎◌, inl, inr, true, List, [], ◌∷◌, ◌++◌, Option, none,
  some, ok, err, leb, ◌==◌, length, slice, drop, arith, Option-cases, Outcome-cases, ap, sym, ◌∙◌,
  slice-append-drop, drop_all,
}
use wineventchain.Swim.Frame.{Frame, new_frame, calculate_max_data_bytes, header_bytes}
use wineventchain.Swim.Stream.{StreamFrom, payload, StreamFrom-cast}
use wineventchain.Swim.FrameQueue.{FrameQueue, eof, compress_first, emit, next, drain}

-- The frame `f` and the queue `q'` that a call leaves, from the queue `p` and the room `avail`.
pub record Emits (p : FrameQueue) (avail : ℕ) (q' : FrameQueue) (f : Frame) : Type 0 where
  pub state : q' ≡ record p { offset = q'.offset; frame_number = (p.frame_number + 1) % 2 ^ 16 }
  pub forward : p.offset ≤ q'.offset
  pub room : q'.offset ≤ p.offset + avail
  pub frame :
      f
      ≡ new_frame p.compressed p.id p.frame_number
          (leb (length p.bytes) q'.offset)
          p.source_name
          (slice p.bytes p.offset q'.offset)

pub emit-Emits :
    (p : FrameQueue) (avail : ℕ) (q' : FrameQueue) (f : Frame)
    → emit p avail ≡ (q', ok f)
    → p.offset ≤ length p.bytes
    → Emits p avail q' f × (q'.offset ≤ length p.bytes)
unfolding emit
emit-Emits p avail q' f h k = ground arith

-- A call that returns a frame: the queue `p` that is cut, after any compression.
pub record Sends (compress : List ℕ → Option (List ℕ)) (q : FrameQueue) (mtu : ℕ) (q' : FrameQueue)
    (f : Frame) : Type 0 where
  pub cut : FrameQueue
  pub avail : ℕ
  pub prepared : compress_first compress q avail ≡ some cut
  pub pending : q.offset < length q.bytes
  pub number : q.frame_number < 64
  pub size : header_bytes q.source_name + avail ≡ mtu
  pub emitted : emit cut avail ≡ (q', ok f)

pub next-Sends :
    (compress : List ℕ → Option (List ℕ)) (q : FrameQueue) (mtu : ℕ) (q' : FrameQueue) (f : Frame)
    → next compress q mtu ≡ (q', ok f)
    → Sends compress q mtu q' f
unfolding next calculate_max_data_bytes
next-Sends compress q mtu q' f h =
    elim (Option-cases (compress_first compress q (mtu - header_bytes q.source_name))) [
      | inl e ↦ absurd (ground arith)
      | inr (p, e) ↦ record {
        cut = p;
        avail = mtu - header_bytes q.source_name;
        prepared = e;
        pending = ground arith;
        number = ground arith;
        size = ground arith;
        emitted = ground arith;
      }
    ]

-- Only the first frame compresses.
pub compress_first_later :
    (compress : List ℕ → Option (List ℕ)) (q : FrameQueue) (avail : ℕ) (p : FrameQueue)
    → compress_first compress q avail ≡ some p
    → (0 < q.frame_number) ⊎ (q.compressed ≡ true)
    → p ≡ q
unfolding compress_first
compress_first_later compress q avail p h k = ground arith

pub next-eof :
    (compress : List ℕ → Option (List ℕ)) (q : FrameQueue) (mtu : ℕ)
    → (next compress q mtu).1 ≡ err eof
    → length q.bytes ≤ q.offset
unfolding next calculate_max_data_bytes emit
next-eof compress q mtu h = ground arith

-- The frames `fs` carry what is left of the queue `q`.
abbrev pub Cuts : FrameQueue → List Frame → Type 0
Cuts q fs =
    StreamFrom q.compressed q.id q.frame_number (q.frame_number + length fs) fs
    × (payload fs ≡ drop q.offset q.bytes)
    × (q.frame_number + length fs ≤ 64)

-- Nothing is left exactly when there are no frames.
abbrev pub EndsWith : FrameQueue → List Frame → Type 0
EndsWith q fs = leb (length q.bytes) q.offset ≡ (length fs == 0)

pub Emits-Cuts :
    (p q' : FrameQueue) (avail : ℕ) (f : Frame) (fs : List Frame)
    → Emits p avail q' f
    → p.frame_number < 64
    → Cuts q' fs
    → EndsWith q' fs
    → Cuts p (f ∷ fs)
unfolding new_frame
Emits-Cuts p q' avail f fs e n c done =
    let same_compressed : q'.compressed ≡ p.compressed =
      ap (λ (q : FrameQueue). q.compressed) e.state in
    let same_id : q'.id ≡ p.id = ap (λ (q : FrameQueue). q.id) e.state in
    let same_bytes : q'.bytes ≡ p.bytes = ap (λ (q : FrameQueue). q.bytes) e.state in
    let number : q'.frame_number ≡ suc p.frame_number =
      ap (λ (q : FrameQueue). q.frame_number) e.state ∙ omega arith in
    let last : leb (length p.bytes) q'.offset ≡ (length fs == 0) =
      ap (λ (t : List ℕ). leb (length t) q'.offset) (sym same_bytes) ∙ done in
    let cut : slice p.bytes p.offset q'.offset ++ payload fs ≡ drop p.offset p.bytes =
      ap (◌++◌ (slice p.bytes p.offset q'.offset)) (c.1 ∙ ap (drop q'.offset) same_bytes)
      ∙ slice-append-drop p.bytes p.offset q'.offset e.forward in
    (
      (
        ap (λ (g : Frame). g.is_compressed) e.frame,
        ap (λ (g : Frame). g.stream_id) e.frame,
        ap (λ (g : Frame). g.frame_number) e.frame,
        ap (λ (g : Frame). g.is_last) e.frame ∙ last ∙ ground arith,
        StreamFrom-cast fs same_compressed same_id number (omega arith) c.0,
      ),
      ap (λ (g : Frame). g.body ++ payload fs) e.frame ∙ cut,
      omega arith,
    )

-- A call that returns the frame `f`, as an inversion with the queue that it leaves.
pub sent :
    (compress : List ℕ → Option (List ℕ)) (q : FrameQueue) (mtu : ℕ) (f : Frame)
    → (next compress q mtu).1 ≡ ok f
    → Sends compress q mtu (next compress q mtu).0 f
sent compress q mtu f r =
    next-Sends compress q mtu (next compress q mtu).0 f (ap (λ o. ((next compress q mtu).0, o)) r)

pub later_cut :
    {compress : List ℕ → Option (List ℕ)} {q : FrameQueue} {mtu : ℕ} {q' : FrameQueue} {f : Frame}
    → (s : Sends compress q mtu q' f) → 0 < q.frame_number
    → Emits q s.avail q' f × (q'.offset ≤ length q.bytes)
later_cut {compress} {q} {mtu} {q'} {f} s h =
    let same : s.cut ≡ q = compress_first_later compress q s.avail s.cut s.prepared (inl h) in
    emit-Emits q s.avail q' f (rw (← same) s.emitted) (omega (arith, s.pending))

pub later_number :
    {q q' : FrameQueue} {avail : ℕ} {f : Frame}
    → Emits q avail q' f
    → q.frame_number < 64
    → q'.frame_number ≡ suc q.frame_number
later_number e h = ap (λ (q : FrameQueue). q.frame_number) e.state ∙ omega arith

pub drain-EndsWith :
    (compress : List ℕ → Option (List ℕ)) (q : FrameQueue) (mtus : List ℕ)
    → (drain compress q mtus).1 ≡ some eof
    → EndsWith q (drain compress q mtus).0
unfolding drain
drain-EndsWith compress q [] e = absurd (ground arith)
drain-EndsWith compress q (mtu ∷ mtus) e = elim (Outcome-cases (next compress q mtu).1) [
  | inl (f, r) ↦ rw (r, drain) (let s = sent compress q mtu f r in ground (arith, s.pending))
  | inr (inl (x, r)) ↦
      rw (r, drain)
        (let stop : some x ≡ some eof = rw (r, drain) at e in
          let done = next-eof compress q mtu (ground arith) in ground arith)
  | inr (inr r) ↦ absurd (let stop : none ≡ some eof = rw (r, drain) at e in ground arith)
]

pub drain-Cuts :
    (compress : List ℕ → Option (List ℕ)) (q : FrameQueue) (mtus : List ℕ)
    → 0 < q.frame_number
    → q.frame_number ≤ 64
    → (drain compress q mtus).1 ≡ some eof
    → Cuts q (drain compress q mtus).0
unfolding drain
drain-Cuts compress q [] h k e = absurd (ground arith)
drain-Cuts compress q (mtu ∷ mtus) h k e = elim (Outcome-cases (next compress q mtu).1) [
  | inl (f, r) ↦
      rw (r, drain)
        (let s = sent compress q mtu f r in
          let em = (later_cut s h).0 in
          let q' = (next compress q mtu).0 in
          let end : (drain compress q' mtus).1 ≡ some eof = rw (r, drain) at e in
          let number = later_number em s.number in
          Emits-Cuts q q' s.avail f _ em s.number
            (drain-Cuts compress q' mtus (omega arith) (omega (arith, s.number)) end)
            (drain-EndsWith compress q' mtus end))
  | inr (inl (x, r)) ↦
      rw (r, drain)
        (let stop : some x ≡ some eof = rw (r, drain) at e in
          let done = next-eof compress q mtu (ground arith) in
          (omega arith, sym (drop_all q.offset q.bytes done), omega arith))
  | inr (inr r) ↦ absurd (let stop : none ≡ some eof = rw (r, drain) at e in ground arith)
]
