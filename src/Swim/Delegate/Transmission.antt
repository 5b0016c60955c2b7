-- ===== src/Swim/Delegate/Transmission.antt =====
-- delegate.go with frameset.go: how a message that is sent becomes broadcasts.
use wineventchain.Common.{
  ℕ, ◌+◌, ◌-◌, ◌*◌, ◌≡◌, ◌≤◌, ◌<◌, refl, sym, ap, ◌∙◌, inl, inr, true, false, List, [], ◌∷◌, ◌++◌,
  map, append-nil, append_assoc, Option, none, some, ok, err, panic, subst, ltb, leb, length,
  replicate, All, arith, Option-cases, Outcome-cases,
}
use wineventchain.Swim.Frame.{Frame, marshal}
use wineventchain.Swim.FrameQueue.{FrameQueue, NextError, eof, new_frame_queue, next, drain}
use wineventchain.Swim.FrameQueue.Fragments.{next-eof}
use wineventchain.Swim.Delegate.{
  Delegate, RetransmissionFrame, send, transmit, get_transmission_count, take_frame, after_error,
  get_broadcasts, is_idle,
}
use wineventchain.Swim.Delegate.Retransmission.{
  broadcast_all, HasRoom, due, all_due, copies, waiting, broadcast_all_cons, broadcast_all-waiting,
}

abbrev pub room_of : ℕ × ℕ → ℕ
room_of (overhead, limit) = limit - overhead

-- A frame that was sent once.
abbrev pub sent_once : Frame → RetransmissionFrame
sent_once f = record { frame = f; transmit_count = 1 }

-- Each frame `n` times in a row.
abbrev pub repeats : ℕ → List Frame → List (List ℕ)
repeats n [] = []
repeats n (f ∷ fs) = replicate n (marshal f) ++ repeats n fs

-- A delegate with one message to send.
abbrev sending : Delegate → FrameQueue → List RetransmissionFrame → Delegate
sending d q rs = record d { message_queue = q ∷ []; retransmit_queue = rs }

all_due-sent_once :
    (count : ℕ) (fs : List Frame)
    → 1 < count
    → all_due count (map sent_once fs) ≡ length fs * (count - 1)
all_due-sent_once count [] h = omega arith
all_due-sent_once count (f ∷ fs) h = ground (arith, all_due-sent_once count fs h)

copies-sent_once :
    (count : ℕ) (fs : List Frame)
    → 1 < count
    → copies count (map sent_once fs) ≡ repeats (count - 1) fs
copies-sent_once count [] h = refl
copies-sent_once count (f ∷ fs) h =
    let e : due count (sent_once f) ≡ count - 1 = ground arith in
    ap (λ n. replicate n (marshal f) ++ copies count (map sent_once fs)) e
    ∙ ap (λ l. replicate (count - 1) (marshal f) ++ l) (copies-sent_once count fs h)

module _ (compress : List ℕ → Option (List ℕ)) (log10_ceil : ℕ → ℕ) (members : ℕ) where
  abbrev count_of : Delegate → ℕ
  count_of d = get_transmission_count log10_ceil members d

  abbrev run : Delegate → List (ℕ × ℕ) → Option (Delegate × List (List ℕ))
  run d calls = broadcast_all compress log10_ceil members d calls

  broadcast_all-append :
      (xs ys : List (ℕ × ℕ)) (d d' d'' : Delegate) (sent more : List (List ℕ))
      → run d xs ≡ some (d', sent)
      → run d' ys ≡ some (d'', more)
      → run d (xs ++ ys) ≡ some (d'', sent ++ more)
  unfolding broadcast_all
  broadcast_all-append [] ys d d' d'' sent more h k = ground (arith)
  broadcast_all-append ((overhead, limit) ∷ xs) ys d d' d'' sent more h k =
      elim (Option-cases (get_broadcasts compress log10_ceil members d overhead limit)) [
        | inl e ↦ absurd (ground arith)
        | inr ((d1, one), e) ↦ elim (Option-cases (run d1 xs)) [
          | inl f ↦ absurd (ground arith)
          | inr ((d2, others), f) ↦
              let there : ◌≡◌ {A = Delegate × List (List ℕ)} (d2, one ++ others) (d', sent) =
                ground arith in
              let rest =
                broadcast_all-append xs ys d1 d2 d'' others more f
                  (ap (λ x. run x ys) (ap (λ t. t.0) there) ∙ k) in
              broadcast_all_cons compress log10_ceil members d d1 d'' overhead limit (xs ++ ys) one
                (others ++ more) e rest
              ∙ ap (λ l. some (d'', l))
                  (sym (append_assoc one others more) ∙ ap (λ t. t.1 ++ more) there)
        ]
      ]

  get_broadcasts-sending :
      (d : Delegate) (q q' : FrameQueue) (f : Frame) (rs : List RetransmissionFrame)
      (overhead limit : ℕ)
      → 1 < count_of d
      → overhead < limit
      → next compress q (limit - overhead) ≡ (q', ok f)
      → get_broadcasts compress log10_ceil members (sending d q rs) overhead limit
        ≡ some (sending d q' (rs ++ (sent_once f ∷ [])), marshal f ∷ [])
  unfolding get_broadcasts is_idle take_frame get_transmission_count transmit
  get_broadcasts-sending d q q' f rs overhead limit many h e =
      let room : ltb (limit - overhead) 1 ≡ false = ground arith in
      let again : ltb 1 (d.retransmit_multiplier * log10_ceil (members + 1)) ≡ true =
        ground arith in
      rw (room, ap (λ r. r.1) e, ap (λ r. r.0) e, again) refl

  get_broadcasts_at_end :
      (d : Delegate) (q : FrameQueue) (r : RetransmissionFrame) (rs : List RetransmissionFrame)
      (overhead limit : ℕ)
      → overhead < limit
      → length q.bytes ≤ q.offset
      → get_broadcasts compress log10_ceil members (sending d q (r ∷ rs)) overhead limit
        ≡ get_broadcasts compress log10_ceil members (waiting d (r ∷ rs)) overhead limit
  unfolding get_broadcasts is_idle take_frame get_transmission_count next after_error
  get_broadcasts_at_end d q r rs overhead limit room h =
      let done : leb (length q.bytes) q.offset ≡ true = ground arith in
      let wide : ltb (limit - overhead) 1 ≡ false = ground arith in rw (done, wide) refl

  drain_ok :
      (q : FrameQueue) (mtu : ℕ) (mtus : List ℕ) (f : Frame)
      → (next compress q mtu).1 ≡ ok f
      → drain compress q (mtu ∷ mtus) ≡ (
        f ∷ (drain compress (next compress q mtu).0 mtus).0,
        (drain compress (next compress q mtu).0 mtus).1,
      )
  unfolding drain
  drain_ok q mtu mtus f r = rw (r, drain) refl

  drain_err :
      (q : FrameQueue) (mtu : ℕ) (mtus : List ℕ) (x : NextError)
      → (next compress q mtu).1 ≡ err x
      → drain compress q (mtu ∷ mtus) ≡ ([], some x)
  unfolding drain
  drain_err q mtu mtus x r = rw (r, drain) refl

  drain_panic :
      (q : FrameQueue) (mtu : ℕ) (mtus : List ℕ)
      → (next compress q mtu).1 ≡ panic
      → drain compress q (mtu ∷ mtus) ≡ ([], none)
  unfolding drain
  drain_panic q mtu mtus r = rw (r, drain) refl

  -- The frames of a message, one for each call, and the queue at its end.
  run_sending :
      (d : Delegate) (first : List (ℕ × ℕ)) (q : FrameQueue) (rs : List RetransmissionFrame)
      (fs : List Frame) (mtu : ℕ)
      → 1 < count_of d
      → All HasRoom first
      → drain compress q (map room_of first ++ (mtu ∷ [])) ≡ (fs, some eof)
      → length first ≡ length fs
      → (q' : FrameQueue) × (length q'.bytes ≤ q'.offset)
        × (run (sending d q rs) first
            ≡ some (sending d q' (rs ++ map sent_once fs), map marshal fs))
  unfolding broadcast_all
  run_sending d [] q rs [] mtu many room e n = elim (Outcome-cases (next compress q mtu).1) [
    | inl (f, r) ↦ absurd (ground (arith, drain_ok q mtu [] f r))
    | inr (inl (x, r)) ↦
        let stop = drain_err q mtu [] x r in
        (
          q,
          next-eof compress q mtu (ground arith),
          ap (λ l. some (sending d q l, [])) (sym (append-nil rs)),
        )
    | inr (inr r) ↦ absurd (ground (arith, drain_panic q mtu [] r))
  ]
  run_sending d [] q rs (f ∷ fs) mtu many room e n = absurd (ground arith)
  run_sending d (call ∷ first) q rs [] mtu many room e n = absurd (ground arith)
  run_sending d ((overhead, limit) ∷ first) q rs (f ∷ fs) mtu many room e n =
      let mtus = map room_of first ++ (mtu ∷ []) in
      elim (Outcome-cases (next compress q (limit - overhead)).1) [
        | inl (g, r) ↦
            let q1 = (next compress q (limit - overhead)).0 in
            let there = sym (drain_ok q (limit - overhead) mtus g r) ∙ e in
            let same : g ≡ f = ground (arith, there) in
            let later : ◌≡◌ {A = List Frame × Option NextError} (drain compress q1 mtus)
                (fs, some eof) =
              ground (arith, there) in
            let (q', done, rest) =
              run_sending d first q1 (rs ++ (sent_once f ∷ [])) fs mtu many room.1 later
                (omega arith) in
            (
              q',
              done,
              broadcast_all_cons compress log10_ceil members (sending d q rs)
                    (sending d q1 (rs ++ (sent_once f ∷ [])))
                    (sending d q' ((rs ++ (sent_once f ∷ [])) ++ map sent_once fs)) overhead limit
                    first (marshal f ∷ []) (map marshal fs)
                    (get_broadcasts-sending d q q1 f rs overhead limit many room.0
                      (ap (λ o. (q1, o)) (r ∙ ap ok same)))
                    rest
                  ∙ ap (λ l. some (sending d q' l, map marshal (f ∷ fs)))
                      (append_assoc rs (sent_once f ∷ []) (map sent_once fs)),
            )
        | inr (inl (x, r)) ↦ absurd (ground (arith, drain_err q (limit - overhead) mtus x r))
        | inr (inr r) ↦ absurd (ground (arith, drain_panic q (limit - overhead) mtus r))
      ]

  -- The calls after the last frame start with the end of the queue.
  run_at_end :
      (d : Delegate) (q : FrameQueue) (r : RetransmissionFrame) (rs : List RetransmissionFrame)
      (calls : List (ℕ × ℕ))
      → All HasRoom calls
      → length q.bytes ≤ q.offset
      → 0 < length calls
      → run (sending d q (r ∷ rs)) calls ≡ run (waiting d (r ∷ rs)) calls
  unfolding broadcast_all
  run_at_end d q r rs [] room h n = absurd (ground arith)
  run_at_end d q r rs ((overhead, limit) ∷ calls) room h n =
      rw (get_broadcasts_at_end d q r rs overhead limit room.0 h, broadcast_all) refl

  run_retransmissions :
      (d : Delegate) (q : FrameQueue) (fs : List Frame) (calls : List (ℕ × ℕ))
      → 1 < count_of d
      → All HasRoom calls
      → length q.bytes ≤ q.offset
      → 0 < length fs
      → length calls ≡ length fs * (count_of d - 1)
      → run (sending d q (map sent_once fs)) calls
        ≡ some (waiting d [], repeats (count_of d - 1) fs)
  run_retransmissions d q [] calls many room h some_frame n = absurd (ground arith)
  run_retransmissions d q (f ∷ fs) calls many room h some_frame n =
      run_at_end d q (sent_once f) (map sent_once fs) calls room h (ground arith)
      ∙ broadcast_all-waiting compress log10_ceil members calls d (map sent_once (f ∷ fs)) room
          (n ∙ sym (all_due-sent_once (count_of d) (f ∷ fs) many))
      ∙ ap (λ l. some (waiting d [], l)) (copies-sent_once (count_of d) (f ∷ fs) many)

  some_frame_of :
      (q : FrameQueue) (first : List (ℕ × ℕ)) (fs : List Frame) (mtu : ℕ)
      → q.offset < length q.bytes
      → drain compress q (map room_of first ++ (mtu ∷ [])) ≡ (fs, some eof)
      → length first ≡ length fs
      → 0 < length fs
  some_frame_of q [] fs mtu h e n = elim (Outcome-cases (next compress q mtu).1) [
    | inl (f, r) ↦ absurd (ground (arith, drain_ok q mtu [] f r))
    | inr (inl (x, r)) ↦
        let stop = drain_err q mtu [] x r in
        absurd (omega (arith, next-eof compress q mtu (ground arith)))
    | inr (inr r) ↦ absurd (ground (arith, drain_panic q mtu [] r))
  ]
  some_frame_of q (call ∷ first) fs mtu h e n = omega (arith, n)

  -- A message that an idle delegate sends is broadcast whole, where frames have more than one
  -- transmission, each call has room for a frame and the calls are as many as the transmissions: each
  -- of its frames once in order, then each of them in a row up to the number of transmissions. The
  -- delegate is then as it was before.
  pub broadcast_all-send :
      (d : Delegate) (id msg : List ℕ) (first rest : List (ℕ × ℕ)) (mtu : ℕ) (fs : List Frame)
      → d.message_queue ≡ []
      → d.retransmit_queue ≡ []
      → 1 < get_transmission_count log10_ceil members d
      → 0 < length msg
      → All HasRoom first
      → All HasRoom rest
      → drain compress (new_frame_queue id d.source_name msg) (map room_of first ++ (mtu ∷ []))
        ≡ (fs, some eof)
      → length first ≡ length fs
      → length rest ≡ length fs * (get_transmission_count log10_ceil members d - 1)
      → broadcast_all compress log10_ceil members (send d id msg) (first ++ rest)
        ≡ some (d, map marshal fs ++ repeats (get_transmission_count log10_ceil members d - 1) fs)
  unfolding send new_frame_queue
  broadcast_all-send d id msg first rest mtu fs no_message no_frame many there room room' e n m =
      let q = new_frame_queue id d.source_name msg in
      let (q', done, sent) = run_sending d first q [] fs mtu many room e n in
      let again =
        run_retransmissions d q' fs rest many room' done (some_frame_of q first fs mtu there e n)
          m in
      let start : sending d q [] ≡ send d id msg = sym (λ i. record d {
        message_queue = no_message i ++ (q ∷ []);
        retransmit_queue = no_frame i;
      }) in
      let end : waiting d [] ≡ d =
        sym (λ i. record d { message_queue = no_message i; retransmit_queue = no_frame i }) in
      subst (λ x. run x (first ++ rest) ≡ some (d, map marshal fs ++ repeats (count_of d - 1) fs))
        start
        (broadcast_all-append first rest (sending d q []) (sending d q' (map sent_once fs))
            (waiting d []) (map marshal fs) (repeats (count_of d - 1) fs) sent again
          ∙ ap (λ x. some (x, map marshal fs ++ repeats (count_of d - 1) fs)) end)
