-- ===== src/Swim/Delegate/Retransmission.antt =====
-- delegate.go: how often, and in which order, GetBroadcasts sends the frames that wait for a
-- retransmission.
use wineventchain.Common.{
  ℕ, suc, ◌+◌, ◌-◌, ◌≡◌, ◌<◌, refl, sym, ap, ◌∙◌, inl, inr, false, List, [], ◌∷◌, ◌++◌, Option,
  none, some, subst, ltb, leb, if◌then◌else◌, length, replicate, All, arith, Bool-cases,
}
use wineventchain.Swim.Frame.{marshal}
use wineventchain.Swim.Delegate.{
  Delegate, RetransmissionFrame, retransmit, get_transmission_count, take_frame, get_broadcasts,
  is_idle,
}

-- The frames that the calls with these overheads and limits send; `none` is a panic.
unfoldable pub broadcast_all :
    (List ℕ → Option (List ℕ))
    → (ℕ → ℕ)
    → ℕ
    → Delegate
    → List (ℕ × ℕ)
    → Option (Delegate × List (List ℕ))
broadcast_all compress log10_ceil members d [] = some (d, [])
broadcast_all compress log10_ceil members d ((overhead, limit) ∷ calls) =
    elim (get_broadcasts compress log10_ceil members d overhead limit) [
      | none ↦ none
      | some (d', sent) ↦ elim (broadcast_all compress log10_ceil members d' calls) [
        | none ↦ none
        | some (d'', more) ↦ some (d'', sent ++ more)
      ]
    ]

-- The limit of a call leaves room beyond the overhead.
abbrev pub HasRoom : ℕ × ℕ → Type 0
HasRoom (overhead, limit) = overhead < limit

-- The transmissions that are due of a frame: one at least, since it is checked after it is sent.
abbrev pub due : ℕ → RetransmissionFrame → ℕ
due count r = if leb count (r.transmit_count + 1) then 1 else count - r.transmit_count

abbrev pub all_due : ℕ → List RetransmissionFrame → ℕ
all_due count [] = 0
all_due count (r ∷ rs) = due count r + all_due count rs

abbrev pub copies : ℕ → List RetransmissionFrame → List (List ℕ)
copies count [] = []
copies count (r ∷ rs) = replicate (due count r) (marshal r.frame) ++ copies count rs

-- A delegate without a message to send.
abbrev pub waiting : Delegate → List RetransmissionFrame → Delegate
waiting d rs = record d { message_queue = []; retransmit_queue = rs }

module _ (compress : List ℕ → Option (List ℕ)) (log10_ceil : ℕ → ℕ) (members : ℕ) where
  abbrev count_of : Delegate → ℕ
  count_of d = get_transmission_count log10_ceil members d

  get_broadcasts-waiting :
      (d : Delegate) (r : RetransmissionFrame) (rs : List RetransmissionFrame) (overhead limit : ℕ)
      → overhead < limit
      → get_broadcasts compress log10_ceil members (waiting d (r ∷ rs)) overhead limit
        ≡ some (retransmit (count_of d) (waiting d (r ∷ rs)))
  unfolding get_broadcasts is_idle take_frame get_transmission_count
  get_broadcasts-waiting d r rs overhead limit h =
      let room : ltb (limit - overhead) 1 ≡ false = ground arith in rw room refl

  -- What follows a call that sends the frame at the head.
  abbrev after_head : ℕ → RetransmissionFrame → List RetransmissionFrame → List RetransmissionFrame
  after_head count r rs =
      if leb count (r.transmit_count + 1)
      then rs
      else record r { transmit_count = r.transmit_count + 1 } ∷ rs

  all_due-after_head :
      (count : ℕ) (r : RetransmissionFrame) (rs : List RetransmissionFrame)
      → all_due count (r ∷ rs) ≡ suc (all_due count (after_head count r rs))
  all_due-after_head count r rs = ground arith

  copies-after_head :
      (count : ℕ) (r : RetransmissionFrame) (rs : List RetransmissionFrame)
      → copies count (r ∷ rs) ≡ marshal r.frame ∷ copies count (after_head count r rs)
  copies-after_head count r rs = elim (Bool-cases (leb count (r.transmit_count + 1))) [
    | inl last ↦ rw last refl
    | inr more ↦
        let e : due count r ≡ suc (due count (record r { transmit_count = r.transmit_count + 1 })) =
          ground arith in
        rw (e, more) refl
  ]

  pub broadcast_all_cons :
      (d d' d'' : Delegate) (overhead limit : ℕ) (calls : List (ℕ × ℕ)) (sent more : List (List ℕ))
      → get_broadcasts compress log10_ceil members d overhead limit ≡ some (d', sent)
      → broadcast_all compress log10_ceil members d' calls ≡ some (d'', more)
      → broadcast_all compress log10_ceil members d ((overhead, limit) ∷ calls)
        ≡ some (d'', sent ++ more)
  unfolding broadcast_all
  broadcast_all_cons d d' d'' overhead limit calls sent more h k =
      rw (h, broadcast_all) (rw (k, broadcast_all) refl)

  retransmit_head :
      (d : Delegate) (r : RetransmissionFrame) (rs : List RetransmissionFrame)
      → retransmit (count_of d) (waiting d (r ∷ rs))
        ≡ (waiting d (after_head (count_of d) r rs), marshal r.frame ∷ [])
  unfolding retransmit
  retransmit_head d r rs = refl

  pub broadcast_all-waiting :
      (calls : List (ℕ × ℕ)) (d : Delegate) (rs : List RetransmissionFrame)
      → All HasRoom calls
      → length calls ≡ all_due (count_of d) rs
      → broadcast_all compress log10_ceil members (waiting d rs) calls
        ≡ some (waiting d [], copies (count_of d) rs)
  unfolding broadcast_all
  broadcast_all-waiting [] d [] room n = refl
  broadcast_all-waiting [] d (r ∷ rs) room n = absurd (ground arith)
  broadcast_all-waiting (call ∷ calls) d [] room n = absurd (ground arith)
  broadcast_all-waiting ((overhead, limit) ∷ calls) d (r ∷ rs) room n =
      let count = count_of d in
      let rest =
        broadcast_all-waiting calls d (after_head count r rs) room.1
          (ground (arith, all_due-after_head count r rs)) in
      broadcast_all_cons (waiting d (r ∷ rs)) (waiting d (after_head count r rs)) (waiting d [])
        overhead limit calls (marshal r.frame ∷ []) (copies count (after_head count r rs))
        (get_broadcasts-waiting d r rs overhead limit room.0 ∙ ap some (retransmit_head d r rs))
        rest
      ∙ ap (λ c. some (waiting d [], c)) (sym (copies-after_head count r rs))

  -- A delegate without a message to send broadcasts the frames that wait for a retransmission,
  -- each as often as transmissions are due of it, one after the other in the order of the queue.
  -- After as many calls the queue is empty, whatever room the calls leave.
  pub broadcast_all_retransmits :
      (d : Delegate) (calls : List (ℕ × ℕ))
      → d.message_queue ≡ []
      → All HasRoom calls
      → length calls ≡ all_due (get_transmission_count log10_ceil members d) d.retransmit_queue
      → broadcast_all compress log10_ceil members d calls
        ≡ some (
          record d { retransmit_queue = [] },
          copies (get_transmission_count log10_ceil members d) d.retransmit_queue,
        )
  broadcast_all_retransmits d calls none_left room n =
      let idle : waiting d d.retransmit_queue ≡ d =
        sym (λ i. record d { message_queue = none_left i }) in
      let done : waiting d [] ≡ record d { retransmit_queue = [] } =
        sym (λ i. record d { message_queue = none_left i; retransmit_queue = [] }) in
      let run = broadcast_all-waiting calls d d.retransmit_queue room n in
      subst
        (λ x.
          broadcast_all compress log10_ceil members x calls
          ≡ some (record d { retransmit_queue = [] }, copies (count_of d) d.retransmit_queue))
        idle
        (subst
          (λ x.
            broadcast_all compress log10_ceil members (waiting d d.retransmit_queue) calls
            ≡ some (x, copies (count_of d) d.retransmit_queue))
          done run)
