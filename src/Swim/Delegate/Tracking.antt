-- ===== src/Swim/Delegate/Tracking.antt =====
-- delegate.go: what holds of a delegate after any sequence of its operations.
use wineventchain.Common.{
  ℕ, ◌≡◌, refl, sym, ap, ◌∙◌, inl, inr, List, [], ◌∷◌, Option, some, ok, subst, arith, All, ltb,
  ◌-◌, Bool-cases, Option-cases, Outcome-cases, if◌then◌else◌, bytes_eq_sound, Map, lookup, insert,
  delete, keys, lookup-insert, keys-insert, keys-delete, keys_present, All-insert, All-delete,
  lookup-All,
}
use wineventchain.Swim.Frame.{Frame, unmarshal}
use wineventchain.Swim.Decoder.{
  Decoder, new_decoder, read_bytes, read_frame, accept, mark_compression, store, has_received_frame,
  received_all, decode, source_name,
}
use wineventchain.Swim.Delegate.{
  Delegate, InboundMessage, new_delegate, send, take_frame, transmit, retransmit, get_broadcasts,
  note_frame, open_stream, close_stream, read_inbound, handle_inbound_message, prune, prune_entries,
  wait_timeout,
}
use wineventchain.Swim.Delegate.Steps.{
  Step, sends, broadcasts, receives, prunes, Reachable, starts, steps,
}

abbrev pub IsOwn : List ℕ × Decoder → Type 0
IsOwn (id, decoder) = decoder.id ≡ id

-- Each decoder is the one of its stream, and the time at which its stream began is known, so that
-- the prune loop comes to it.
pub record IsTracked (d : Delegate) : Type 0 where
  pub same_keys : keys d.decoders ≡ keys d.last_seen
  pub owned : All IsOwn d.decoders

-- Only these two fields matter.
same_tracking :
    (d d' : Delegate)
    → d'.decoders ≡ d.decoders
    → d'.last_seen ≡ d.last_seen
    → IsTracked d
    → IsTracked d'
same_tracking d d' e f t = record {
  same_keys = ap keys e ∙ t.same_keys ∙ ap keys (sym f);
  owned = subst (All IsOwn) (sym e) t.owned;
}

get_broadcasts_keeps :
    (compress : List ℕ → Option (List ℕ)) (log10_ceil : ℕ → ℕ) (members overhead limit : ℕ)
    (d d' : Delegate) (frames : List (List ℕ))
    → get_broadcasts compress log10_ceil members d overhead limit ≡ some (d', frames)
    → (d'.decoders ≡ d.decoders) × (d'.last_seen ≡ d.last_seen)
unfolding get_broadcasts transmit retransmit
get_broadcasts_keeps compress log10_ceil members overhead limit d d' frames h =
    elim (Option-cases (take_frame compress (limit - overhead) d.message_queue)) [
      | inl e ↦ (ground arith, ground arith)
      | inr ((queue, result), e) ↦ (ground arith, ground arith)
    ]

note_frame_keeps :
    (d : Delegate) (f : Frame)
    → ((note_frame d f).decoders ≡ d.decoders) × ((note_frame d f).last_seen ≡ d.last_seen)
unfolding note_frame
note_frame_keeps d f = (ground arith, ground arith)

read_bytes_id :
    (decoder decoder' : Decoder) (input spare : List ℕ)
    → read_bytes decoder input spare ≡ ok decoder'
    → decoder'.id ≡ decoder.id
unfolding read_bytes read_frame accept mark_compression store
read_bytes_id decoder decoder' input spare h = elim (Outcome-cases (unmarshal input spare)) [
  | inl (f, e) ↦ ground arith
  | inr (inl (x, e)) ↦ absurd (ground arith)
  | inr (inr e) ↦ absurd (ground arith)
]

-- A stream that is open has its decoder in the map.
open_stream_lem :
    (now : ℕ) (d : Delegate) (id : List ℕ)
    → IsTracked d
    → let (d', decoder) = open_stream now d id in
      IsTracked d' × (lookup d'.decoders id ≡ some decoder) × (decoder.id ≡ id)
unfolding open_stream new_decoder
open_stream_lem now d id t = elim (Option-cases (lookup d.decoders id)) [
  | inl e ↦
      let fresh = new_decoder id in
      rw (e, open_stream)
        (
          record {
            same_keys = keys-insert d.decoders d.last_seen id fresh now t.same_keys;
            owned =
                All-insert IsOwn d.decoders id fresh (λ k same. sym (bytes_eq_sound k id same)) refl
                  t.owned;
          },
          lookup-insert d.decoders id fresh,
          refl,
        )
  | inr (decoder, e) ↦ rw (e, open_stream) (t, e, lookup-All IsOwn d.decoders id decoder t.owned e)
]

close_stream-IsTracked :
    (decompress : List ℕ → Option (List ℕ)) (d d' : Delegate) (id : List ℕ) (decoder : Decoder)
    (ms : List InboundMessage)
    → IsTracked d
    → close_stream decompress d id decoder ≡ some (d', ms)
    → IsTracked d'
unfolding close_stream
close_stream-IsTracked decompress d d' id decoder ms t h =
    let closed : Delegate = record d {
      decoders = delete d.decoders id;
      last_seen = delete d.last_seen id;
    } in
    let tracked : IsTracked closed = record {
      same_keys = keys-delete d.decoders d.last_seen id t.same_keys;
      owned = All-delete IsOwn d.decoders id t.owned;
    } in
    elim (Outcome-cases (decode decompress decoder)) [
      | inl (decoded, e) ↦ elim (Outcome-cases (source_name decoder)) [
        | inl (source, f) ↦ subst IsTracked (ground arith) tracked
        | inr (inl (x, f)) ↦ subst IsTracked (ground arith) tracked
        | inr (inr f) ↦ absurd (ground arith)
      ]
      | inr (inl (x, e)) ↦ subst IsTracked (ground arith) tracked
      | inr (inr e) ↦ absurd (ground arith)
    ]

read_inbound-IsTracked :
    (decompress : List ℕ → Option (List ℕ)) (d d' : Delegate) (decoder : Decoder) (f : Frame)
    (input spare : List ℕ) (ms : List InboundMessage)
    → IsTracked d
    → lookup d.decoders f.stream_id ≡ some decoder
    → decoder.id ≡ f.stream_id
    → read_inbound decompress d decoder f input spare ≡ some (d', ms)
    → IsTracked d'
unfolding read_inbound
read_inbound-IsTracked decompress d d' decoder f input spare ms t known own h =
    elim (Outcome-cases (has_received_frame decoder.frames f.frame_number)) [
      | inl (duplicate, e) ↦ elim (Bool-cases duplicate) [
        | inl old ↦ subst IsTracked (ground arith) t
        | inr new ↦ elim (Outcome-cases (read_bytes decoder input spare)) [
          | inl (decoder', r) ↦
              let same : decoder'.id ≡ f.stream_id =
                read_bytes_id decoder decoder' input spare r ∙ own in
              elim (Bool-cases (received_all decoder')) [
                | inl all ↦
                    close_stream-IsTracked decompress d d' f.stream_id decoder' ms t (ground arith)
                | inr some_left ↦
                    let tracked : IsTracked
                        (record d { decoders = insert d.decoders f.stream_id decoder' }) =
                      record {
                        same_keys =
                            keys_present d.decoders f.stream_id decoder decoder' known
                            ∙ t.same_keys;
                        owned =
                            All-insert IsOwn d.decoders f.stream_id decoder'
                              (λ k same_key. same ∙ sym (bytes_eq_sound k f.stream_id same_key))
                              same t.owned;
                      } in
                    subst IsTracked (ground arith) tracked
              ]
          | inr (inl (x, r)) ↦ subst IsTracked (ground arith) t
          | inr (inr r) ↦ absurd (ground arith)
        ]
      ]
      | inr (inl (x, e)) ↦ subst IsTracked (ground arith) t
      | inr (inr e) ↦ absurd (ground arith)
    ]

handle_inbound_message-IsTracked :
    (decompress : List ℕ → Option (List ℕ)) (now : ℕ) (d d' : Delegate) (input spare : List ℕ)
    (ms : List InboundMessage)
    → IsTracked d
    → handle_inbound_message decompress now d input spare ≡ some (d', ms)
    → IsTracked d'
unfolding handle_inbound_message
handle_inbound_message-IsTracked decompress now d d' input spare ms t h =
    elim (Outcome-cases (unmarshal input spare)) [
      | inl (f, e) ↦
          let opened = (open_stream now d f.stream_id).0 in
          let (tracked, known, own) = open_stream_lem now d f.stream_id t in
          let (same, seen) = note_frame_keeps opened f in
          read_inbound-IsTracked decompress (note_frame opened f) d'
            (open_stream now d f.stream_id).1 f input spare ms
            (same_tracking opened (note_frame opened f) same seen tracked)
            (ap (λ m. lookup m f.stream_id) same ∙ known) own (ground arith)
      | inr (inl (x, e)) ↦ subst IsTracked (ground arith) t
      | inr (inr e) ↦ absurd (ground arith)
    ]

prune_entries-IsTracked :
    (now : ℕ) (entries : Map ℕ) (d : Delegate)
    → IsTracked d
    → IsTracked (prune_entries now entries d)
unfolding prune_entries
prune_entries-IsTracked now [] d t = t
prune_entries-IsTracked now ((id, seen) ∷ entries) d t =
    let pruned : Delegate = record d {
      decoders = delete d.decoders id;
      last_seen = delete d.last_seen id;
      frames_seen = delete d.frames_seen id;
    } in
    let tracked : IsTracked pruned = record {
      same_keys = keys-delete d.decoders d.last_seen id t.same_keys;
      owned = All-delete IsOwn d.decoders id t.owned;
    } in
    prune_entries-IsTracked now entries (if ltb wait_timeout (now - seen) then pruned else d)
      (elim (Bool-cases (ltb wait_timeout (now - seen))) [
        | inl old ↦ rw old tracked
        | inr recent ↦ rw recent t
      ])

Step-IsTracked :
    (compress decompress : List ℕ → Option (List ℕ)) (log10_ceil : ℕ → ℕ) (d d' : Delegate)
    → IsTracked d
    → Step compress decompress log10_ceil d d'
    → IsTracked d'
unfolding send prune
Step-IsTracked compress decompress log10_ceil d _ t (sends id msg) = record {
  same_keys = t.same_keys;
  owned = t.owned;
}
Step-IsTracked compress decompress log10_ceil d _ t
      (broadcasts members overhead limit d' frames h) =
    let (same, seen) =
      get_broadcasts_keeps compress log10_ceil members overhead limit d d' frames h in
    same_tracking d d' same seen t
Step-IsTracked compress decompress log10_ceil d _ t (receives now input spare d' messages h) =
    handle_inbound_message-IsTracked decompress now d d' input spare messages t h
Step-IsTracked compress decompress log10_ceil d _ t (prunes now) =
    prune_entries-IsTracked now d.last_seen d t

-- In every state that a delegate comes to, each of its decoders is the one of its stream, and the
-- streams with a decoder are those whose time is known.
pub Reachable-IsTracked :
    (compress decompress : List ℕ → Option (List ℕ)) (log10_ceil : ℕ → ℕ) (d : Delegate)
    → Reachable compress decompress log10_ceil d
    → IsTracked d
unfolding new_delegate keys
Reachable-IsTracked compress decompress log10_ceil _ (starts name multiplier) = record {
  same_keys = refl;
  owned = tt;
}
Reachable-IsTracked compress decompress log10_ceil _ (steps d d' r s) =
    Step-IsTracked compress decompress log10_ceil d d'
      (Reachable-IsTracked compress decompress log10_ceil d r) s
