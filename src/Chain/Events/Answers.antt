-- ===== src/Chain/Events/Answers.antt =====
-- wineventchain/pkg/events/app.go: what a query for an event answers.
use wineventchain.Common.{
  ℕ, ◌*◌, ◌/◌, ◌%◌, ◌<◌, ◌≡◌, ◌≢◌, refl, ap, sym, ◌∙◌, inl, inr, true, List, [], ◌∷◌, ◌++◌, none,
  some, ok, err, codes, bytes_eq, length, hex_digit, hex_encode, hex_decode-hex_encode, arith, All,
  Outcome-cases, Option-cases,
}
use wineventchain.Chain.Response.{Failure, event_not_found, tree_uninitialized, code_ok}
use wineventchain.Chain.Tree.{Tree, TreeLaws}
use wineventchain.Chain.Proof.{ProofOp, ItemWithProof, ItemResponse, without_proof}
use wineventchain.Chain.Proof.Lookup.{
  Proves, IsLookup, item_of-none, item_of-some, get_with_proof-IsLookup,
}
use wineventchain.Chain.Rpc.{Verify}
use wineventchain.Chain.Identity.Repository.{IdentityCodec}
use wineventchain.Chain.Events.Types.{EventWithMetadata}
use wineventchain.Chain.Events.Repository.{
  EventCodec, EventCodecLaw, decode_event, get_by_event_id, get_event_with_proof,
}
use wineventchain.Chain.Events.App.{EventFormats, EventsApp, refuse, code_event_not_found}
use wineventchain.Chain.Events.Query.{
  QueryFormats, is_path_digit, all_digits, strip_prefix, match_path, query_error, answer_item,
  query_event, query,
}

strip_prefix-append : (prefix text : List ℕ) → strip_prefix prefix (prefix ++ text) ≡ some text
unfolding strip_prefix
strip_prefix-append [] text = refl
strip_prefix-append (c ∷ prefix) text = ground (arith, strip_prefix-append prefix text)

length-hex_encode : (bs : List ℕ) → length (hex_encode bs) ≡ 2 * length bs
unfolding hex_encode
length-hex_encode [] = refl
length-hex_encode (b ∷ bs) = ground (arith, length-hex_encode bs)

is_path_digit-hex_digit : (n : ℕ) → n < 16 → is_path_digit (hex_digit n) ≡ true
unfolding hex_digit
is_path_digit-hex_digit n h = ground arith

all_digits-hex_encode : (bs : List ℕ) → All (λ b. b < 256) bs → all_digits (hex_encode bs) ≡ true
unfolding all_digits hex_encode
all_digits-hex_encode [] h = refl
all_digits-hex_encode (b ∷ bs) h =
    rw
      (
        is_path_digit-hex_digit (b / 16) (omega arith),
        is_path_digit-hex_digit (b % 16) (omega arith),
        all_digits-hex_encode bs h.1,
      )
      refl

-- The path of a query for an identifier.
abbrev pub event_path : List ℕ → List ℕ
event_path id = codes "/event-by-id/" ++ hex_encode id

match_path-event_path :
    (id : List ℕ)
    → length id ≡ 32
    → All (λ b. b < 256) id
    → match_path (event_path id) ≡ some (hex_encode id)
unfolding match_path strip_prefix hex_encode
match_path-event_path id h k =
    rw
      (
        strip_prefix-append (codes "/event-by-id/") (hex_encode id),
        length-hex_encode id,
        h,
        all_digits-hex_encode id k,
      )
      refl

module _ (tree : Tree) (identity_codec : IdentityCodec) (codec : EventCodec)
    (formats : EventFormats) (verify : Verify) (queries : QueryFormats) (laws : TreeLaws tree)
    (law : EventCodecLaw codec) where
  abbrev App : Type 0
  App = EventsApp tree identity_codec codec formats verify

  query-event_path :
      (app : App) (id : List ℕ) (height : ℕ)
      → length id ≡ 32
      → All (λ b. b < 256) id
      → query tree identity_codec codec formats verify queries app (event_path id) height
        ≡ query_event tree identity_codec codec formats verify queries app id height
  unfolding query query_event bytes_eq
  query-event_path app id height h k =
      rw (match_path-event_path id h k, hex_decode-hex_encode id k) refl

  -- The answer names the identifier, and its proof is what the tree of the application gives for it.
  pub record IsProven (app : App) (id : List ℕ) (r : ItemResponse) : Type 0 where
    pub op : ProofOp
    pub given : r.proof_op ≡ some op
    pub proves : Proves tree queries.proof laws app.repository id op
    pub answered : r.key ≡ id

  -- The answers to a query for an event.
  pub data Answers (app : App) (id : List ℕ) (r : ItemResponse) : Type 0 where
    found :
        (event : EventWithMetadata)
        → get_by_event_id tree codec app.repository id ≡ ok event
        → codec.unmarshal r.response.value ≡ ok event
        → r.response.code ≡ code_ok
        → IsProven app id r
        → Answers app id r
    missing :
        get_by_event_id tree codec app.repository id ≡ err event_not_found
        → r.response.code ≡ code_event_not_found
        → IsProven app id r
        → Answers app id r
    failed : r.response.code ≢ code_ok → r.proof_op ≡ none → Answers app id r

  query_error_fails : (e : Failure) → (query_error e).code ≢ code_ok
  unfolding query_error refuse
  query_error_fails event_not_found = λ h. ground arith
  query_error_fails tree_uninitialized = λ h. ground arith
  query_error_fails e = λ h. ground arith

  answer_item-Answers :
      (app : App) (id : List ℕ) (height : ℕ) (item : ItemWithProof EventWithMetadata)
      (r : ItemResponse)
      → IsLookup tree queries.proof laws codec.unmarshal app.repository id item
      → answer_item tree identity_codec codec formats verify queries id height item ≡ some r
      → Answers app id r
  unfolding answer_item get_by_event_id decode_event without_proof refuse
  answer_item-Answers app id height item r looked h = elim (Option-cases item.item) [
    | inl n ↦
        let gone = item_of-none codec.unmarshal looked.bytes (looked.decoded ∙ ap ok n) in
        missing (rw (looked.there, gone) refl) (ground arith) (record {
          op = item.proof_op;
          given = ground arith;
          proves = looked.proves;
          answered = ground arith;
        })
    | inr (event, n) ↦
        let (bytes, there, read) =
          item_of-some codec.unmarshal looked.bytes event (looked.decoded ∙ ap ok n) in
        elim (Outcome-cases (codec.marshal event)) [
          | inl (marshalled, m) ↦
              found event (rw (looked.there, there) read)
                (ap codec.unmarshal {x = r.response.value} {y = marshalled} (ground arith)
                  ∙ law.unmarshal-marshal event marshalled (law.utf8_unmarshal bytes event read) m)
                (ground arith)
                (record {
                  op = item.proof_op;
                  given = ground arith;
                  proves = looked.proves;
                  answered = ground arith;
                })
          | inr (inl (x, m)) ↦ failed (ground arith) (ground arith)
          | inr (inr m) ↦ absurd (ground arith)
        ]
  ]

  -- A query for an identifier of 32 bytes, where it is answered: with success, the event that is
  -- stored under it, and the proof that the tree gives for the identifier; as not found with such a
  -- proof, only where no event is; and otherwise an error without a proof.
  pub query-Answers :
      (app : App) (id : List ℕ) (height : ℕ) (r : ItemResponse)
      → length id ≡ 32
      → All (λ b. b < 256) id
      → query tree identity_codec codec formats verify queries app (event_path id) height ≡ some r
      → Answers app id r
  unfolding query_event without_proof get_event_with_proof
  query-Answers app id height r l k h =
      let h1 = sym (query-event_path app id height l k) ∙ h in
      elim (Outcome-cases (get_event_with_proof tree codec queries.proof app.repository id)) [
        | inl (item, e) ↦
            answer_item-Answers app id height item r
              (get_with_proof-IsLookup tree queries.proof laws codec.unmarshal app.repository id
                item e)
              (ground arith)
        | inr (inl (x, e)) ↦ failed (ground (arith, query_error_fails x)) (ground arith)
        | inr (inr e) ↦ absurd (ground arith)
      ]
