-- ===== src/Chain/Identity/Answers.antt =====
-- wineventchain/pkg/identity/app.go: what a query for a principal answers.
use wineventchain.Common.{
  ℕ, ◌≡◌, ◌≢◌, refl, ap, ◌∙◌, inl, inr, List, ◌∷◌, none, some, ok, err, arith, Outcome-cases,
  Option-cases,
}
use wineventchain.Chain.Response.{Failure, identity_not_found, tree_uninitialized, code_ok}
use wineventchain.Chain.Tree.{Tree, TreeLaws}
use wineventchain.Chain.Proof.{
  ProofOp, ItemWithProof, ItemResponse, ProofFormat, without_proof, get_with_proof,
}
use wineventchain.Chain.Proof.Lookup.{
  Proves, IsLookup, item_of-none, item_of-some, get_with_proof-IsLookup,
}
use wineventchain.Chain.Rpc.{Verify}
use wineventchain.Chain.Identity.Repository.{
  IdentityData, IdentityCodec, IdentityCodecLaw, principal_key, decode_entry, get,
}
use wineventchain.Chain.Identity.App.{Requests, IdentityApp}
use wineventchain.Chain.Identity.Query.{
  code_not_found, trim_slash, lookup_error, answer_identity, query_identity,
}

lookup_error_fails :
    (e : Failure) → ((lookup_error e).code ≢ code_ok) × ((lookup_error e).code ≢ code_not_found)
unfolding lookup_error
lookup_error_fails tree_uninitialized = (λ h. ground arith, λ h. ground arith)
lookup_error_fails e = (λ h. ground arith, λ h. ground arith)

module _ (tree : Tree) (codec : IdentityCodec) (requests : Requests) (verify : Verify)
    (json : ProofFormat) (laws : TreeLaws tree) (law : IdentityCodecLaw codec) where
  abbrev App : Type 0
  App = IdentityApp tree codec requests verify

  -- The answer names the principal, and its proof is what the tree of the application gives for the
  -- key of the principal.
  pub record IsProven (app : App) (principal : List ℕ) (r : ItemResponse) : Type 0 where
    pub op : ProofOp
    pub given : r.proof_op ≡ some op
    pub proves : Proves tree json laws app.repository (principal_key principal) op
    pub answered : r.key ≡ principal

  -- The answers to a query for a principal.
  pub data Shows (app : App) (principal : List ℕ) (r : ItemResponse) : Type 0 where
    known :
        (entry : IdentityData)
        → get tree codec app.repository principal ≡ ok entry
        → codec.unmarshal r.response.value ≡ ok entry
        → r.response.code ≡ code_ok
        → IsProven app principal r
        → Shows app principal r
    unknown :
        get tree codec app.repository principal ≡ err identity_not_found
        → r.response.code ≡ code_not_found
        → IsProven app principal r
        → Shows app principal r
    refused :
        r.response.code ≢ code_ok
        → r.response.code ≢ code_not_found
        → r.proof_op ≡ none
        → Shows app principal r

  answer_identity-Shows :
      (app : App) (principal : List ℕ) (item : ItemWithProof IdentityData) (r : ItemResponse)
      → IsLookup tree json laws codec.unmarshal app.repository (principal_key principal) item
      → answer_identity tree codec requests verify json principal item ≡ ok r
      → Shows app principal r
  unfolding answer_identity get decode_entry
  answer_identity-Shows app principal item r looked h = elim (Option-cases item.item) [
    | inl n ↦
        let gone = item_of-none codec.unmarshal looked.bytes (looked.decoded ∙ ap ok n) in
        unknown (rw (looked.there, gone) refl) (ground arith) (record {
          op = item.proof_op;
          given = ground arith;
          proves = looked.proves;
          answered = ground arith;
        })
    | inr (entry, n) ↦
        let (bytes, there, read) =
          item_of-some codec.unmarshal looked.bytes entry (looked.decoded ∙ ap ok n) in
        elim (Outcome-cases (codec.marshal entry)) [
          | inl (marshalled, m) ↦
              known entry (rw (looked.there, there) read)
                (ap codec.unmarshal {x = r.response.value} {y = marshalled} (ground arith)
                  ∙ law.unmarshal-marshal entry marshalled m)
                (ground arith)
                (record {
                  op = item.proof_op;
                  given = ground arith;
                  proves = looked.proves;
                  answered = ground arith;
                })
          | inr (inl (x, m)) ↦ absurd (ground arith)
          | inr (inr m) ↦ absurd (ground arith)
        ]
  ]

  -- A query for a principal, where it is answered: with success, the identity that is stored under
  -- the principal, and the proof that the tree gives for its key; as not found, with such a proof, only where none is; and
  -- otherwise another error without a proof.
  pub query_identity-Shows :
      (app : App) (principal : List ℕ) (r : ItemResponse)
      → query_identity tree codec requests verify json app (b'/' ∷ principal) ≡ ok r
      → Shows app principal r
  unfolding query_identity trim_slash without_proof
  query_identity-Shows app principal r h =
      let key = principal_key principal in
      elim (Outcome-cases (get_with_proof tree json codec.unmarshal app.repository key)) [
        | inl (item, e) ↦
            answer_identity-Shows app principal item r
              (get_with_proof-IsLookup tree json laws codec.unmarshal app.repository key item e)
              (ground arith)
        | inr (inl (x, e)) ↦
            let (failing, apart) = lookup_error_fails x in
            refused (ground (arith, failing)) (ground (arith, apart)) (ground arith)
        | inr (inr e) ↦ absurd (ground arith)
      ]
