-- ===== src/Chain/Multiplexer/Answers.antt =====
-- wineventchain/pkg/multiplexer/abci.go and identity/app.go: queries for identities.
use wineventchain.Common.{
  ℕ, ◌≡◌, ◌≢◌, ◌⊎◌, inl, inr, false, List, [], ◌∷◌, none, ok, bytes_eq, arith, Bool-cases,
  Outcome-cases,
}
use wineventchain.Chain.Response.{code_ok, new_error_response}
use wineventchain.Chain.Tree.{Tree, TreeLaws}
use wineventchain.Chain.Proof.{ItemResponse, ProofFormat, without_proof}
use wineventchain.Chain.Rpc.{Verify}
use wineventchain.Chain.Identity.Repository.{IdentityCodec, IdentityCodecLaw}
use wineventchain.Chain.Identity.App.{Requests}
use wineventchain.Chain.Identity.Query.{query_identity, init_identity}
use wineventchain.Chain.Identity.Answers.{Shows, query_identity-Shows}
use wineventchain.Chain.Multiplexer.App.{Formats, MuxedRequest, Multiplexer}
use wineventchain.Chain.Multiplexer.Identities.{app_name, identity_apps}
use wineventchain.Chain.Multiplexer.Query.{AppQueries, query_app}

module _ (tree : Tree) (codec : IdentityCodec) (requests : Requests) (verify : Verify)
    (formats : Formats) (json : ProofFormat) where
  abbrev pub identity_queries : AppQueries (identity_apps tree codec requests verify formats)
  identity_queries = record {
    names = app_name ∷ [];
    query = λ name app path height. query_identity tree codec requests verify json app path;
    init_chain = λ name. init_identity tree codec requests verify json;
  }

  abbrev Mux : Type 0
  Mux = Multiplexer (identity_apps tree codec requests verify formats) formats

  -- A query of the path of a principal, where the multiplexer answers it: if the request names the
  -- identity application, with success, the identity that is stored under the principal, and the
  -- proof that the tree gives for its key; as not found, with such a proof, only where none is stored;
  -- or another error without a proof. Every other request is answered with an error without a proof.
  pub query_app-Shows :
      (laws : TreeLaws tree) (law : IdentityCodecLaw codec) (mux : Mux) (input principal : List ℕ)
      (height : ℕ) (r : ItemResponse)
      → query_app
          (identity_apps tree codec requests verify formats)
          formats
          identity_queries
          mux
          input
          (b'/' ∷ principal)
          height
        ≡ ok r
      → Shows tree codec requests verify json laws law mux.world principal r
        ⊎ (((q : MuxedRequest) → formats.request input ≡ ok q → bytes_eq q.app app_name ≡ false)
            × (r.response.code ≢ code_ok)
            × (r.proof_op ≡ none))
  unfolding query_app new_error_response without_proof
  query_app-Shows laws law mux input principal height r h =
      elim (Outcome-cases (formats.request input)) [
        | inr (inl (x, e)) ↦ inr (λ q f. absurd (ground arith), λ c. ground arith, ground arith)
        | inr (inr e) ↦ absurd (ground arith)
        | inl (q, e) ↦ elim (Bool-cases (bytes_eq q.app app_name)) [
          | inl named ↦ inl (
              query_identity-Shows tree codec requests verify json laws law mux.world principal r
                (ground arith))
          | inr other ↦ inr (λ q' f. ground arith, λ c. ground arith, ground arith)
        ]
      ]
