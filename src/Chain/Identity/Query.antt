-- ===== src/Chain/Identity/Query.antt =====
-- wineventchain/pkg/identity/app.go: Query, Info and InitChain, which change nothing.
use wineventchain.Common.{
  ℕ, ◌==◌, List, [], ◌∷◌, none, some, Outcome, ok, err, panic, if◌then◌else◌, hex_encode,
}
use wineventchain.Chain.Response.{
  Failure, identity_not_found, tree_uninitialized, identity, ErrorResponse, code_ok,
}
use wineventchain.Chain.Tree.{Tree}
use wineventchain.Chain.Proof.{
  ItemWithProof, ProofFormat, ItemResponse, without_proof, get_with_proof,
}
use wineventchain.Chain.Rpc.{Verify}
use wineventchain.Chain.Identity.Repository.{IdentityData, IdentityCodec, principal_key}
use wineventchain.Chain.Identity.App.{Requests, IdentityApp, identity_error, unknown_error}

abbrev pub code_not_found : ℕ
code_not_found = 1006

abbrev pub code_identity_tree_uninitialized : ℕ
code_identity_tree_uninitialized = 1008

abbrev pub code_unknown_identity_error : ℕ
code_unknown_identity_error = 1009

pub record IdentityInfo : Type 0 where
  pub version : ℕ
  pub app_hash : List ℕ

-- The path without one slash before it.
unfoldable pub trim_slash : List ℕ → List ℕ
trim_slash [] = []
trim_slash (c ∷ cs) = if c == b'/' then cs else c ∷ cs

unfoldable pub lookup_error : Failure → ErrorResponse
unfolding identity_error
lookup_error tree_uninitialized =
    identity_error code_identity_tree_uninitialized (some tree_uninitialized)
lookup_error e = identity_error code_unknown_identity_error (some e)

module _ (tree : Tree) (codec : IdentityCodec) (requests : Requests) (verify : Verify)
    (json : ProofFormat) where
  abbrev pub App : Type 0
  App = IdentityApp tree codec requests verify

  -- The log of an absent identity is another text than that of the error.
  unfoldable pub answer_identity :
      List ℕ → ItemWithProof IdentityData → Outcome Failure ItemResponse
  answer_identity principal found = elim found.item [
    | none ↦ ok (record {
      response = record {
        code = code_not_found;
        codespace = identity;
        log = some identity_not_found;
        value = [];
      };
      index = found.index;
      key = principal;
      height = found.height;
      proof_op = some found.proof_op;
    })
    | some entry ↦ elim (codec.marshal entry) [
      | err e ↦ err e
      | panic ↦ panic
      | ok marshalled ↦ ok (record {
        response = record { code = code_ok; codespace = identity; log = none; value = marshalled };
        index = found.index;
        key = principal;
        height = found.height;
        proof_op = some found.proof_op;
      })
    ]
  ]

  -- IdentityApp.Query, by the path of the request.
  unfoldable pub query_identity : App → List ℕ → Outcome Failure ItemResponse
  unfolding answer_identity without_proof trim_slash lookup_error
  query_identity app path =
      let principal = trim_slash path in
      elim (get_with_proof tree json codec.unmarshal app.repository (principal_key principal)) [
        | err e ↦ ok (without_proof (lookup_error e))
        | panic ↦ panic
        | ok found ↦ answer_identity principal found
      ]

  -- IdentityApp.Info, or the error that it answers with.
  unfoldable pub identity_info : App → Outcome ErrorResponse IdentityInfo
  unfolding unknown_error
  identity_info app = elim (tree.hash app.repository) [
    | ok hash ↦ ok (record { version = app.version_number; app_hash = hex_encode hash })
    | err e ↦ err (unknown_error e)
    | panic ↦ panic
  ]

  -- IdentityApp.InitChain, which ends the process where there is no hash.
  unfoldable pub init_identity : App → Outcome Failure (List ℕ)
  init_identity app = elim (tree.hash app.repository) [
    | ok hash ↦ ok hash
    | err e ↦ panic
    | panic ↦ panic
  ]
