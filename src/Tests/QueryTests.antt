-- ===== src/Tests/QueryTests.antt =====
-- A query for the administrator: the theorem of Chain/Multiplexer/Answers at it.
use wineventchain.Common.{
  ◌≡◌, ◌≢◌, ◌⊎◌, refl, false, [], ◌∷◌, ◌++◌, none, some, ok, codes, bytes_eq,
}
use wineventchain.Chain.Response.{identity}
use wineventchain.Chain.Tree.Assoc.{assoc_tree, assoc_laws}
use wineventchain.Chain.Proof.{
  ItemResponse, ProofFormat, type_iavl, get_with_proof, proof_op_for_tree, get_proof_height,
}
use wineventchain.Chain.Identity.Repository.{role_admin, principal_key}
use wineventchain.Chain.Identity.Query.{answer_identity, query_identity, trim_slash}
use wineventchain.Chain.Identity.Answers.{Shows}
use wineventchain.Chain.Multiplexer.App.{MuxedRequest}
use wineventchain.Chain.Multiplexer.Identities.{app_name, identity_apps}
use wineventchain.Chain.Multiplexer.Query.{query_app}
use wineventchain.Chain.Multiplexer.Answers.{identity_queries, query_app-Shows}
use wineventchain.Tests.ChainTests.{
  admin, admin_key, codec, codec_law, requests, verify_all, seeded_app,
}
use wineventchain.Tests.MultiplexerTests.{formats, mux}

abbrev json : ProofFormat
json hash proof = ok (hash ++ proof)

abbrev shown : ItemResponse
shown = record {
  response = record {
    code = 0;
    codespace = identity;
    log = none;
    value = 5 ∷ (role_admin ++ admin_key);
  };
  index = 0;
  key = admin;
  height = 1;
  proof_op = some (record {
    type = type_iavl;
    key = codes "principal/admin";
    body = 2 ∷ codes "principal/admin";
  });
}

asked_admin :
    query_app
      (identity_apps assoc_tree codec requests verify_all formats)
      formats
      (identity_queries assoc_tree codec requests verify_all formats json)
      mux
      (0 ∷ [])
      (b'/' ∷ admin)
      0
    ≡ ok shown
unfolding query_app query_identity answer_identity trim_slash get_with_proof proof_op_for_tree
    get_proof_height principal_key bytes_eq
asked_admin = refl

query_app-Shows_example :
    Shows assoc_tree codec requests verify_all json assoc_laws codec_law seeded_app admin shown
    ⊎ (((q : MuxedRequest) → formats.request (0 ∷ []) ≡ ok q → bytes_eq q.app app_name ≡ false)
        × (shown.response.code ≢ 0)
        × (shown.proof_op ≡ none))
query_app-Shows_example =
    query_app-Shows assoc_tree codec requests verify_all formats json assoc_laws codec_law mux
      (0 ∷ []) admin 0 shown asked_admin
