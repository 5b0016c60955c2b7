-- ===== src/Tests/ChainTests.antt =====
-- A block that seeds an administrator and a block by it, on small parameters: the theorems of the
-- Chain and Policy modules at them.
use wineventchain.Common.{
  ℕ, ◌≡◌, refl, true, false, List, [], ◌∷◌, ◌++◌, none, some, ok, err, length, arith, replicate,
  take, drop, take-append, drop-append, bytes_eq, codes, contains, All, hex_decode, ok_injective,
  ◌==◌, if◌then◌else◌,
}
use mathlib.Core.Option
use wineventchain.Chain.Response.{
  no_codespace, json_failure, FinalizeBlockResponse, CheckTxResponse,
}
use wineventchain.Chain.Tree.Assoc.{assoc_tree, assoc_laws}
use wineventchain.Chain.Rpc.{SignedPayload, Verify, validate_signature, sign}
use wineventchain.Chain.Rpc.Signing.{validate_signature-sign}
use wineventchain.Chain.Identity.Repository.{
  IdentityData, IdentityCodec, IdentityCodecLaw, get, has, is_seeded, role_admin, role_user,
  principal_key, seeded_key, store,
}
use wineventchain.Chain.Identity.App.{
  finalize, decode, finalize_register, respond, Requests, Commit, commit_register, IdentityApp,
  check_tx, finalize_block, run_commit, request_type_seed, request_type_register,
}
use wineventchain.Chain.Identity.Checks.{
  Accepts, check_tx-finalize_block, finalize_block-Accepts, short_key_panics,
}
use wineventchain.Chain.Identity.Blocks.{
  finalize_all, commit_all, IsSound, commit_principal, commit_identity,
}
use wineventchain.Chain.Identity.History.{commit_all-finalize_all}

-- The role after its length, then the key.
abbrev pub codec : IdentityCodec
codec = record {
  marshal = λ d. ok (length d.role ∷ (d.role ++ d.public_key));
  unmarshal = λ bs. elim bs [
    | [] ↦ err (json_failure [])
    | n ∷ rest ↦ ok (record { public_key = drop n rest; role = take n rest })
  ];
}

pub codec_law : IdentityCodecLaw codec
codec_law = record {
  unmarshal-marshal = λ d bs e. rw (← ok_injective e) (λ i. ok (record {
    public_key = drop-append (length d.role) d.role d.public_key refl i;
    role = take-append (length d.role) d.role d.public_key refl i;
  }));
}

abbrev pub admin : List ℕ
admin = codes "admin"

abbrev pub admin_key : List ℕ
admin_key = replicate 32 7

abbrev pub verify_all : Verify
verify_all key message signature = true

-- The first byte of an input is the kind of the request, the rest its principal.
abbrev pub requests : Requests
requests = record {
  payload = λ input. elim input [
    | [] ↦ err (json_failure [])
    | kind ∷ rest ↦ ok (record {
      type = if kind == 0 then request_type_seed else request_type_register;
      body = rest;
      principal = admin;
      signature = codes "0a";
    })
  ];
  seed = λ body. ok (record { principal = body; key = admin_key });
  register = λ body. ok (record { principal = body; role = role_user; key = 1 ∷ 2 ∷ [] });
}

abbrev pub App : Type 0
App = IdentityApp assoc_tree codec requests verify_all

-- The administrator is seeded.
abbrev pub seeded_app : App
seeded_app = record {
  repository = (
    (codes "meta/seeded", codes "true")
        ∷ (codes "principal/admin", 5 ∷ (role_admin ++ admin_key))
        ∷ [],
    2,
  );
  version_number = 2;
  seeded = false;
  registering = [];
}

seeded_app-IsSound : IsSound assoc_tree codec requests verify_all assoc_laws codec_law seeded_app
unfolding is_seeded seeded_key bytes_eq
seeded_app-IsSound = record {
  unseeded = λ u p d e. let same : true ≡ false = ok_injective u in ground arith;
  early = λ u e. refl;
}

abbrev pub register_input : List ℕ
register_input = 1 ∷ codes "bob"

abbrev pub bob : IdentityData
bob = record { public_key = 1 ∷ 2 ∷ []; role = role_user }

-- The same principal is registered twice in one block.
abbrev pub registered_app : App
registered_app = record seeded_app { registering = codes "bob" ∷ [] }

abbrev committed_app : App
committed_app = record seeded_app {
  repository =
      ((codes "principal/bob", 4 ∷ (role_user ++ (1 ∷ 2 ∷ []))) ∷ seeded_app.repository.0, 3);
  version_number = 3;
}

register_twice :
    finalize_all assoc_tree codec requests verify_all seeded_app
      (register_input ∷ register_input ∷ [])
    ≡ some (registered_app, commit_register (codes "bob") bob ∷ [])
unfolding finalize_all finalize_block finalize decode bytes_eq get principal_key validate_signature
    hex_decode finalize_register has contains respond
register_twice = refl

commit_bob :
    commit_all assoc_tree codec requests verify_all registered_app
      (commit_register (codes "bob") bob ∷ [])
    ≡ (committed_app, ok tt)
unfolding commit_all run_commit store principal_key
commit_bob = refl

commit_all-finalize_all_example :
    ((q : List ℕ) (d : IdentityData)
      → get assoc_tree codec seeded_app.repository q ≡ ok d
      → get assoc_tree codec committed_app.repository q ≡ ok d)
    × All
        (λ c.
          get assoc_tree codec committed_app.repository (commit_principal c)
          ≡ ok (commit_identity c))
        (commit_register (codes "bob") bob ∷ [])
    × IsSound assoc_tree codec requests verify_all assoc_laws codec_law committed_app
commit_all-finalize_all_example =
    commit_all-finalize_all assoc_tree codec requests verify_all assoc_laws codec_law
      (register_input ∷ register_input ∷ []) seeded_app registered_app committed_app
      (commit_register (codes "bob") bob ∷ []) seeded_app-IsSound register_twice commit_bob

check_tx-finalize_block_example :
    Option.map
      (λ (r : CheckTxResponse). r.code)
      (check_tx assoc_tree codec requests verify_all seeded_app register_input)
    ≡ Option.map
        (λ (r : App × FinalizeBlockResponse Commit). r.1.tx_result.code)
        (finalize_block assoc_tree codec requests verify_all seeded_app register_input)
check_tx-finalize_block_example =
    check_tx-finalize_block assoc_tree codec requests verify_all seeded_app register_input (2 ∷ [])
      refl

abbrev registered_response : FinalizeBlockResponse Commit
registered_response = record {
  tx_result = record { code = 0; codespace = no_codespace; log = none };
  app_hash = 2 ∷ [];
  commit_func = some (commit_register (codes "bob") bob);
}

register_once :
    finalize_block assoc_tree codec requests verify_all seeded_app register_input
    ≡ some (registered_app, registered_response)
unfolding finalize_block finalize decode bytes_eq get principal_key validate_signature hex_decode
    finalize_register has contains respond
register_once = refl

finalize_block-Accepts_example :
    Accepts assoc_tree codec requests verify_all register_input seeded_app registered_app
      (some (commit_register (codes "bob") bob))
finalize_block-Accepts_example =
    finalize_block-Accepts assoc_tree codec requests verify_all seeded_app register_input
      registered_app registered_response register_once

-- An administrator whose key has two bytes.
abbrev short_app : App
short_app = record seeded_app {
  repository = ((codes "principal/admin", 5 ∷ (role_admin ++ (1 ∷ 2 ∷ []))) ∷ [], 1);
}

abbrev register_payload : SignedPayload
register_payload = record {
  type = request_type_register;
  body = codes "bob";
  principal = admin;
  signature = codes "0a";
}

short_admin :
    get assoc_tree codec short_app.repository admin
    ≡ ok (record { public_key = 1 ∷ 2 ∷ []; role = role_admin })
unfolding get principal_key bytes_eq
short_admin = refl

not_seed : bytes_eq request_type_register request_type_seed ≡ false
unfolding bytes_eq
not_seed = refl

decoded_signature : hex_decode (codes "0a") ≡ some (10 ∷ [])
unfolding hex_decode
decoded_signature = refl

short_key_panics_example :
    (check_tx assoc_tree codec requests verify_all short_app register_input ≡ none)
    × (finalize_block assoc_tree codec requests verify_all short_app register_input ≡ none)
short_key_panics_example =
    short_key_panics assoc_tree codec requests verify_all short_app register_input register_payload
      (record { public_key = 1 ∷ 2 ∷ []; role = role_admin }) (10 ∷ []) refl not_seed short_admin
      decoded_signature (λ e. ground arith)

validate_signature-sign_example :
    validate_signature verify_all
      (sign (λ key body. 1 ∷ 2 ∷ []) request_type_register (codes "bob") admin [])
      admin_key
    ≡ ok true
validate_signature-sign_example =
    validate_signature-sign verify_all (λ key body. 1 ∷ 2 ∷ []) request_type_register (codes "bob")
      admin [] admin_key (omega arith, (omega arith, tt)) refl refl
