-- ===== src/Chain/Identity/App.antt =====
-- wineventchain/pkg/identity/app.go: the identity application. The JSON of the requests is the
-- parameter `requests`.
use wineventchain.Common.{
  ℕ, Bool, true, false, not, ◌||◌, List, [], ◌∷◌, ◌++◌, Option, none, some, Outcome, ok, err, panic,
  ◌>>=◌, ◌>>◌, guard, map_err, codes, bytes_eq, if◌then◌else◌, contains,
}
use wineventchain.Chain.Response.{
  Failure, already_seeded, only_admins_register, principal_exists, multiplex, identity,
  no_codespace, ErrorResponse, FinalizeBlockResponse, CheckTxResponse, new_error_response,
  into_finalize_block_response, into_check_tx_response, code_ok, code_unknown_error,
  code_encoding_error,
}
use wineventchain.Chain.Tree.{Tree}
use wineventchain.Chain.Rpc.{SignedPayload, Verify, validate_signature}
use wineventchain.Chain.Identity.Repository.{
  IdentityData, IdentityCodec, role_admin, get, has, store, is_seeded, set_seeded,
}

-- common/pkg/types/identity/codes.go
abbrev pub code_unknown_request_type : ℕ
code_unknown_request_type = 1002

abbrev pub code_invalid_signature : ℕ
code_invalid_signature = 1003

abbrev pub code_already_seeded : ℕ
code_already_seeded = 1004

abbrev pub code_unauthorized : ℕ
code_unauthorized = 1005

abbrev pub code_principal_already_exists : ℕ
code_principal_already_exists = 1007

-- common/pkg/types/identity/rpc.go
abbrev pub request_type_seed : List ℕ
request_type_seed = codes "seed"

abbrev pub request_type_register : List ℕ
request_type_register = codes "register"

pub record PayloadSeed : Type 0 where
  pub principal : List ℕ
  pub key : List ℕ

pub record PayloadRegister : Type 0 where
  pub principal : List ℕ
  pub role : List ℕ
  pub key : List ℕ

pub record Requests : Type 0 where
  pub payload : List ℕ → Outcome Failure SignedPayload
  pub seed : List ℕ → Outcome Failure PayloadSeed
  pub register : List ℕ → Outcome Failure PayloadRegister

-- The commit functions of the two requests.
pub data Commit : Type 0 where
  commit_seed commit_register : List ℕ → IdentityData → Commit

-- What an error of the decoding, of the repository or of the signature check is answered with.
unfoldable pub encoding_error : Failure → ErrorResponse
unfolding new_error_response
encoding_error e = new_error_response code_encoding_error multiplex (some e)

unfoldable pub unknown_error : Failure → ErrorResponse
unfolding new_error_response
unknown_error e = new_error_response code_unknown_error multiplex (some e)

unfoldable pub identity_error : ℕ → Option Failure → ErrorResponse
unfolding new_error_response
identity_error code e = new_error_response code identity e

unfoldable pub no_identity : IdentityData
no_identity = record { public_key = []; role = [] }

module _ (tree : Tree) (codec : IdentityCodec) (requests : Requests) (verify : Verify) where
  pub record IdentityApp : Type 0 where
    pub repository : tree.State
    pub version_number : ℕ
    pub seeded : Bool
    pub registering : List (List ℕ)

  abbrev pub Response : Type 0
  Response = FinalizeBlockResponse Commit

  unfoldable pub extract_identity_data :
      IdentityApp → SignedPayload → Outcome ErrorResponse IdentityData
  extract_identity_data app payload = do
    requester ← map_err unknown_error (get tree codec app.repository payload.principal)
    valid ← map_err unknown_error (validate_signature verify payload requester.public_key)
    guard valid (identity_error code_invalid_signature none)
    ok requester

  -- Only the seed request is not signed.
  unfoldable pub decode :
      IdentityApp → List ℕ → Outcome ErrorResponse (SignedPayload × IdentityData)
  unfolding extract_identity_data
  decode app input = do
    payload ← map_err encoding_error (requests.payload input)
    requester ←
        if not (bytes_eq payload.type request_type_seed)
        then extract_identity_data app payload
        else ok no_identity
    ok (payload, requester)

  -- CheckTx on a seed request.
  unfoldable pub check_seed : IdentityApp → SignedPayload → Outcome ErrorResponse (Unit {0})
  check_seed app payload = do
    seed_data ← map_err encoding_error (requests.seed payload.body)
    seeded ← map_err unknown_error (is_seeded tree codec app.repository)
    guard (not (seeded || app.seeded)) (identity_error code_already_seeded (some already_seeded))

  -- CheckTx on a registration.
  unfoldable pub check_register :
      IdentityApp → SignedPayload → IdentityData → Outcome ErrorResponse (Unit {0})
  check_register app payload requester = do
    guard (bytes_eq requester.role role_admin)
        (identity_error code_unauthorized (some only_admins_register))
    register_data ← map_err encoding_error (requests.register payload.body)
    exists ← map_err unknown_error (has tree codec app.repository register_data.principal)
    guard (not (exists || contains app.registering register_data.principal))
        (identity_error code_principal_already_exists (some principal_exists))

  unfoldable pub check : IdentityApp → List ℕ → Outcome ErrorResponse (Unit {0})
  check app input = do
    (payload, requester) ← decode app input
    if bytes_eq payload.type request_type_seed
        then check_seed app payload
        else if bytes_eq payload.type request_type_register
        then check_register app payload requester
        else err (identity_error code_unknown_request_type none)

  -- IdentityApp.CheckTx; `none` is a panic.
  unfoldable pub check_tx : IdentityApp → List ℕ → Option CheckTxResponse
  unfolding into_check_tx_response
  check_tx app input = elim (check app input) [
    | ok _ ↦ some (record { code = code_ok; codespace = identity; log = none })
    | err e ↦ some (into_check_tx_response e)
    | panic ↦ none
  ]

  -- The end of FinalizeBlock: the hash of the tree before the commit.
  unfoldable pub respond : IdentityApp → Commit → Outcome ErrorResponse (IdentityApp × Response)
  unfolding into_finalize_block_response
  respond app commit = elim (tree.hash app.repository) [
    | ok app_hash ↦ ok (
      app,
      record {
        tx_result = record { code = code_ok; codespace = no_codespace; log = none };
        app_hash = app_hash;
        commit_func = some commit;
      },
    )
    | err e ↦ ok (app, into_finalize_block_response (unknown_error e))
    | panic ↦ panic
  ]

  -- FinalizeBlock on a seed request: the principal becomes the administrator.
  unfoldable pub finalize_seed :
      IdentityApp → SignedPayload → Outcome ErrorResponse (IdentityApp × Response)
  finalize_seed app payload = do
    seed_data ← map_err encoding_error (requests.seed payload.body)
    seeded ← map_err unknown_error (is_seeded tree codec app.repository)
    guard (not (seeded || app.seeded)) (identity_error code_already_seeded (some already_seeded))
    let entry : IdentityData = record { public_key = seed_data.key; role = role_admin }
    respond
        (record app { seeded = true; registering = app.registering ++ (seed_data.principal ∷ []) })
        (commit_seed seed_data.principal entry)

  -- FinalizeBlock on a registration.
  unfoldable pub finalize_register :
      IdentityApp → SignedPayload → IdentityData → Outcome ErrorResponse (IdentityApp × Response)
  finalize_register app payload requester = do
    guard (bytes_eq requester.role role_admin)
        (identity_error code_unauthorized (some only_admins_register))
    register_data ← map_err encoding_error (requests.register payload.body)
    let entry : IdentityData = record { public_key = register_data.key; role = register_data.role }
    exists ← map_err unknown_error (has tree codec app.repository register_data.principal)
    guard (not (exists || contains app.registering register_data.principal))
        (identity_error code_principal_already_exists (some principal_exists))
    respond (record app { registering = app.registering ++ (register_data.principal ∷ []) })
        (commit_register register_data.principal entry)

  unfoldable pub finalize : IdentityApp → List ℕ → Outcome ErrorResponse (IdentityApp × Response)
  finalize app input = do
    (payload, requester) ← decode app input
    if bytes_eq payload.type request_type_seed
        then finalize_seed app payload
        else if bytes_eq payload.type request_type_register
        then finalize_register app payload requester
        else err (identity_error code_unknown_request_type none)

  -- IdentityApp.FinalizeBlock; `none` is a panic.
  unfoldable pub finalize_block : IdentityApp → List ℕ → Option (IdentityApp × Response)
  unfolding into_finalize_block_response
  finalize_block app input = elim (finalize app input) [
    | ok r ↦ some r
    | err e ↦ some (app, into_finalize_block_response e)
    | panic ↦ none
  ]

  -- The commit functions: the state within the block is dropped, and the changes are applied
  -- to the tree, one after the other, up to the first that fails.
  unfoldable pub reset : IdentityApp → IdentityApp
  reset app = record app { seeded = false; registering = [] }

  unfoldable pub save : IdentityApp → IdentityApp × Outcome Failure (Unit {0})
  save app = elim (tree.save_version app.repository) [
    | ok (t, _, version_number) ↦
        (record app { repository = t; version_number = version_number }, ok tt)
    | err e ↦ (app, err e)
    | panic ↦ (app, panic)
  ]

  unfoldable pub apply :
      IdentityApp
      → Outcome Failure tree.State
      → (IdentityApp → IdentityApp × Outcome Failure (Unit {0}))
      → IdentityApp × Outcome Failure (Unit {0})
  apply app (ok t) next = next (record app { repository = t })
  apply app (err e) next = (app, err e)
  apply app panic next = (app, panic)

  unfoldable pub run_commit : IdentityApp → Commit → IdentityApp × Outcome Failure (Unit {0})
  unfolding reset save apply
  run_commit app (commit_seed principal entry) =
      apply (reset app) (store tree codec app.repository principal entry)
        λ stored. apply stored (set_seeded tree codec stored.repository) save
  run_commit app (commit_register principal entry) =
      apply (reset app) (store tree codec app.repository principal entry) save
