-- ===== src/Chain/Retention/App.antt =====
-- wineventchain/pkg/retentionpolicy/app.go and common/pkg/types/retention: setting the retention
-- policy. The database, the JSON and the hash of the policy (hashstructure) are parameters.
use wineventchain.Common.{
  ℕ, ◌≡◌, not, ◌||◌, List, [], Option, none, some, Outcome, ok, err, panic, ◌>>=◌, ◌>>◌, guard,
  map_err, codes, bytes_eq, if◌then◌else◌, is_set, put_little_endian,
}
use wineventchain.Chain.Response.{
  Failure, only_admins_set_policy, policy_already_set, invalid_policy, multiplex, rpc,
  retention_policy, ErrorResponse, FinalizeBlockResponse, CheckTxResponse, new_error_response,
  into_finalize_block_response, into_check_tx_response, code_ok, code_unknown_error,
  code_encoding_error,
}
use wineventchain.Chain.Tree.{Tree}
use wineventchain.Chain.Rpc.{SignedPayload, Verify, validate_signature, code_invalid_signature}
use wineventchain.Chain.Identity.Repository.{IdentityData, IdentityCodec, role_admin, get}
use wineventchain.Common.{All}
use wineventchain.Policy.Duration.{IsReadable}
use wineventchain.Policy.{RetentionPolicy, StoredPolicy, validate, new_stored_policy}

-- common/pkg/types/retention/codes.go: the first of the constants counts for iota.
abbrev pub code_unknown_request_type : ℕ
code_unknown_request_type = 4002

abbrev pub code_unsupported_request : ℕ
code_unsupported_request = 4003

abbrev pub code_unauthorized : ℕ
code_unauthorized = 4004

abbrev pub code_policy_already_set : ℕ
code_policy_already_set = 4005

abbrev pub code_policy_not_set : ℕ
code_policy_not_set = 4006

abbrev pub code_invalid_policy : ℕ
code_invalid_policy = 4007

abbrev pub request_type_set_policy : List ℕ
request_type_set_policy = codes "set_policy"

-- The database of github.com/cometbft/cometbft-db: `none` is nil, the missing key.
pub record Db : Type 1 where
  pub State : Type 0
  pub get : State → List ℕ → Outcome Failure (Option (List ℕ))
  pub set : State → List ℕ → List ℕ → Outcome Failure State

pub record DbLaws (db : Db) : Type 0 where
  pub get_set : (s s' : db.State) (k v : List ℕ) → db.set s k v ≡ ok s' → db.get s' k ≡ ok (some v)

-- encoding/json on the payloads, the requests, their answer and the stored policies, and
-- hashstructure.Hash on the stored policy, and time.Duration.String.
pub record Formats : Type 0 where
  pub payload : List ℕ → Outcome Failure SignedPayload
  pub set_policy : List ℕ → Outcome Failure RetentionPolicy
  pub set_policy_response : Outcome Failure (List ℕ)
  pub marshal : StoredPolicy → Outcome Failure (List ℕ)
  pub unmarshal : List ℕ → Outcome Failure StoredPolicy
  pub hash : Option StoredPolicy → Outcome Failure ℕ
  pub print_duration : ℕ → List ℕ

-- The periods of the filters are read back from their JSON.
abbrev pub HasReadablePeriods : Formats → StoredPolicy → Type 0
HasReadablePeriods formats p =
    All (λ f. IsReadable formats.print_duration f.policy_action.retention_period) p.policy.filters

-- encoding/json reads back a policy whose texts are valid UTF-8, if MarshalledDuration reads back
-- its periods.
pub record FormatLaws (formats : Formats) : Type 1 where
  pub IsUtf8 : StoredPolicy → Type 0
  pub unmarshal-marshal :
      (p : StoredPolicy) (bs : List ℕ)
      → IsUtf8 p
      → HasReadablePeriods formats p
      → formats.marshal p ≡ ok bs
      → formats.unmarshal bs ≡ ok p

abbrev pub db_key : List ℕ
db_key = codes "policy"

unfoldable pub refuse : ℕ → Option Failure → ErrorResponse
unfolding new_error_response
refuse code e = new_error_response code retention_policy e

unfoldable pub multiplex_error : ℕ → Failure → ErrorResponse
unfolding new_error_response
multiplex_error code e = new_error_response code multiplex (some e)

module _ (tree : Tree) (codec : IdentityCodec) (db : Db) (formats : Formats) (verify : Verify) where
  -- `identities` is the repository of the identity application, `store` the database.
  pub record RetentionApp : Type 0 where
    pub identities : tree.State
    pub store : db.State
    pub policy : Option StoredPolicy
    pub tx_policy : Option StoredPolicy

  -- RetentionPolicyApp.loadPolicy, and NewRetentionPolicyApp around it.
  unfoldable pub load_policy : RetentionApp → Outcome Failure RetentionApp
  load_policy app = do
    found ← db.get app.store db_key
    elim found [
      | none ↦ ok app
      | some bytes ↦ formats.unmarshal bytes >>= λ policy. ok (record app { policy = some policy })
    ]

  unfoldable pub new_retention_app : tree.State → db.State → Outcome Failure RetentionApp
  unfolding load_policy
  new_retention_app identities store =
      load_policy
        (record { identities = identities; store = store; policy = none; tx_policy = none })

  -- RetentionPolicyApp.appHash
  unfoldable pub app_hash : RetentionApp → Outcome Failure (List ℕ)
  app_hash app = do hash ← formats.hash app.policy; ok (put_little_endian 8 hash)

  unfoldable pub decode :
      RetentionApp → List ℕ → Outcome ErrorResponse (SignedPayload × IdentityData)
  unfolding new_error_response multiplex_error
  decode app input = do
    payload ← map_err (multiplex_error code_encoding_error) (formats.payload input)
    requester ←
        map_err (multiplex_error code_unknown_error)
          (get tree codec app.identities payload.principal)
    valid ←
        map_err (multiplex_error code_unknown_error)
          (validate_signature verify payload requester.public_key)
    guard valid (new_error_response code_invalid_signature rpc none)
    ok (payload, requester)

  -- The checks that CheckTx and FinalizeBlock begin with.
  unfoldable pub admit : RetentionApp → List ℕ → Outcome ErrorResponse SignedPayload
  admit app input = do
    (payload, requester) ← decode app input
    guard (bytes_eq requester.role role_admin)
        (refuse code_unauthorized (some only_admins_set_policy))
    guard (not (is_set app.policy || is_set app.tx_policy))
        (refuse code_policy_already_set (some policy_already_set))
    ok payload

  -- The request of a set_policy payload, parsed and validated.
  unfoldable pub read_policy : SignedPayload → Outcome ErrorResponse RetentionPolicy
  read_policy payload = do
    policy ← map_err (multiplex_error code_encoding_error) (formats.set_policy payload.body)
    elim (validate policy) [
      | none ↦ ok policy
      | some e ↦ err (refuse code_invalid_policy (some invalid_policy))
    ]

  unfoldable pub check : RetentionApp → List ℕ → Outcome ErrorResponse RetentionPolicy
  check app input = do
    payload ← admit app input
    if bytes_eq payload.type request_type_set_policy
        then read_policy payload
        else err (refuse code_unknown_request_type none)

  -- RetentionPolicyApp.CheckTx; `none` is a panic.
  unfoldable pub check_tx : RetentionApp → List ℕ → Option CheckTxResponse
  unfolding into_check_tx_response
  check_tx app input = elim (check app input) [
    | ok _ ↦ some (record { code = code_ok; codespace = retention_policy; log = none })
    | err e ↦ some (into_check_tx_response e)
    | panic ↦ none
  ]

  -- The hash that FinalizeBlock answers with: an error of appHash is not looked at, since the test
  -- after the call is on the error of decode, and leaves the hash nil.
  unfoldable pub answered_hash : RetentionApp → Outcome ErrorResponse (List ℕ)
  unfolding app_hash
  answered_hash app = elim (app_hash app) [ ok h ↦ ok h | err e ↦ ok [] | panic ↦ panic ]

  -- The commit function is told by the policy that it commits.
  unfoldable pub finalize :
      ℕ
      → RetentionApp
      → List ℕ
      → Outcome ErrorResponse (RetentionApp × FinalizeBlockResponse StoredPolicy)
  unfolding new_stored_policy
  finalize time app input = do
    payload ← admit app input
    hash ← answered_hash app
    if bytes_eq payload.type request_type_set_policy
        then (do
          request ← read_policy payload
          _ ← map_err (multiplex_error code_encoding_error) formats.set_policy_response
          let policy : StoredPolicy = new_stored_policy request payload.principal time
          let response : FinalizeBlockResponse StoredPolicy = record {
            tx_result = record { code = code_ok; codespace = retention_policy; log = none };
            app_hash = hash;
            commit_func = some policy;
          }
          ok (record app { tx_policy = some policy }, response))
        else err (refuse code_unknown_request_type none)

  -- RetentionPolicyApp.FinalizeBlock; `none` is a panic.
  unfoldable pub finalize_block :
      ℕ → RetentionApp → List ℕ → Option (RetentionApp × FinalizeBlockResponse StoredPolicy)
  unfolding into_finalize_block_response
  finalize_block time app input = elim (finalize time app input) [
    | ok r ↦ some r
    | err e ↦ some (app, into_finalize_block_response e)
    | panic ↦ none
  ]

  -- The commit function: the policy is set in memory before it is written.
  unfoldable pub run_commit :
      RetentionApp → StoredPolicy → RetentionApp × Outcome Failure (Unit {0})
  run_commit app policy =
      let set : RetentionApp = record app { policy = some policy; tx_policy = none } in
      elim (formats.marshal policy >>= λ bytes. db.set app.store db_key bytes) [
        | ok store ↦ (record set { store = store }, ok tt)
        | err e ↦ (set, err e)
        | panic ↦ (set, panic)
      ]
