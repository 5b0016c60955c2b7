-- ===== src/Chain/Events/App.antt =====
-- wineventchain/pkg/events/app.go: the events application. The JSON of the requests, SHA-256 and the
-- identities' tree are parameters; an event is created for the height and the time of its block.
use wineventchain.Common.{
  ℕ, not, List, [], ◌∷◌, ◌++◌, Option, none, some, Outcome, ok, err, panic, ◌>>=◌, ◌>>◌, guard,
  map_err, codes, bytes_eq, if◌then◌else◌, contains, hex_encode,
}
use wineventchain.Chain.Response.{
  Failure, unknown_request, Codespace, multiplex, rpc, events, ErrorResponse, FinalizeBlockResponse,
  CheckTxResponse, new_error_response, into_finalize_block_response, into_check_tx_response,
  code_ok, code_unknown_error, code_encoding_error,
}
use wineventchain.Chain.Tree.{Tree}
use wineventchain.Chain.Rpc
use wineventchain.Chain.Rpc.{SignedPayload, Verify, validate_signature}
use wineventchain.Chain.Identity.Repository.{IdentityCodec, get}
use wineventchain.Chain.Events.Types.{
  Event, ScrubbedEvent, Metadata, EventWithMetadata, new_event_hash,
}
use wineventchain.Chain.Events.Repository.{EventCodec, store_event}

-- common/pkg/types/events/code.go and rpc.go
abbrev pub code_unknown_event_error : ℕ
code_unknown_event_error = 1

abbrev pub code_invalid_query_path : ℕ
code_invalid_query_path = 2

abbrev pub code_event_not_found : ℕ
code_event_not_found = 3

abbrev pub code_tree_uninitialized : ℕ
code_tree_uninitialized = 4

abbrev pub request_type_create : List ℕ
request_type_create = codes "create"

-- encoding/json on the payloads, the requests, their answer and the events, and SHA-256.
pub record EventFormats : Type 0 where
  pub payload : List ℕ → Outcome Failure SignedPayload
  pub create : List ℕ → Outcome Failure ScrubbedEvent
  pub create_response : Metadata → Outcome Failure (List ℕ)
  pub event : Event → Outcome Failure (List ℕ)
  pub sha256 : List ℕ → List ℕ

unfoldable pub refuse : ℕ → Codespace → Failure → ErrorResponse
unfolding new_error_response
refuse code codespace e = new_error_response code codespace (some e)

module _ (tree : Tree) (identity_codec : IdentityCodec) (codec : EventCodec)
    (formats : EventFormats) (verify : Verify) where
  -- `creating` holds the identifiers of the events of the block, in hexadecimal.
  pub record EventsApp : Type 0 where
    pub repository : tree.State
    pub identities : tree.State
    pub version_number : ℕ
    pub creating : List (List ℕ)

  unfoldable pub decode : EventsApp → List ℕ → Outcome ErrorResponse SignedPayload
  unfolding refuse new_error_response
  decode app input = do
    payload ← map_err (refuse code_encoding_error multiplex) (formats.payload input)
    requester ←
        map_err (refuse code_unknown_error multiplex)
          (get tree identity_codec app.identities payload.principal)
    valid ←
        map_err (refuse code_unknown_error multiplex)
          (validate_signature verify payload requester.public_key)
    guard valid (new_error_response Rpc.code_invalid_signature rpc none)
    ok payload

  unfoldable pub check : EventsApp → List ℕ → Outcome ErrorResponse ScrubbedEvent
  check app input = do
    payload ← decode app input
    if bytes_eq payload.type request_type_create
        then map_err (refuse code_encoding_error multiplex) (formats.create payload.body)
        else err (refuse Rpc.code_unknown_request_type rpc (unknown_request payload.type))

  -- EventsApp.CheckTx; `none` is a panic.
  unfoldable pub check_tx : EventsApp → List ℕ → Option CheckTxResponse
  unfolding into_check_tx_response
  check_tx app input = elim (check app input) [
    | ok _ ↦ some (record { code = code_ok; codespace = multiplex; log = none })
    | err e ↦ some (into_check_tx_response e)
    | panic ↦ none
  ]

  -- The event of a create request with its identifier, up to the check for duplicates.
  unfoldable pub read_event :
      ℕ → EventsApp → SignedPayload → Outcome ErrorResponse (ScrubbedEvent × List ℕ)
  unfolding new_error_response
  read_event height app payload = do
    scrubbed ← map_err (refuse code_encoding_error multiplex) (formats.create payload.body)
    event_id ←
        map_err (refuse code_unknown_error multiplex)
          (new_event_hash formats.sha256 formats.event height payload.principal scrubbed.event)
    guard (not (contains app.creating (hex_encode event_id)))
        (new_error_response code_unknown_event_error events none)
    ok (scrubbed, event_id)

  -- The hash before the commit, and the answer that can be marshalled.
  unfoldable pub answer : EventsApp → Metadata → Outcome ErrorResponse (List ℕ)
  answer app metadata = do
    app_hash ← map_err (refuse code_unknown_error multiplex) (tree.hash app.repository)
    _ ← map_err (refuse code_unknown_error multiplex) (formats.create_response metadata)
    ok app_hash

  -- The rest of FinalizeBlock on a create request, after the identifier is noted: an error of it
  -- leaves the note.
  unfoldable pub respond :
      EventsApp
      → EventWithMetadata
      → Outcome ErrorResponse (EventsApp × FinalizeBlockResponse EventWithMetadata)
  unfolding into_finalize_block_response
  respond app event = elim (answer app event.metadata) [
    | ok app_hash ↦ ok (
      app,
      record {
        tx_result = record { code = code_ok; codespace = events; log = none };
        app_hash = app_hash;
        commit_func = some event;
      },
    )
    | err e ↦ ok (app, into_finalize_block_response e)
    | panic ↦ panic
  ]

  unfoldable pub create :
      ℕ
      → ℕ
      → EventsApp
      → SignedPayload
      → Outcome ErrorResponse (EventsApp × FinalizeBlockResponse EventWithMetadata)
  create height time app payload = do
    (scrubbed, event_id) ← read_event height app payload
    let metadata : Metadata = record {
      event_id = event_id;
      received_time = time;
      principal = payload.principal;
    }
    respond (record app { creating = app.creating ++ (hex_encode event_id ∷ []) })
        (record { scrubbed = scrubbed; metadata = metadata })

  unfoldable pub dispatch :
      ℕ
      → ℕ
      → EventsApp
      → SignedPayload
      → Outcome ErrorResponse (EventsApp × FinalizeBlockResponse EventWithMetadata)
  dispatch height time app payload =
      if bytes_eq payload.type request_type_create
      then create height time app payload
      else err (refuse Rpc.code_unknown_request_type rpc (unknown_request payload.type))

  unfoldable pub settle :
      EventsApp
      → Outcome ErrorResponse (EventsApp × FinalizeBlockResponse EventWithMetadata)
      → Option (EventsApp × FinalizeBlockResponse EventWithMetadata)
  unfolding into_finalize_block_response
  settle app (ok r) = some r
  settle app (err e) = some (app, into_finalize_block_response e)
  settle app panic = none

  -- EventsApp.FinalizeBlock; `none` is a panic. The working tree is set back to the last version.
  unfoldable pub finalize_block :
      ℕ → ℕ → EventsApp → List ℕ → Option (EventsApp × FinalizeBlockResponse EventWithMetadata)
  unfolding settle
  finalize_block height time app input = elim (decode app input) [
    | err e ↦ settle app (err e)
    | panic ↦ none
    | ok payload ↦ elim (tree.load_version app.repository app.version_number) [
      | err e ↦ settle app (err (refuse Rpc.code_unknown_request_type rpc e))
      | panic ↦ none
      | ok t ↦
          let loaded : EventsApp = record app { repository = t } in
          settle loaded (dispatch height time loaded payload)
    ]
  ]

  -- The commit function of an event.
  unfoldable pub run_commit : EventsApp → EventWithMetadata → EventsApp × Outcome Failure (Unit {0})
  run_commit app event =
      let reset : EventsApp = record app { creating = [] } in
      elim (store_event tree codec app.repository event) [
        | err e ↦ (reset, err e)
        | panic ↦ (reset, panic)
        | ok t ↦ elim (tree.save_version t) [
          | err e ↦ (record reset { repository = t }, err e)
          | panic ↦ (record reset { repository = t }, panic)
          | ok (saved, _, version_number) ↦
              (record reset { repository = saved; version_number = version_number }, ok tt)
        ]
      ]
