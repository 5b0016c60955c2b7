-- ===== src/Chain/Events/Query.antt =====
-- wineventchain/pkg/events/app.go: Query, Info and InitChain, which change nothing.
use wineventchain.Common.{
  ℕ, ◌==◌, Bool, true, ◌&&◌, ◌||◌, leb, List, [], ◌∷◌, Option, none, some, Outcome, ok, err, panic,
  codes, bytes_eq, if◌then◌else◌, length, hex_encode, hex_decode,
}
use wineventchain.Chain.Response.{
  Failure, event_not_found, tree_uninitialized, events, multiplex, ErrorResponse,
  new_error_response, code_ok, code_unknown_error,
}
use wineventchain.Chain.Tree.{Tree}
use wineventchain.Chain.Proof.{ItemWithProof, ProofFormat, ItemResponse, without_proof}
use wineventchain.Chain.Rpc.{Verify}
use wineventchain.Chain.Identity.Repository.{IdentityCodec}
use wineventchain.Chain.Events.Types.{EventWithMetadata}
use wineventchain.Chain.Events.Repository.{EventCodec, get_event_with_proof, event_count}
use wineventchain.Chain.Events.App.{
  EventFormats, EventsApp, refuse, code_unknown_event_error, code_invalid_query_path,
  code_event_not_found, code_tree_uninitialized,
}

-- encoding/json on proofs and on the answer to a count.
pub record QueryFormats : Type 0 where
  pub proof : ProofFormat
  pub count : ℕ → Outcome Failure (List ℕ)

-- [a-f0-9]
abbrev pub is_path_digit : ℕ → Bool
is_path_digit c = (leb b'a' c && leb c b'f') || (leb b'0' c && leb c b'9')

unfoldable pub all_digits : List ℕ → Bool
all_digits [] = true
all_digits (c ∷ cs) = is_path_digit c && all_digits cs

-- The rest of a text behind a prefix.
unfoldable pub strip_prefix : List ℕ → List ℕ → Option (List ℕ)
strip_prefix [] text = some text
strip_prefix (c ∷ cs) [] = none
strip_prefix (c ∷ cs) (d ∷ text) = let rest = strip_prefix cs text in if c == d then rest else none

-- pathRegex: the text of its group, where it matches.
unfoldable pub match_path : List ℕ → Option (List ℕ)
match_path path = elim (strip_prefix (codes "/event-by-id/") path) [
  | none ↦ none
  | some id ↦ if length id == 64 && all_digits id then some id else none
]

unfoldable pub query_error : Failure → ErrorResponse
query_error event_not_found = refuse code_event_not_found events event_not_found
query_error tree_uninitialized = refuse code_tree_uninitialized events tree_uninitialized
query_error e = refuse code_unknown_event_error events e

pub record AppInfo : Type 0 where
  pub version : ℕ
  pub app_hash : List ℕ

module _ (tree : Tree) (identity_codec : IdentityCodec) (codec : EventCodec)
    (formats : EventFormats) (verify : Verify) (queries : QueryFormats) where
  abbrev pub App : Type 0
  App = EventsApp tree identity_codec codec formats verify

  -- The answer to a count; `none` is a panic.
  unfoldable pub query_count : App → ℕ → Option ItemResponse
  unfolding without_proof
  query_count app height = elim (event_count tree codec app.repository) [
    | err e ↦ some (without_proof (refuse code_unknown_event_error events e))
    | panic ↦ none
    | ok count ↦ elim (queries.count count) [
      | err e ↦ some (without_proof (refuse code_unknown_event_error events e))
      | panic ↦ none
      | ok marshalled ↦ some (record {
        response = record { code = code_ok; codespace = events; log = none; value = marshalled };
        index = 0;
        key = [];
        height = height;
        proof_op = none;
      })
    ]
  ]

  -- The answer on an identifier that was looked up.
  unfoldable pub answer_item : List ℕ → ℕ → ItemWithProof EventWithMetadata → Option ItemResponse
  unfolding without_proof
  answer_item event_id height event =
      let shown = if height == 0 then event.height else height in
      elim event.item [
        | none ↦ some (record {
          response = record {
            code = code_event_not_found;
            codespace = events;
            log = none;
            value = [];
          };
          index = event.index;
          key = event_id;
          height = shown;
          proof_op = some event.proof_op;
        })
        | some item ↦ elim (codec.marshal item) [
          | err e ↦ some (without_proof (refuse code_unknown_event_error events e))
          | panic ↦ none
          | ok marshalled ↦ some (record {
            response = record {
              code = code_ok;
              codespace = events;
              log = none;
              value = marshalled;
            };
            index = event.index;
            key = event_id;
            height = shown;
            proof_op = some event.proof_op;
          })
        ]
      ]

  unfoldable pub query_event : App → List ℕ → ℕ → Option ItemResponse
  unfolding without_proof answer_item query_error
  query_event app event_id height =
      elim (get_event_with_proof tree codec queries.proof app.repository event_id) [
        | err e ↦ some (without_proof (query_error e))
        | panic ↦ none
        | ok event ↦ answer_item event_id height event
      ]

  -- EventsApp.Query; `none` is a panic.
  unfoldable pub query : App → List ℕ → ℕ → Option ItemResponse
  unfolding without_proof new_error_response
  query app path height =
      if bytes_eq path (codes "/count") then query_count app height else elim (match_path path) [
        | none ↦ some (without_proof (new_error_response code_invalid_query_path events none))
        | some digits ↦ elim (hex_decode digits) [
          | none ↦ some (without_proof (new_error_response code_invalid_query_path events none))
          | some event_id ↦ query_event app event_id height
        ]
      ]

  -- EventsApp.Info, or the error that it answers with.
  unfoldable pub info : App → Outcome ErrorResponse AppInfo
  info app = elim (tree.hash app.repository) [
    | ok hash ↦ ok (record { version = app.version_number; app_hash = hex_encode hash })
    | err e ↦ err (refuse code_unknown_error multiplex e)
    | panic ↦ panic
  ]

  -- EventsApp.InitChain, which ends the process where there is no hash.
  unfoldable pub init_chain : App → Outcome Failure (List ℕ)
  init_chain app = elim (tree.hash app.repository) [
    | ok hash ↦ ok hash
    | err e ↦ panic
    | panic ↦ panic
  ]
