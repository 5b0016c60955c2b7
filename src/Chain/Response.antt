-- ===== src/Chain/Response.antt =====
-- wineventchain/pkg/multiplexer/app.go: the responses of the applications. The code spaces are
-- the string constants of the packages; the text of a log is the error that it prints.
use wineventchain.Common.{ℕ, List, [], Option, none}

pub data Codespace : Type 0 where
  no_codespace multiplex rpc identity events retention_policy : Codespace

-- The errors of the code and of the libraries that it calls.
pub data Failure : Type 0 where
  identity_not_found event_not_found negative_size invalid_hex : Failure
  tree_failure json_failure unknown_request : List ℕ → Failure
  tree_uninitialized nil_root duplicate_event : Failure
  already_seeded only_admins_register principal_exists : Failure
  only_admins_set_policy policy_already_set invalid_policy no_proofs : Failure
  decoding_request unknown_app_name parsing_validator : Failure

-- wineventchain/pkg/multiplexer/code.go
abbrev pub code_ok : ℕ
code_ok = 0

abbrev pub code_unknown_error : ℕ
code_unknown_error = 1

abbrev pub code_encoding_error : ℕ
code_encoding_error = 2

abbrev pub code_unknown_app : ℕ
code_unknown_app = 3

abbrev pub code_invalid_validator_tx : ℕ
code_invalid_validator_tx = 4

pub record ErrorResponse : Type 0 where
  pub code : ℕ
  pub codespace : Codespace
  pub log : Option Failure

pub record TxResult : Type 0 where
  pub code : ℕ
  pub codespace : Codespace
  pub log : Option Failure

-- The commit function is a value of `C`, which names what the closure does.
pub record FinalizeBlockResponse (C : Type 0) : Type 0 where
  pub tx_result : TxResult
  pub app_hash : List ℕ
  pub commit_func : Option C

pub record CheckTxResponse : Type 0 where
  pub code : ℕ
  pub codespace : Codespace
  pub log : Option Failure

unfoldable pub new_error_response : ℕ → Codespace → Option Failure → ErrorResponse
new_error_response code codespace e = record { code = code; codespace = codespace; log = e }

unfoldable pub into_finalize_block_response : {C : Type 0} → ErrorResponse → FinalizeBlockResponse C
into_finalize_block_response e = record {
  tx_result = record { code = e.code; codespace = e.codespace; log = e.log };
  app_hash = [];
  commit_func = none;
}

-- The code space of the error is not passed on.
unfoldable pub into_check_tx_response : ErrorResponse → CheckTxResponse
into_check_tx_response e = record { code = e.code; codespace = no_codespace; log = e.log }

pub record QueryResponse : Type 0 where
  pub code : ℕ
  pub codespace : Codespace
  pub log : Option Failure
  pub value : List ℕ

unfoldable pub into_query_response : ErrorResponse → QueryResponse
into_query_response e = record { code = e.code; codespace = e.codespace; log = e.log; value = [] }
