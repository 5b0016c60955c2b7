-- ===== src/Chain/Multiplexer/App.antt =====
-- wineventchain/pkg/multiplexer/abci.go, state.go and validator.go. The JSON, SHA-256, base64 and
-- the constructor of validator updates are parameters.
use wineventchain.Common.{
  ℕ, ◌+◌, ◌-◌, Bool, true, false, not, ◌&&◌, List, [], ◌∷◌, ◌++◌, Option, none, some, Outcome, ok,
  err, panic, ◌>>=◌, ◌>>◌, guard, codes, bytes_eq, if◌then◌else◌, ltb, leb, take, drop, ◌==◌,
}
use wineventchain.Chain.Response.{
  Failure, decoding_request, unknown_app_name, parsing_validator, multiplex, no_codespace, TxResult,
  FinalizeBlockResponse, CheckTxResponse, new_error_response, into_check_tx_response, code_ok,
  code_encoding_error, code_unknown_app, code_invalid_validator_tx,
}

-- The interface MultiplexedApp over the map of the applications: `World` is the state of them all,
-- `known` tells the names in the map, and `none` is a panic.
pub record Apps : Type 1 where
  pub World : Type 0
  pub Commit : Type 0
  pub known : List ℕ → Bool
  pub check : List ℕ → World → List ℕ → Option CheckTxResponse
  pub finalize : List ℕ → World → List ℕ → Option (World × FinalizeBlockResponse Commit)
  pub run : World → Commit → World × Outcome Failure (Unit {0})

pub record MuxedRequest : Type 0 where
  pub app : List ℕ
  pub body : List ℕ

pub record Formats : Type 0 where
  pub request : List ℕ → Outcome Failure MuxedRequest
  pub sha256 : List ℕ → List ℕ
  pub decode_into_nil : List ℕ → Outcome Failure (Unit {0})
  pub parse_negative : List ℕ → Outcome Failure Bool
  pub update_validator : List ℕ → Outcome Failure (Unit {0})

-- A map from names to hashes, as the list of its entries: `put_hash` is the assignment.
abbrev pub Hashes : Type 0
Hashes = List (List ℕ × List ℕ)

unfoldable pub put_hash : Hashes → List ℕ → List ℕ → Hashes
put_hash [] name hash = (name, hash) ∷ []
put_hash ((n, h) ∷ hashes) name hash =
    let rest = put_hash hashes name hash in
    if bytes_eq n name then (n, hash) ∷ hashes else (n, h) ∷ rest

unfoldable pub get_hash : Hashes → List ℕ → Option (List ℕ)
get_hash [] name = none
get_hash ((n, h) ∷ hashes) name =
    let rest = get_hash hashes name in if bytes_eq n name then some h else rest

-- sort.Strings, by insertion of the bytes in lexicographic order.
unfoldable pub text_leb : List ℕ → List ℕ → Bool
text_leb [] ys = true
text_leb (x ∷ xs) [] = false
text_leb (x ∷ xs) (y ∷ ys) =
    let rest = text_leb xs ys in if ltb x y then true else if x == y then rest else false

unfoldable pub insert_name : List ℕ → List (List ℕ) → List (List ℕ)
insert_name name [] = name ∷ []
insert_name name (n ∷ names) =
    let rest = insert_name name names in if text_leb name n then name ∷ n ∷ names else n ∷ rest

unfoldable pub sorted_names : Hashes → List (List ℕ)
sorted_names [] = []
sorted_names ((n, h) ∷ hashes) = insert_name n (sorted_names hashes)

unfoldable pub combine : Hashes → List (List ℕ) → List ℕ
combine hashes [] = []
combine hashes (name ∷ names) =
    let rest = combine hashes names in
    elim (get_hash hashes name) [ none ↦ rest | some h ↦ h ++ rest ]

-- State.GenerateAppHash
unfoldable pub generate_app_hash : Formats → Hashes → List ℕ
generate_app_hash formats hashes = formats.sha256 (combine hashes (sorted_names hashes))

abbrev pub validator_prefix : List ℕ
validator_prefix = codes "val:"

-- strings.Split at the separator "!".
unfoldable pub split_bang : List ℕ → List (List ℕ)
split_bang [] = [] ∷ []
split_bang (c ∷ cs) = elim (split_bang cs) [
  | [] ↦ [] ∷ []
  | part ∷ parts ↦ if c == b'!' then [] ∷ part ∷ parts else (c ∷ part) ∷ parts
]

-- parseValidatorTx, as far as it may fail: the key is decoded into a nil slice, and the constructor of
-- the update panics on a type of key that it does not know.
unfoldable pub parse_validator_tx : Formats → List ℕ → Outcome Failure (Unit {0})
parse_validator_tx formats tx = elim (split_bang (drop 4 tx)) [
  | [] ↦ err parsing_validator
  | key_type ∷ rest ↦ elim rest [
    | [] ↦ err parsing_validator
    | key ∷ rest2 ↦ elim rest2 [
      | [] ↦ err parsing_validator
      | power ∷ rest3 ↦ elim rest3 [
        | [] ↦ (do
          formats.decode_into_nil key
          negative ← formats.parse_negative power
          guard (not negative) parsing_validator
          formats.update_validator key_type)
        | more ∷ rest4 ↦ err parsing_validator
      ]
    ]
  ]
]

module _ (apps : Apps) (formats : Formats) where
  pub record Multiplexer : Type 0 where
    pub world : apps.World
    pub height : ℕ
    pub app_hashes : Hashes
    pub commit_funcs : List apps.Commit
    pub retain_blocks : ℕ

  -- MultiplexedApplication.CheckTx; `none` is a panic.
  unfoldable pub check_tx : Multiplexer → List ℕ → Option CheckTxResponse
  unfolding new_error_response into_check_tx_response
  check_tx mux tx =
      if bytes_eq (take 4 tx) validator_prefix
      then (elim (parse_validator_tx formats tx) [
        | ok _ ↦ some (record { code = code_ok; codespace = no_codespace; log = none })
        | err e ↦ some (
            into_check_tx_response
              (new_error_response code_invalid_validator_tx multiplex (some parsing_validator)))
        | panic ↦ none
      ])
      else (elim (formats.request tx) [
        | ok r ↦
            if apps.known r.app
            then apps.check r.app mux.world r.body
            else some (
                into_check_tx_response
                  (new_error_response code_unknown_app multiplex (some unknown_app_name)))
        | err e ↦ some (
            into_check_tx_response
              (new_error_response code_encoding_error multiplex (some decoding_request)))
        | panic ↦ none
      ])

  unfoldable pub bare_result : ℕ → TxResult
  bare_result code = record { code = code; codespace = no_codespace; log = none }

  unfoldable pub add_commit : List apps.Commit → Option apps.Commit → List apps.Commit
  add_commit commits none = commits
  add_commit commits (some c) = commits ++ (c ∷ [])

  -- One turn of the loop of FinalizeBlock.
  unfoldable pub finalize_tx : Multiplexer → List ℕ → Option (Multiplexer × TxResult)
  unfolding bare_result
  finalize_tx mux tx = elim (formats.request tx) [
    | ok r ↦
        if apps.known r.app
        then (elim (apps.finalize r.app mux.world r.body) [
          | none ↦ none
          | some (world, response) ↦ some (
            record mux {
              world = world;
              commit_funcs = add_commit mux.commit_funcs response.commit_func;
              app_hashes = put_hash mux.app_hashes r.app response.app_hash;
            },
            response.tx_result,
          )
        ])
        else some (mux, bare_result code_unknown_app)
    | err e ↦ some (mux, bare_result code_encoding_error)
    | panic ↦ none
  ]

  unfoldable pub finalize_txs : Multiplexer → List (List ℕ) → Option (Multiplexer × List TxResult)
  finalize_txs mux [] = some (mux, [])
  finalize_txs mux (tx ∷ txs) = elim (finalize_tx mux tx) [
    | none ↦ none
    | some (mux', result) ↦ elim (finalize_txs mux' txs) [
      | none ↦ none
      | some (mux'', results) ↦ some (mux'', result ∷ results)
    ]
  ]

  -- MultiplexedApplication.FinalizeBlock, after its loop over the evidence: the multiplexer,
  -- the results of the transactions and the hash of the block.
  unfoldable pub finalize_block :
      Multiplexer → ℕ → List (List ℕ) → Option (Multiplexer × List TxResult × List ℕ)
  finalize_block mux height txs = elim (finalize_txs (record mux { commit_funcs = [] }) txs) [
    | none ↦ none
    | some (mux', results) ↦
        some (record mux' { height = height }, results, generate_app_hash formats mux'.app_hashes)
  ]

  -- The loop of Commit: the functions in order, up to the first that fails.
  unfoldable pub run_commits :
      apps.World → List apps.Commit → apps.World × Outcome Failure (Unit {0})
  run_commits world [] = (world, ok tt)
  run_commits world (c ∷ commits) =
      let (world', result) = apps.run world c in
      elim result [
        | ok _ ↦ run_commits world' commits
        | err e ↦ (world', err e)
        | panic ↦ (world', panic)
      ]

  -- The height below which Commit lets CometBFT drop the blocks, where 0 is none.
  unfoldable pub retain_height : Multiplexer → ℕ
  retain_height mux =
      if ltb 0 mux.retain_blocks && leb mux.retain_blocks mux.height
      then mux.height - mux.retain_blocks + 1
      else 0
