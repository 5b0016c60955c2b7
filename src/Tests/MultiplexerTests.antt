-- ===== src/Tests/MultiplexerTests.antt =====
-- A block of a registration and a transaction for an unknown application: the theorems of the
-- Chain/Multiplexer modules at it.
use wineventchain.Common.{
  ℕ, ◌≡◌, refl, false, List, [], ◌∷◌, none, some, ok, err, length, ap, sym, bytes_eq, codes,
  contains, hex_decode, ok_injective, ◌==◌, if◌then◌else◌, All,
}
use wineventchain.Chain.Response.{no_codespace, json_failure, TxResult}
use wineventchain.Chain.Tree.Assoc.{assoc_tree}
use wineventchain.Chain.Rpc.{validate_signature}
use wineventchain.Chain.Identity.Repository.{get, has, principal_key}
use wineventchain.Chain.Identity.App.{
  Commit, commit_register, finalize, decode, finalize_register, respond,
}
use wineventchain.Chain.Identity.Blocks.{finalize_all, commit_all}
use wineventchain.Chain.Multiplexer.App.{
  Formats, MuxedRequest, Multiplexer, finalize_block, finalize_txs, finalize_tx, run_commits,
  add_commit, put_hash, get_hash, bare_result, generate_app_hash, sorted_names, insert_name,
  text_leb, combine,
}
use wineventchain.Chain.Multiplexer.App.{Hashes, retain_height}
use wineventchain.Chain.Multiplexer.Storage.{
  StateFormat, StateFormatLaws, state_key, commit, load_state, save_state, must, load_state-commit,
}
use wineventchain.Chain.Retention.App.{Db, DbLaws}
use wineventchain.Chain.Tree.Assoc.{Entries, lookup}
use wineventchain.Common.{
  suc, ◌++◌, take, drop, take-append, drop-append, ◌+◌, ◌<◌, subst, bytes_eq_refl, ok_injective,
  err, arith,
}
use wineventchain.Chain.Multiplexer.Routing.{Elsewhere, finalize_block-Elsewhere}
use wineventchain.Chain.Multiplexer.Identities.{
  app_name, identity_apps, inputs_of, multiplexed_block,
}
use wineventchain.Tests.ChainTests.{
  codec, requests, verify_all, seeded_app, registered_app, register_input, bob,
}

abbrev pub formats : Formats
formats = record {
  request = λ tx. elim tx [
    | [] ↦ err (json_failure [])
    | kind ∷ rest ↦ ok (record { app = if kind == 0 then app_name else codes "other"; body = rest })
  ];
  sha256 = λ bytes. bytes;
  decode_into_nil = λ key. ok tt;
  parse_negative = λ power. ok false;
  update_validator = λ key_type. ok tt;
}

abbrev pub Mux : Type 0
Mux = Multiplexer (identity_apps assoc_tree codec requests verify_all formats) formats

abbrev pub mux : Mux
mux = record {
  world = seeded_app;
  height = 6;
  app_hashes = (codes "events", 8 ∷ []) ∷ [];
  commit_funcs = [];
  retain_blocks = 0;
}

abbrev after : Mux
after = record {
  world = registered_app;
  height = 7;
  app_hashes = (codes "events", 8 ∷ []) ∷ (app_name, 2 ∷ []) ∷ [];
  commit_funcs = commit_register (codes "bob") bob ∷ [];
  retain_blocks = 0;
}

abbrev block : List (List ℕ)
block = (0 ∷ register_input) ∷ (1 ∷ []) ∷ []

abbrev results : List TxResult
results =
    record { code = 0; codespace = no_codespace; log = none }
    ∷ record { code = 3; codespace = no_codespace; log = none }
    ∷ []

run_block :
    finalize_block (identity_apps assoc_tree codec requests verify_all formats) formats mux 7 block
    ≡ some (after, results, 8 ∷ 2 ∷ [])
unfolding finalize_block finalize_txs finalize_tx put_hash add_commit bare_result
    wineventchain.Chain.Identity.App.finalize_block finalize decode bytes_eq get principal_key
    validate_signature hex_decode finalize_register has contains respond generate_app_hash
    sorted_names insert_name text_leb combine get_hash
run_block = refl

multiplexed_block_example :
    (finalize_all assoc_tree codec requests verify_all seeded_app
        (inputs_of assoc_tree codec requests verify_all formats block)
      ≡ some (registered_app, commit_register (codes "bob") bob ∷ []))
    × (run_commits
          (identity_apps assoc_tree codec requests verify_all formats)
          formats
          registered_app
          (commit_register (codes "bob") bob ∷ [])
        ≡ commit_all assoc_tree codec requests verify_all registered_app
            (commit_register (codes "bob") bob ∷ []))
multiplexed_block_example =
    multiplexed_block assoc_tree codec requests verify_all formats mux after 7 block results
      (8 ∷ 2 ∷ []) run_block

not_events :
    All
      (Elsewhere
        (identity_apps assoc_tree codec requests verify_all formats)
        formats
        (codes "events"))
      block
unfolding bytes_eq
not_events = (
  λ r e. ap (λ (q : MuxedRequest). bytes_eq q.app (codes "events")) (sym (ok_injective e)),
  (λ r e. ap (λ (q : MuxedRequest). bytes_eq q.app (codes "events")) (sym (ok_injective e)), tt),
)

finalize_block-Elsewhere_example :
    (get_hash after.app_hashes (codes "events") ≡ get_hash mux.app_hashes (codes "events"))
    × (length results ≡ length block)
finalize_block-Elsewhere_example =
    finalize_block-Elsewhere (identity_apps assoc_tree codec requests verify_all formats) formats
      (codes "events") mux after 7 block results (8 ∷ 2 ∷ []) not_events run_block

abbrev db : Db
db = record { State = Entries; get = λ s k. ok (lookup s k); set = λ s k v. ok ((k, v) ∷ s) }

db_laws : DbLaws db
db_laws = record { get_set = λ s s' k v e. rw (← ok_injective e, bytes_eq_refl k) }

-- Only a state without hashes has a JSON.
-- The height, the number of the hashes, and each with its name after the two lengths.
abbrev write_hashes : Hashes → List ℕ
write_hashes [] = []
write_hashes ((name, hash) ∷ hashes) =
    length name ∷ length hash ∷ (name ++ (hash ++ write_hashes hashes))

abbrev read_hashes : ℕ → List ℕ → Hashes
read_hashes (suc n) (a ∷ b ∷ rest) =
    (take a rest, take b (drop a rest)) ∷ read_hashes n (drop b (drop a rest))
read_hashes _ _ = []

read_hashes-write_hashes : (hs : Hashes) → read_hashes (length hs) (write_hashes hs) ≡ hs
read_hashes-write_hashes [] = refl
read_hashes-write_hashes ((name, hash) ∷ hs) =
    let rest = write_hashes hs in
    rw (
      take-append (length name) name (hash ++ rest) refl,
      drop-append (length name) name (hash ++ rest) refl,
      take-append (length hash) hash rest refl,
      drop-append (length hash) hash rest refl,
      read_hashes-write_hashes hs,
    )

abbrev json : StateFormat
json = record {
  marshal = λ height hashes. ok (height ∷ length hashes ∷ write_hashes hashes);
  unmarshal = λ bytes. elim bytes [
    | [] ↦ err (json_failure [])
    | height ∷ rest ↦ elim rest [
      | [] ↦ ok (height, [])
      | n ∷ more ↦ ok (height, read_hashes n more)
    ]
  ];
}

json_laws : StateFormatLaws json
json_laws = record {
  IsUtf8 = λ name. All (λ c. c < 128) name;
  not_empty = λ h hs bs e. subst (λ b. 0 < length b) (ok_injective e) (omega arith);
  unmarshal-marshal = λ h hs bs u e. (
    hs,
    subst (λ b. json.unmarshal b ≡ ok (h, hs)) (ok_injective e)
        (ap (λ r. ok (h, r)) (read_hashes-write_hashes hs)),
    λ name. refl,
  );
}

-- The hashes of two applications.
abbrev quiet : Mux
quiet = record {
  world = registered_app;
  height = 7;
  app_hashes = (codes "identity", 2 ∷ []) ∷ (codes "events", 8 ∷ 9 ∷ []) ∷ [];
  commit_funcs = [];
  retain_blocks = 3;
}

abbrev stored_state : Entries
stored_state = (state_key, 7 ∷ 2 ∷ write_hashes quiet.app_hashes) ∷ []

first_commit :
    commit (identity_apps assoc_tree codec requests verify_all formats) formats db json quiet []
    ≡ (quiet, ok (stored_state, 5))
unfolding commit run_commits save_state must retain_height
first_commit = refl

ascii_names : All (λ entry. json_laws.IsUtf8 entry.0) quiet.app_hashes
unfolding json_laws
ascii_names = (omega arith, (omega arith, tt))

load_state-commit_example :
    (found : Hashes) × (load_state db json stored_state ≡ ok (7, found))
    × ((name : List ℕ) → get_hash found name ≡ get_hash quiet.app_hashes name)
    × (0 < 5 → ◌≡◌ {A = ℕ} (5 + 3) (7 + 1))
load_state-commit_example =
    load_state-commit (identity_apps assoc_tree codec requests verify_all formats) formats db json
      db_laws json_laws quiet quiet [] stored_state 5 ascii_names first_commit
