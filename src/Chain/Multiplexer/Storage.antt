-- ===== src/Chain/Multiplexer/Storage.antt =====
-- wineventchain/pkg/multiplexer/abci.go, state.go and validator.go: what Commit writes, what the
-- start reads, and the updates of validators that sign twice. JSON and the database are parameters.
use wineventchain.Common.{
  ℕ, ◌+◌, ◌-◌, ◌<◌, ◌≡◌, ap, sym, ◌∙◌, Bool, List, [], ◌∷◌, Option, none, some, Outcome, ok, err,
  panic, ◌>>=◌, ◌==◌, if◌then◌else◌, bytes_eq, codes, length, arith, inl, inr, Outcome-cases, subst,
  All,
}
use wineventchain.Chain.Response.{Failure}
use wineventchain.Chain.Multiplexer.App.{
  Apps, Formats, Multiplexer, Hashes, get_hash, run_commits, retain_height,
}
use wineventchain.Chain.Retention.App.{Db, DbLaws}

-- utils.Must: an error becomes a panic.
unfoldable pub must {ℓ} : {A : Type ℓ} → Outcome Failure A → Outcome Failure A
must (ok a) = ok a
must (err e) = panic
must panic = panic

abbrev pub state_key : List ℕ
state_key = codes "muxer_state"

-- State: its Size is written, but never set or read, and left out.
pub record StateFormat : Type 0 where
  pub marshal : ℕ → Hashes → Outcome Failure (List ℕ)
  pub unmarshal : List ℕ → Outcome Failure (ℕ × Hashes)

-- JSON writes at least a pair of braces, and reads back a map whose names are valid UTF-8, with the
-- same hash under each name, in another order it may be.
pub record StateFormatLaws (json : StateFormat) : Type 1 where
  pub IsUtf8 : List ℕ → Type 0
  pub not_empty : (h : ℕ) (hs : Hashes) (bs : List ℕ) → json.marshal h hs ≡ ok bs → 0 < length bs
  pub unmarshal-marshal :
      (h : ℕ) (hs : Hashes) (bs : List ℕ)
      → All (λ entry. IsUtf8 entry.0) hs
      → json.marshal h hs ≡ ok bs
      → (hs' : Hashes) × (json.unmarshal bs ≡ ok (h, hs'))
        × ((name : List ℕ) → get_hash hs' name ≡ get_hash hs name)

-- A nil slice is empty, as is one without entries.
unfoldable pub bytes_of : Option (List ℕ) → List ℕ
bytes_of none = []
bytes_of (some bs) = bs

module _ (db : Db) (json : StateFormat) where
  -- loadState
  unfoldable pub load_state : db.State → Outcome Failure (ℕ × Hashes)
  unfolding must bytes_of
  load_state store = do
    found ← must (db.get store state_key)
    if length (bytes_of found) == 0 then ok (0, []) else must (json.unmarshal (bytes_of found))

  -- saveState
  unfoldable pub save_state : db.State → ℕ → Hashes → Outcome Failure db.State
  unfolding must
  save_state store height hashes = do
    bytes ← must (json.marshal height hashes)
    must (db.set store state_key bytes)

  load_state-save_state :
      DbLaws db
      → (law : StateFormatLaws json) → (store store' : db.State) (height : ℕ) (hashes : Hashes)
      → All (λ entry. law.IsUtf8 entry.0) hashes
      → save_state store height hashes ≡ ok store'
      → (found : Hashes) × (load_state store' ≡ ok (height, found))
        × ((name : List ℕ) → get_hash found name ≡ get_hash hashes name)
  unfolding load_state save_state
  load_state-save_state laws law store store' height hashes utf8 h =
      elim (Outcome-cases (json.marshal height hashes)) [
        | inl (bytes, m) ↦
            let written = laws.get_set store store' state_key bytes (ground arith) in
            let full = law.not_empty height hashes bytes m in
            let (found, read, same) = law.unmarshal-marshal height hashes bytes utf8 m in
            (found, ground arith, same)
        | inr (inl (x, m)) ↦ absurd (ground arith)
        | inr (inr m) ↦ absurd (ground arith)
      ]

-- ValidatorMap, as the list of its entries.
abbrev pub Validators : Type 0
Validators = List (List ℕ × List ℕ)

unfoldable pub no_validators : Validators
no_validators = []

unfoldable pub add_validator : Validators → List ℕ → List ℕ → Validators
add_validator validators address key = (address, key) ∷ validators

unfoldable pub get_validator : Validators → List ℕ → Option (List ℕ)
get_validator [] address = none
get_validator ((a, key) ∷ validators) address =
    let rest = get_validator validators address in if bytes_eq a address then some key else rest

-- The evidence of misbehaviour; the power of a validator is not negative.
pub record Evidence : Type 0 where
  pub is_duplicate_vote : Bool
  pub address : List ℕ
  pub power : ℕ

pub record ValidatorUpdate : Type 0 where
  pub pub_key : List ℕ
  pub power : ℕ

-- The first loop of FinalizeBlock.
unfoldable pub validator_updates : Validators → List Evidence → List ValidatorUpdate
validator_updates validators [] = []
validator_updates validators (e ∷ evidence) =
    let rest = validator_updates validators evidence in
    if e.is_duplicate_vote
    then (elim (get_validator validators e.address) [
      | none ↦ rest
      | some key ↦ record { pub_key = key; power = e.power - 1 } ∷ rest
    ])
    else rest

module _ (apps : Apps) (formats : Formats) (db : Db) (json : StateFormat) where
  -- MultiplexedApplication.Commit: the multiplexer, the database, and the height to retain.
  unfoldable pub commit :
      Multiplexer apps formats
      → db.State
      → Multiplexer apps formats × Outcome Failure (db.State × ℕ)
  commit mux store =
      let (world, result) = run_commits apps formats mux.world mux.commit_funcs in
      let mux' : Multiplexer apps formats = record mux { world = world } in
      elim result [
        | ok _ ↦ (
          mux',
          (save_state db json store mux.height mux.app_hashes >>= λ saved.
              ok (saved, retain_height apps formats mux')),
        )
        | err e ↦ (mux', err e)
        | panic ↦ (mux', panic)
      ]

  -- After a Commit without an error, a restart reads the height of the block that was committed and
  -- the hash of each application, where their names are valid UTF-8; and every height that CometBFT keeps is one of the last `retain_blocks`.
  pub load_state-commit :
      DbLaws db
      → (law : StateFormatLaws json)
      → (mux mux' : Multiplexer apps formats) (store store' : db.State) (retained : ℕ)
      → All (λ entry. law.IsUtf8 entry.0) mux.app_hashes
      → commit mux store ≡ (mux', ok (store', retained))
      → (found : Hashes) × (load_state db json store' ≡ ok (mux'.height, found))
        × ((name : List ℕ) → get_hash found name ≡ get_hash mux'.app_hashes name)
        × (0 < retained → retained + mux'.retain_blocks ≡ mux'.height + 1)
  unfolding commit retain_height
  load_state-commit laws law mux mux' store store' retained utf8 h =
      elim (Outcome-cases (run_commits apps formats mux.world mux.commit_funcs).1) [
        | inl (u, e) ↦ elim (Outcome-cases (save_state db json store mux.height mux.app_hashes)) [
          | inl (saved, s) ↦
              let (found, read, alike) =
                load_state-save_state db json laws law store saved mux.height mux.app_hashes utf8
                  s in
              let mux1 : Multiplexer apps formats = record mux {
                world = (run_commits apps formats mux.world mux.commit_funcs).0;
              } in
              let same : mux1 ≡ mux' = ground arith in
              let written : saved ≡ store' = ground arith in
              (
                found,
                ap (load_state db json) (sym written)
                    ∙ read
                    ∙ ap (λ (m : Multiplexer apps formats). ok (m.height, found)) same,
                λ name.
                    alike name
                    ∙ ap (λ (m : Multiplexer apps formats). get_hash m.app_hashes name) same,
                subst
                    (λ (m : Multiplexer apps formats).
                      0 < retained → retained + m.retain_blocks ≡ m.height + 1)
                    same (λ positive. ground arith),
              )
          | inr (inl (x, s)) ↦ absurd (ground arith)
          | inr (inr s) ↦ absurd (ground arith)
        ]
        | inr (inl (x, e)) ↦ absurd (ground arith)
        | inr (inr e) ↦ absurd (ground arith)
      ]
