-- ===== src/Chain/Identity/Checks.antt =====
-- wineventchain/pkg/identity/app.go: which transactions are accepted.
use wineventchain.Common.{
  ℕ, ◌≡◌, ◌≢◌, refl, ◌⊎◌, inl, inr, true, false, List, [], ◌∷◌, ◌++◌, Option, none, some, Outcome,
  ok, err, panic, bytes_eq, bytes_eq_sound, contains, arith, Bool-cases, Outcome-cases, length,
  hex_decode, subst,
}
use mathlib.Core.Option
use wineventchain.Chain.Response.{ErrorResponse, FinalizeBlockResponse, CheckTxResponse}
use wineventchain.Chain.Tree.{Tree}
use wineventchain.Chain.Rpc.{SignedPayload, Verify, validate_signature}
use wineventchain.Chain.Identity.Repository.{
  IdentityData, IdentityCodec, role_admin, get, has, is_seeded,
}
use wineventchain.Chain.Identity.App.{
  Requests, PayloadSeed, PayloadRegister, Commit, commit_seed, commit_register, IdentityApp,
  request_type_seed, request_type_register, extract_identity_data, decode, check_seed,
  check_register, check, check_tx, respond, finalize_seed, finalize_register, finalize,
  finalize_block,
}

module _ (tree : Tree) (codec : IdentityCodec) (requests : Requests) (verify : Verify) where
  abbrev code_of {ℓ} : {A : Type ℓ} → Outcome ErrorResponse A → (A → ℕ) → Option ℕ
  code_of (ok a) f = some (f a)
  code_of (err e) f = some e.code
  code_of panic f = none

  seed_codes :
      (app : IdentityApp tree codec requests verify) (payload : SignedPayload) (h : List ℕ)
      → tree.hash app.repository ≡ ok h
      → code_of (check_seed tree codec requests verify app payload) (λ _. 0)
        ≡ code_of (finalize_seed tree codec requests verify app payload) (λ r. r.1.tx_result.code)
  unfolding check_seed finalize_seed respond
  seed_codes app payload h e = ground arith

  register_codes :
      (app : IdentityApp tree codec requests verify) (payload : SignedPayload)
      (requester : IdentityData) (h : List ℕ)
      → tree.hash app.repository ≡ ok h
      → code_of (check_register tree codec requests verify app payload requester) (λ _. 0)
        ≡ code_of
            (finalize_register tree codec requests verify app payload requester)
            (λ r. r.1.tx_result.code)
  unfolding check_register finalize_register respond
  register_codes app payload requester h e = ground arith

  -- While the tree can be hashed, CheckTx answers a transaction with the code that FinalizeBlock
  -- answers it with in the same state, and panics where it does.
  pub check_tx-finalize_block :
      (app : IdentityApp tree codec requests verify) (input h : List ℕ)
      → tree.hash app.repository ≡ ok h
      → Option.map (λ (r : CheckTxResponse). r.code) (check_tx tree codec requests verify app input)
        ≡ Option.map
            (λ (r : IdentityApp tree codec requests verify × FinalizeBlockResponse Commit).
              r.1.tx_result.code)
            (finalize_block tree codec requests verify app input)
  unfolding check_tx finalize_block check finalize
  check_tx-finalize_block app input h e =
      elim (Outcome-cases (decode tree codec requests verify app input)) [
        | inl ((payload, requester), d) ↦
            rw (d, check, finalize, check_tx, finalize_block)
              (ground (arith, seed_codes app payload h e, register_codes app payload requester h e))
        | inr (inl (x, d)) ↦ rw (d, check, finalize, check_tx, finalize_block)
        | inr (inr d) ↦ rw (d, check, finalize, check_tx, finalize_block)
      ]

  -- Why a transaction that leaves a commit function was accepted.
  pub data Accepts (input : List ℕ) (app app' : IdentityApp tree codec requests verify)
      (c : Option Commit) : Type 0 where
    refused : app' ≡ app → c ≡ none → Accepts input app app' c
    seeds :
        (payload : SignedPayload) (request : PayloadSeed) (p : List ℕ) (d : IdentityData)
        → requests.payload input ≡ ok payload
        → bytes_eq payload.type request_type_seed ≡ true
        → requests.seed payload.body ≡ ok request
        → p ≡ request.principal
        → d ≡ record { public_key = request.key; role = role_admin }
        → is_seeded tree codec app.repository ≡ ok false
        → app.seeded ≡ false
        → app' ≡ record app { seeded = true; registering = app.registering ++ (p ∷ []) }
        → (c ≡ some (commit_seed p d)) ⊎ (c ≡ none)
        → Accepts input app app' c
    registers :
        (payload : SignedPayload) (request : PayloadRegister) (p : List ℕ) (d : IdentityData)
        (requester : IdentityData)
        → requests.payload input ≡ ok payload
        → bytes_eq payload.type request_type_register ≡ true
        → requests.register payload.body ≡ ok request
        → p ≡ request.principal
        → d ≡ record { public_key = request.key; role = request.role }
        → get tree codec app.repository payload.principal ≡ ok requester
        → validate_signature verify payload requester.public_key ≡ ok true
        → requester.role ≡ role_admin
        → has tree codec app.repository p ≡ ok false
        → contains app.registering p ≡ false
        → app' ≡ record app { registering = app.registering ++ (p ∷ []) }
        → (c ≡ some (commit_register p d)) ⊎ (c ≡ none)
        → Accepts input app app' c

  seed-Accepts :
      (input : List ℕ) (app : IdentityApp tree codec requests verify) (payload : SignedPayload)
      (r : IdentityApp tree codec requests verify × FinalizeBlockResponse Commit)
      → requests.payload input ≡ ok payload
      → bytes_eq payload.type request_type_seed ≡ true
      → finalize_seed tree codec requests verify app payload ≡ ok r
      → Accepts input app r.0 r.1.commit_func
  unfolding finalize_seed respond
  seed-Accepts input app payload r parsed type h =
      elim (Outcome-cases (requests.seed payload.body)) [
        | inl (s, e) ↦
            seeds payload s s.principal (record { public_key = s.key; role = role_admin }) parsed
              type e refl refl (ground arith) (ground arith) (ground arith) (ground arith)
        | inr (inl (x, e)) ↦ absurd (ground arith)
        | inr (inr e) ↦ absurd (ground arith)
      ]

  register-Accepts :
      (input : List ℕ) (app : IdentityApp tree codec requests verify) (payload : SignedPayload)
      (requester : IdentityData)
      (r : IdentityApp tree codec requests verify × FinalizeBlockResponse Commit)
      → requests.payload input ≡ ok payload
      → bytes_eq payload.type request_type_register ≡ true
      → get tree codec app.repository payload.principal ≡ ok requester
      → validate_signature verify payload requester.public_key ≡ ok true
      → finalize_register tree codec requests verify app payload requester ≡ ok r
      → Accepts input app r.0 r.1.commit_func
  unfolding finalize_register respond
  register-Accepts input app payload requester r parsed type known valid h =
      elim (Outcome-cases (requests.register payload.body)) [
        | inl (s, e) ↦
            registers payload s s.principal (record { public_key = s.key; role = s.role }) requester
              parsed type e refl refl known valid (bytes_eq_sound _ role_admin (ground arith))
              (ground arith) (ground arith) (ground arith) (ground arith)
        | inr (inl (x, e)) ↦ absurd (ground arith)
        | inr (inr e) ↦ absurd (ground arith)
      ]

  decode-signed :
      (app : IdentityApp tree codec requests verify) (input : List ℕ) (payload : SignedPayload)
      (requester : IdentityData)
      → decode tree codec requests verify app input ≡ ok (payload, requester)
      → bytes_eq payload.type request_type_seed ≡ false
      → (get tree codec app.repository payload.principal ≡ ok requester)
        × (validate_signature verify payload requester.public_key ≡ ok true)
  unfolding decode extract_identity_data
  decode-signed app input payload requester h other = ground arith

  decode-parsed :
      (app : IdentityApp tree codec requests verify) (input : List ℕ) (payload : SignedPayload)
      (requester : IdentityData)
      → decode tree codec requests verify app input ≡ ok (payload, requester)
      → requests.payload input ≡ ok payload
  unfolding decode extract_identity_data
  decode-parsed app input payload requester h = elim (Outcome-cases (requests.payload input)) [
    | inl (p, e) ↦ ground arith
    | inr (inl (x, e)) ↦ absurd (ground arith)
    | inr (inr e) ↦ absurd (ground arith)
  ]

  -- A transaction is accepted only as the first seed, or as a registration, by an administrator with a
  -- valid signature on the request that the transaction is, of a principal that is neither stored nor
  -- already being registered; the principal, the key and the role are those that the request gives;
  -- in every other case it changes nothing and leaves no commit function. The tree itself is
  -- never changed before the commit.
  pub finalize_block-Accepts :
      (app : IdentityApp tree codec requests verify) (input : List ℕ)
      (app' : IdentityApp tree codec requests verify) (r : FinalizeBlockResponse Commit)
      → finalize_block tree codec requests verify app input ≡ some (app', r)
      → Accepts input app app' r.commit_func
  unfolding finalize_block finalize
  finalize_block-Accepts app input app' r h =
      elim (Outcome-cases (decode tree codec requests verify app input)) [
        | inl ((payload, requester), d) ↦
            let parsed = decode-parsed app input payload requester d in
            elim (Bool-cases (bytes_eq payload.type request_type_seed)) [
              | inl seed ↦
                  elim (Outcome-cases (finalize_seed tree codec requests verify app payload)) [
                    | inl (s, e) ↦
                        let same : s ≡ (app', r) = ground arith in
                        subst (λ t. Accepts input app t.0 t.1.commit_func) same
                          (seed-Accepts input app payload s parsed seed e)
                    | inr (inl (x, e)) ↦ refused (ground arith) (ground arith)
                    | inr (inr e) ↦ absurd (ground arith)
                  ]
              | inr other ↦ elim (Bool-cases (bytes_eq payload.type request_type_register)) [
                | inl register ↦
                    elim (Outcome-cases
                      (finalize_register tree codec requests verify app payload requester)) [
                        | inl (s, e) ↦
                            let same : s ≡ (app', r) = ground arith in
                            let signed = decode-signed app input payload requester d other in
                            subst (λ t. Accepts input app t.0 t.1.commit_func) same
                              (register-Accepts input app payload requester s parsed register
                                signed.0 signed.1 e)
                        | inr (inl (x, e)) ↦ refused (ground arith) (ground arith)
                        | inr (inr e) ↦ absurd (ground arith)
                      ]
                | inr unknown ↦ refused (ground arith) (ground arith)
              ]
            ]
        | inr (inl (x, d)) ↦ refused (ground arith) (ground arith)
        | inr (inr d) ↦ absurd (ground arith)
      ]

  -- A key that is not 32 bytes long makes every transaction of its principal panic, in CheckTx
  -- and in FinalizeBlock, whatever it asks for but to seed, if its signature is hexadecimal.
  pub short_key_panics :
      (app : IdentityApp tree codec requests verify) (input : List ℕ) (payload : SignedPayload)
      (requester : IdentityData) (signature : List ℕ)
      → requests.payload input ≡ ok payload
      → bytes_eq payload.type request_type_seed ≡ false
      → get tree codec app.repository payload.principal ≡ ok requester
      → hex_decode payload.signature ≡ some signature
      → length requester.public_key ≢ 32
      → (check_tx tree codec requests verify app input ≡ none)
        × (finalize_block tree codec requests verify app input ≡ none)
  unfolding check_tx finalize_block check finalize decode extract_identity_data validate_signature
  short_key_panics app input payload requester signature read other known hex short =
      (ground arith, ground arith)
