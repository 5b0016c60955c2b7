-- ===== src/Chain/Retention/Checks.antt =====
-- wineventchain/pkg/retentionpolicy/app.go: which transactions set the policy, and what is stored.
use wineventchain.Common.{
  ℕ, ◌≡◌, refl, inl, inr, true, false, List, Option, none, some, ok, bytes_eq, bytes_eq_sound,
  arith, Bool-cases, Outcome-cases, Option-cases, is_set, subst,
}
use mathlib.Core.Option
use wineventchain.Chain.Response.{FinalizeBlockResponse, CheckTxResponse}
use wineventchain.Chain.Tree.{Tree}
use wineventchain.Chain.Rpc.{SignedPayload, Verify, validate_signature}
use wineventchain.Chain.Identity.Repository.{IdentityData, IdentityCodec, role_admin, get}
use wineventchain.Policy.{RetentionPolicy, StoredPolicy, validate, new_stored_policy}
use wineventchain.Policy.Validation.{IsValidPolicy, validate_iff}
use wineventchain.Chain.Retention.App.{
  Db, Formats, RetentionApp, decode, admit, read_policy, check, check_tx, answered_hash, finalize,
  finalize_block, request_type_set_policy,
}

not-is_set {ℓ} : {A : Type ℓ} {o : Option A} → is_set o ≡ false → o ≡ none
unfolding is_set
not-is_set {o = none} h = refl
not-is_set {o = some a} h = ground arith

module _ (tree : Tree) (codec : IdentityCodec) (db : Db) (formats : Formats) (verify : Verify) where
  abbrev App : Type 0
  App = RetentionApp tree codec db formats verify

  -- While the hash does not panic and the constant answer has a JSON, CheckTx answers a
  -- transaction with the code that FinalizeBlock answers it with in the same state, and panics
  -- where it does.
  pub retention_check-finalize :
      (app : App) (time : ℕ) (input h answer : List ℕ)
      → answered_hash tree codec db formats verify app ≡ ok h
      → formats.set_policy_response ≡ ok answer
      → Option.map
          (λ (r : CheckTxResponse). r.code)
          (check_tx tree codec db formats verify app input)
        ≡ Option.map
            (λ (r : App × FinalizeBlockResponse StoredPolicy). r.1.tx_result.code)
            (finalize_block tree codec db formats verify time app input)
  unfolding check_tx finalize_block check finalize
  retention_check-finalize app time input h answer e f =
      elim (Outcome-cases (admit tree codec db formats verify app input)) [
        | inl (payload, d) ↦ rw (d, check, finalize, check_tx, finalize_block) (ground arith)
        | inr (inl (x, d)) ↦ rw (d, check, finalize, check_tx, finalize_block)
        | inr (inr d) ↦ rw (d, check, finalize, check_tx, finalize_block)
      ]

  -- What a transaction did to the application.
  pub data Sets (time : ℕ) (input : List ℕ) (app app' : App) (c : Option StoredPolicy)
      : Type 0 where
    refused : app' ≡ app → c ≡ none → Sets time input app app' c
    sets :
        (p : StoredPolicy) (payload : SignedPayload) (requester : IdentityData)
        → formats.payload input ≡ ok payload
        → bytes_eq payload.type request_type_set_policy ≡ true
        → formats.set_policy payload.body ≡ ok p.policy
        → app.policy ≡ none
        → app.tx_policy ≡ none
        → get tree codec app.identities payload.principal ≡ ok requester
        → validate_signature verify payload requester.public_key ≡ ok true
        → requester.role ≡ role_admin
        → IsValidPolicy p.policy
        → p.author ≡ payload.principal
        → p.applied_at ≡ time
        → app' ≡ record app { tx_policy = some p }
        → c ≡ some p
        → Sets time input app app' c

  decode-parsed :
      (app : App) (input : List ℕ) (payload : SignedPayload) (requester : IdentityData)
      → decode tree codec db formats verify app input ≡ ok (payload, requester)
      → formats.payload input ≡ ok payload
  unfolding decode
  decode-parsed app input payload requester h = elim (Outcome-cases (formats.payload input)) [
    | inl (p, e) ↦ ground arith
    | inr (inl (x, e)) ↦ absurd (ground arith)
    | inr (inr e) ↦ absurd (ground arith)
  ]

  admit-signed :
      (app : App) (input : List ℕ) (payload : SignedPayload)
      → admit tree codec db formats verify app input ≡ ok payload
      → (requester : IdentityData) × (formats.payload input ≡ ok payload)
        × (get tree codec app.identities payload.principal ≡ ok requester)
        × (validate_signature verify payload requester.public_key ≡ ok true)
        × (requester.role ≡ role_admin)
        × (app.policy ≡ none)
        × (app.tx_policy ≡ none)
  unfolding admit decode is_set
  admit-signed app input payload h =
      elim (Outcome-cases (decode tree codec db formats verify app input)) [
        | inl ((p, requester), d) ↦ (
          requester,
          decode-parsed app input payload requester (ground arith),
          ground arith,
          ground arith,
          bytes_eq_sound _ role_admin (ground arith),
          not-is_set (ground arith),
          not-is_set (ground arith),
        )
        | inr (inl (x, d)) ↦ absurd (ground arith)
        | inr (inr d) ↦ absurd (ground arith)
      ]

  read_policy-valid :
      (payload : SignedPayload) (p : RetentionPolicy)
      → read_policy tree codec db formats verify payload ≡ ok p
      → (formats.set_policy payload.body ≡ ok p) × (validate p ≡ none)
  unfolding read_policy
  read_policy-valid payload p h = elim (Outcome-cases (formats.set_policy payload.body)) [
    | inl (q, e) ↦ elim (Option-cases (validate q)) [
      | inl v ↦
          (ground arith, let same : q ≡ p = ground arith in subst (λ x. validate x ≡ none) same v)
      | inr (x, v) ↦ absurd (ground arith)
    ]
    | inr (inl (x, e)) ↦ absurd (ground arith)
    | inr (inr e) ↦ absurd (ground arith)
  ]

  -- A transaction either changes nothing and leaves nothing to commit, or it is a request to set a
  -- policy with the signature of an administrator on it, who is its principal, no policy was set before, neither on the chain nor earlier in the block, and
  -- the policy that it leaves to commit is the one in its body and valid, with the signer as author and the time of the block.
  pub finalize_block-Sets :
      (time : ℕ) (app : App) (input : List ℕ) (app' : App) (r : FinalizeBlockResponse StoredPolicy)
      → finalize_block tree codec db formats verify time app input ≡ some (app', r)
      → Sets time input app app' r.commit_func
  unfolding finalize_block finalize new_stored_policy
  finalize_block-Sets time app input app' r h =
      elim (Outcome-cases (admit tree codec db formats verify app input)) [
        | inl (payload, d) ↦
            elim (Outcome-cases (read_policy tree codec db formats verify payload)) [
              | inl (request, e) ↦
                  let (requester, parsed, known, valid, admin, unset, tx_unset) =
                    admit-signed app input payload d in
                  let (given, proper) = read_policy-valid payload request e in
                  elim (Bool-cases (bytes_eq payload.type request_type_set_policy)) [
                    | inr other ↦ refused (ground arith) (ground arith)
                    | inl type ↦ elim (Option-cases r.commit_func) [
                      | inl n ↦ refused (ground arith) n
                      | inr (p, c) ↦
                          sets (new_stored_policy request payload.principal time) payload requester
                            parsed type given unset tx_unset known valid admin
                            ((validate_iff request).0 proper) refl refl (ground arith)
                            (ground arith)
                    ]
                  ]
              | inr (inl (x, e)) ↦ refused (ground arith) (ground arith)
              | inr (inr e) ↦ refused (ground arith) (ground arith)
            ]
        | inr (inl (x, d)) ↦ refused (ground arith) (ground arith)
        | inr (inr d) ↦ absurd (ground arith)
      ]
