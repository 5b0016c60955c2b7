-- ===== src/Chain/Retention/Query.antt =====
-- wineventchain/pkg/retentionpolicy/app.go: Query, Info and InitChain, which change nothing.
use wineventchain.Common.{
  ℕ, ◌≡◌, ◌↔◌, inl, inr, Option-cases, Bool, true, false, List, none, some, Outcome, ok, err, panic,
  ◌>>=◌, hex_encode, is_set, arith, Outcome-cases,
}
use wineventchain.Chain.Response.{
  Failure, no_proofs, retention_policy, QueryResponse, into_query_response, ErrorResponse, code_ok,
  code_unknown_error,
}
use wineventchain.Chain.Tree.{Tree}
use wineventchain.Chain.Rpc.{Verify}
use wineventchain.Chain.Identity.Repository.{IdentityCodec}
use wineventchain.Policy.{StoredPolicy}
use wineventchain.Chain.Retention.App.{
  Db, Formats, FormatLaws, HasReadablePeriods, RetentionApp, app_hash, refuse, multiplex_error,
  code_unsupported_request, code_policy_not_set,
}

pub record AppInfo : Type 0 where
  pub app_hash : List ℕ
  pub is_set : Bool

module _ (tree : Tree) (codec : IdentityCodec) (db : Db) (formats : Formats) (verify : Verify) where
  -- RetentionPolicyApp.Query
  unfoldable pub query :
      RetentionApp tree codec db formats verify → Bool → Outcome Failure QueryResponse
  unfolding into_query_response
  query app true = ok (into_query_response (refuse code_unsupported_request (some no_proofs)))
  query app false = elim app.policy [
    | none ↦ ok (into_query_response (refuse code_policy_not_set none))
    | some policy ↦ formats.marshal policy >>= λ bytes.
        ok (record { code = code_ok; codespace = retention_policy; log = none; value = bytes })
  ]

  -- RetentionPolicyApp.Info, or the error that it answers with.
  unfoldable pub info : RetentionApp tree codec db formats verify → Outcome ErrorResponse AppInfo
  info app = elim (app_hash tree codec db formats verify app) [
    | ok hash ↦ ok (record { app_hash = hex_encode hash; is_set = is_set app.policy })
    | err e ↦ err (multiplex_error code_unknown_error e)
    | panic ↦ panic
  ]

  -- RetentionPolicyApp.InitChain, which ends the process where there is no hash.
  unfoldable pub init_chain : RetentionApp tree codec db formats verify → Outcome Failure (List ℕ)
  init_chain app = elim (app_hash tree codec db formats verify app) [
    | ok hash ↦ ok hash
    | err e ↦ panic
    | panic ↦ panic
  ]

  -- A query without a proof that is answered succeeds exactly when a policy is set, and its
  -- value is then read back as that policy, where its texts are valid UTF-8 and its periods are read
  -- back from their JSON.
  pub unmarshal-query :
      (app : RetentionApp tree codec db formats verify) (r : QueryResponse)
      (law : FormatLaws formats)
      → ((p : StoredPolicy) → app.policy ≡ some p → law.IsUtf8 p × HasReadablePeriods formats p)
      → query app false ≡ ok r
      → ((r.code ≡ code_ok) ↔ (is_set app.policy ≡ true))
        × ((p : StoredPolicy) → app.policy ≡ some p → formats.unmarshal r.value ≡ ok p)
  unfolding query is_set refuse
  unmarshal-query app r law clean h = elim (Option-cases app.policy) [
    | inl n ↦ ((λ c. ground arith, λ c. ground arith), λ p e. absurd (ground arith))
    | inr (q, n) ↦ elim (Outcome-cases (formats.marshal q)) [
      | inl (bytes, m) ↦
          let read = law.unmarshal-marshal q bytes (clean q n).0 (clean q n).1 m in
          ((λ c. ground arith, λ c. ground arith), λ p e. ground (arith, read))
      | inr (inl (x, m)) ↦ absurd (ground arith)
      | inr (inr m) ↦ absurd (ground arith)
    ]
  ]
