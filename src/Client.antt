-- ===== src/Client.antt =====
-- offchain-interface/pkg/blockchain/client.go: the retention policy, which a node asks all nodes of
-- the chain for. The query of a node is a parameter, as is the JSON of a policy; the request always
-- marshals.
pub mod Agreement
use wineventchain.Common.{
  ℕ, ◌==◌, Bool, true, false, ◌||◌, ◌&&◌, ltb, List, [], ◌∷◌, Option, none, some, Outcome, ok, err,
  panic, if◌then◌else◌, length,
}
use wineventchain.Chain.Response.{Failure, Codespace, retention_policy, QueryResponse, code_ok}
use wineventchain.Chain.Retention.App.{code_policy_not_set}
use wineventchain.Policy.{StoredPolicy, stored_equal}
use wineventchain.Pool.{Pool, get_all}

pub data ClientError : Type 0 where
  not_enough_nodes policy_mismatch abci_query_failed : ClientError
  failed : Failure → ClientError

unfoldable pub is_retention : Codespace → Bool
is_retention retention_policy = true
is_retention other = false

-- A nil pointer agrees only with nil.
unfoldable pub agrees : Option StoredPolicy → Option StoredPolicy → Bool
agrees none none = true
agrees none (some q) = false
agrees (some p) none = false
agrees (some p) (some q) = stored_equal p q

unfoldable pub all_agree : Option StoredPolicy → List (Option StoredPolicy) → Bool
unfolding agrees
all_agree first [] = true
all_agree first (p ∷ ps) = let rest = all_agree first ps in agrees first p && rest

-- The comparison of the policies with the first.
unfoldable pub common_policy :
    List (Option StoredPolicy) → Outcome ClientError (Option StoredPolicy)
common_policy [] = panic
common_policy (first ∷ rest) = if all_agree first rest then ok first else err policy_mismatch

module _ (A : Type 0) (same : A → A → Bool) (test : A → Bool)
    (query : A → Outcome Failure QueryResponse)
    (unmarshal : List ℕ → Outcome Failure StoredPolicy) where
  unfoldable pub read_answer : QueryResponse → Outcome ClientError (Option StoredPolicy)
  unfolding is_retention
  read_answer r =
      if is_retention r.codespace && (r.code == code_ok)
      then (elim (unmarshal r.value) [
        | ok policy ↦ ok (some policy)
        | err e ↦ err (failed e)
        | panic ↦ panic
      ])
      else if is_retention r.codespace && (r.code == code_policy_not_set)
      then ok none
      else err abci_query_failed

  -- getRetentionPolicyForClient
  unfoldable pub get_retention_policy_for_client : A → Outcome ClientError (Option StoredPolicy)
  unfolding read_answer
  get_retention_policy_for_client c = elim (query c) [
    | ok r ↦ read_answer r
    | err e ↦ err (failed e)
    | panic ↦ panic
  ]

  -- The policies of the clients that answer; `none` is a panic.
  unfoldable pub policies_of : List A → Option (List (Option StoredPolicy))
  policies_of [] = some []
  policies_of (c ∷ cs) =
      let rest = policies_of cs in
      elim (get_retention_policy_for_client c) [
        | ok policy ↦ elim rest [ none ↦ none | some ps ↦ some (policy ∷ ps) ]
        | err e ↦ rest
        | panic ↦ none
      ]

  -- GetRetentionPolicy behind the call of GetAll.
  unfoldable pub compare_policies : ℕ → List A → Outcome ClientError (Option StoredPolicy)
  unfolding policies_of common_policy
  compare_policies minimum_nodes clients =
      if ltb (length clients) minimum_nodes
      then err not_enough_nodes
      else elim (policies_of clients) [
        | none ↦ panic
        | some policies ↦
            if ltb (length policies) minimum_nodes || (length policies == 0)
            then err not_enough_nodes
            else common_policy policies
      ]

  -- GetRetentionPolicy: the pool that is left, and the policy.
  unfoldable pub get_retention_policy :
      ℕ
      → ℕ
      → Pool A same test
      → Option (Pool A same test × Outcome ClientError (Option StoredPolicy))
  unfolding compare_policies
  get_retention_policy minimum_nodes now pool = elim (get_all A same test now pool false) [
    | none ↦ none
    | some (pool', clients) ↦ some (pool', compare_policies minimum_nodes clients)
  ]
