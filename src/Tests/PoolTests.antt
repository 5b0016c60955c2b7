-- ===== src/Tests/PoolTests.antt =====
-- A pool of three connections, of which one was tested lately, and the policy that its nodes give: the
-- theorems of the Pool and Client modules at them.
use wineventchain.Common.{
  ℕ, ◌≤◌, ◌≡◌, refl, Bool, ◌==◌, not, List, [], ◌∷◌, Option, none, some, Outcome, ok, err, All,
  arith, if◌then◌else◌,
}
use wineventchain.Chain.Response.{Failure, QueryResponse, retention_policy, json_failure}
use wineventchain.Policy.{StoredPolicy}
use wineventchain.Pool.{Pool, get, get_live, get_all, is_recent}
use wineventchain.Pool.Selection.{Selected, get-usable}
use wineventchain.Pool.Listing.{listed}
use wineventchain.Client.{
  get_retention_policy, compare_policies, policies_of, common_policy, all_agree, agrees,
  get_retention_policy_for_client, read_answer,
}
use wineventchain.Client.Agreement.{asked, votes, get_retention_policy-asked}

-- The connection 9 is dead.
abbrev alive : ℕ → Bool
alive n = not (n == 9)

abbrev some_dead : Pool ℕ (◌==◌) alive
some_dead = record {
  idx = 0;
  conns = 1 ∷ 9 ∷ 2 ∷ [];
  dead_conns = [];
  last_test_time = λ n. if n == 2 then some 50 else none;
  liveness_valid_threshold = 10;
}

get-usable_example :
    (p' : Pool ℕ (◌==◌) alive) × (answer : Option ℕ) × (get ℕ (◌==◌) alive 4 55 some_dead
      ≡ some (p', answer))
    × Selected ℕ (◌==◌) alive 55 some_dead p' answer
get-usable_example = get-usable ℕ (◌==◌) alive 4 55 some_dead (omega arith)

abbrev two_nodes : Pool ℕ (◌==◌) alive
two_nodes = record some_dead { conns = 1 ∷ 2 ∷ [] }

-- Every node answers that no policy is set.
abbrev no_policy : ℕ → Outcome Failure QueryResponse
no_policy n = ok (record { code = 4006; codespace = retention_policy; log = none; value = [] })

abbrev no_json : List ℕ → Outcome Failure StoredPolicy
no_json bytes = err (json_failure [])

-- Two nodes are three where three are asked for.
asked_two :
    get_retention_policy ℕ (◌==◌) alive no_policy no_json 3 55 two_nodes ≡ some (two_nodes, ok none)
unfolding get_retention_policy compare_policies get_all get_live is_recent policies_of
    get_retention_policy_for_client read_answer common_policy all_agree agrees
asked_two = refl

get_retention_policy-asked_example :
    All
      (λ c. (p : Option StoredPolicy) → asked ℕ (◌==◌) alive no_policy no_json c ≡ ok p → p ≡ none)
      (1 ∷ 2 ∷ [])
    × (3 ≤ votes ℕ (◌==◌) alive no_policy no_json (listed ℕ (◌==◌) alive 55 two_nodes (1 ∷ 2 ∷ [])))
    × (1 ≤ votes ℕ (◌==◌) alive no_policy no_json (listed ℕ (◌==◌) alive 55 two_nodes (1 ∷ 2 ∷ [])))
get_retention_policy-asked_example =
    get_retention_policy-asked ℕ (◌==◌) alive no_policy no_json 3 55 two_nodes two_nodes none
      (refl, (refl, tt)) asked_two
