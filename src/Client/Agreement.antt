-- ===== src/Client/Agreement.antt =====
-- offchain-interface/pkg/blockchain/client.go: what GetRetentionPolicy has asked before it answers.
use wineventchain.Common.{
  ℕ, ◌+◌, ◌≤◌, ◌≡◌, refl, ap, sym, ◌∙◌, inl, inr, Bool, true, List, [], ◌∷◌, Option, none, some,
  Outcome, ok, err, panic, All, length, arith, ok_injective, some-injective, Bool-cases,
  Option-cases, Outcome-cases, subst,
}
use wineventchain.Chain.Response.{Failure, QueryResponse}
use wineventchain.Policy.{StoredPolicy}
use wineventchain.Policy.Equality.{stored_equal_iff}
use wineventchain.Pool.{Pool}
use wineventchain.Pool.Listing.{listed, All-listed, get_all-listed}
use wineventchain.Client.{
  ClientError, agrees, all_agree, common_policy, get_retention_policy_for_client, policies_of,
  compare_policies, get_retention_policy,
}

agrees_sound : (p q : Option StoredPolicy) → agrees p q ≡ true → q ≡ p
unfolding agrees
agrees_sound none none h = refl
agrees_sound none (some q) h = absurd (ground arith)
agrees_sound (some p) none h = absurd (ground arith)
agrees_sound (some p) (some q) h = ap some (sym ((stored_equal_iff p q).0 h))

all_agree_sound :
    (first : Option StoredPolicy) (ps : List (Option StoredPolicy))
    → all_agree first ps ≡ true
    → All (λ p. p ≡ first) ps
unfolding all_agree
all_agree_sound first [] h = tt
all_agree_sound first (p ∷ ps) h =
    (agrees_sound first p (ground arith), all_agree_sound first ps (ground arith))

common_policy_sound :
    (ps : List (Option StoredPolicy)) (policy : Option StoredPolicy)
    → common_policy ps ≡ ok policy
    → All (λ p. p ≡ policy) ps
unfolding common_policy
common_policy_sound [] policy h = absurd (ground arith)
common_policy_sound (first ∷ rest) policy h = elim (Bool-cases (all_agree first rest)) [
  | inr apart ↦ absurd (ground arith)
  | inl agree ↦
      let same : first ≡ policy = ground arith in
      (same, subst (λ f. All (λ p. p ≡ f) rest) same (all_agree_sound first rest agree))
]

module _ (A : Type 0) (same : A → A → Bool) (test : A → Bool)
    (query : A → Outcome Failure QueryResponse)
    (unmarshal : List ℕ → Outcome Failure StoredPolicy) where
  abbrev pub asked : A → Outcome ClientError (Option StoredPolicy)
  asked = get_retention_policy_for_client A same test query unmarshal

  -- The number of clients that answer with the policy.
  abbrev pub votes : List A → ℕ
  votes [] = 0
  votes (c ∷ cs) = elim (asked c) [ ok policy ↦ votes cs + 1 | err e ↦ votes cs | panic ↦ votes cs ]

  policies_of_clients :
      (clients : List A) (ps : List (Option StoredPolicy)) (policy : Option StoredPolicy)
      → policies_of A same test query unmarshal clients ≡ some ps
      → All (λ p. p ≡ policy) ps
      → (votes clients ≡ length ps)
        × All (λ c. (p : Option StoredPolicy) → asked c ≡ ok p → p ≡ policy) clients
  unfolding policies_of
  policies_of_clients [] ps policy h agree = (ap length (some-injective [] ps h), tt)
  policies_of_clients (c ∷ clients) ps policy h agree = elim (Outcome-cases (asked c)) [
    | inr (inr e) ↦ absurd (ground arith)
    | inr (inl (x, e)) ↦
        let (count, others) = policies_of_clients clients ps policy (ground arith) agree in
        (rw (e, votes) count, (λ p f. absurd (ground arith), others))
    | inl (q, e) ↦ elim (Option-cases (policies_of A same test query unmarshal clients)) [
      | inl n ↦ absurd (ground arith)
      | inr (more, n) ↦
          let parts : q ∷ more ≡ ps = ground arith in
          let (first, rest) = subst (All (λ p. p ≡ policy)) (sym parts) agree in
          let (count, others) = policies_of_clients clients more policy n rest in
          (
            rw (e, votes) (ap (λ k. k + 1) count ∙ omega arith ∙ ap length parts),
            (λ p f. ok_injective (sym f ∙ e) ∙ first, others),
          )
    ]
  ]

  -- Where all nodes of the pool pass their test, GetRetentionPolicy answers a policy, or that none
  -- is set, only if every node of the pool that answered its query gave the same, and if the answers,
  -- with those of the nodes that were tested lately counted twice, are at least the minimum and not none.
  pub get_retention_policy-asked :
      (minimum_nodes now : ℕ) (pool pool' : Pool A same test) (policy : Option StoredPolicy)
      → All (λ c. test c ≡ true) pool.conns
      → get_retention_policy A same test query unmarshal minimum_nodes now pool
        ≡ some (pool', ok policy)
      → All (λ c. (p : Option StoredPolicy) → asked c ≡ ok p → p ≡ policy) pool.conns
        × (minimum_nodes ≤ votes (listed A same test now pool pool.conns))
        × (1 ≤ votes (listed A same test now pool pool.conns))
  unfolding get_retention_policy compare_policies
  get_retention_policy-asked minimum_nodes now pool pool' policy alive h =
      let clients = listed A same test now pool pool.conns in
      let all_live = get_all-listed A same test now pool alive in
      let result : compare_policies A same test query unmarshal minimum_nodes clients ≡ ok policy =
        ground arith in
      elim (Option-cases (policies_of A same test query unmarshal clients)) [
        | inl n ↦ absurd (ground arith)
        | inr (ps, n) ↦
            let agree = common_policy_sound ps policy (ground arith) in
            let (count, others) = policies_of_clients clients ps policy n agree in
            (
              All-listed A same test now pool
                  (λ c. (p : Option StoredPolicy) → asked c ≡ ok p → p ≡ policy) pool.conns others,
              ground arith,
              ground arith,
            )
      ]
