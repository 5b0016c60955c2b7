-- ===== src/Chain/Identity/Commits.antt =====
-- wineventchain/pkg/identity/app.go at a commit: what each commit function does to the tree.
use wineventchain.Common.{
  ℕ, ◌≡◌, ◌≢◌, ap, sym, ◌∙◌, ◌⊎◌, inl, inr, true, false, List, [], ok, arith, Outcome-cases, subst,
}
use wineventchain.Chain.Tree.{Tree, TreeLaws}
use wineventchain.Chain.Rpc.{Verify}
use wineventchain.Chain.Identity.Repository.{
  IdentityCodec, IdentityCodecLaw, get, is_seeded, store, set_seeded,
}
use wineventchain.Chain.Identity.Laws.{
  get-store, get-store_ne, is_seeded-store, get-set_seeded, is_seeded-set_seeded, get-save,
  is_seeded-save,
}
use wineventchain.Chain.Identity.App.{
  Requests, Commit, commit_seed, commit_register, IdentityApp, run_commit, reset, save, apply,
}
use wineventchain.Chain.Identity.Blocks.{commit_principal, commit_identity, is_seed}

module _ (tree : Tree) (codec : IdentityCodec) (requests : Requests) (verify : Verify)
    (laws : TreeLaws tree) (law : IdentityCodecLaw codec) where
  abbrev App : Type 0
  App = IdentityApp tree codec requests verify

  -- A commit function that succeeds stores its identity and changes no other; the seed marks the
  -- tree as seeded.
  pub record Committed (c : Commit) (app app' : IdentityApp tree codec requests verify)
      : Type 0 where
    pub stored : get tree codec app'.repository (commit_principal c) ≡ ok (commit_identity c)
    pub others :
        (q : List ℕ)
        → commit_principal c ≢ q
        → get tree codec app'.repository q ≡ get tree codec app.repository q
    pub marks :
        (is_seeded tree codec app'.repository ≡ is_seeded tree codec app.repository)
        ⊎ (is_seeded tree codec app'.repository ≡ ok true)
    pub seed : is_seed c ≡ true → is_seeded tree codec app'.repository ≡ ok true
    pub idle : (app'.seeded ≡ false) × (app'.registering ≡ [])

  save_keeps :
      (app app' : IdentityApp tree codec requests verify)
      → save tree codec requests verify app ≡ (app', ok tt)
      → ((q : List ℕ) → get tree codec app'.repository q ≡ get tree codec app.repository q)
        × (is_seeded tree codec app'.repository ≡ is_seeded tree codec app.repository)
        × (app'.seeded ≡ app.seeded)
        × (app'.registering ≡ app.registering)
  unfolding save
  save_keeps app app' h = elim (Outcome-cases (tree.save_version app.repository)) [
    | inl ((t, hash, n), e) ↦
        let saved : record app { repository = t; version_number = n } ≡ app' = ground arith in
        let there : t ≡ app'.repository = ap (λ (a : App). a.repository) saved in
        (
          λ q.
              subst (λ r. get tree codec r q ≡ get tree codec app.repository q) there
                (get-save tree codec laws law app.repository t hash n q e),
          subst (λ r. is_seeded tree codec r ≡ is_seeded tree codec app.repository) there
              (is_seeded-save tree codec laws law app.repository t hash n e),
          sym (ap (λ (a : App). a.seeded) saved),
          sym (ap (λ (a : App). a.registering) saved),
        )
    | inr (inl (x, e)) ↦ absurd (ground arith)
    | inr (inr e) ↦ absurd (ground arith)
  ]

  pub run_commit-Committed :
      (c : Commit) (app app' : IdentityApp tree codec requests verify)
      → run_commit tree codec requests verify app c ≡ (app', ok tt)
      → Committed c app app'
  unfolding run_commit reset apply
  run_commit-Committed (commit_register p d) app app' h =
      elim (Outcome-cases (store tree codec app.repository p d)) [
        | inl (t, e) ↦
            let app1 : App = record app { repository = t; seeded = false; registering = [] } in
            let k = save_keeps app1 app' (ground arith) in
            record {
              stored = k.0 p ∙ get-store tree codec laws law app.repository t p d e;
              others = λ q ne. k.0 q ∙ get-store_ne tree codec laws law app.repository t p q d e ne;
              marks = inl (k.1 ∙ is_seeded-store tree codec laws law app.repository t p d e);
              seed = λ e. absurd (ground arith);
              idle = (k.2, k.3);
            }
        | inr (inl (x, e)) ↦ absurd (ground arith)
        | inr (inr e) ↦ absurd (ground arith)
      ]
  run_commit-Committed (commit_seed p d) app app' h =
      elim (Outcome-cases (store tree codec app.repository p d)) [
        | inl (t, e) ↦ elim (Outcome-cases (set_seeded tree codec t)) [
          | inl (u, f) ↦
              let app1 : App = record app { repository = u; seeded = false; registering = [] } in
              let k = save_keeps app1 app' (ground arith) in
              record {
                stored =
                    k.0 p
                    ∙ get-set_seeded tree codec laws law t u p f
                    ∙ get-store tree codec laws law app.repository t p d e;
                others = λ q ne.
                    k.0 q
                    ∙ get-set_seeded tree codec laws law t u q f
                    ∙ get-store_ne tree codec laws law app.repository t p q d e ne;
                marks = inr (k.1 ∙ is_seeded-set_seeded tree codec laws law t u f);
                seed = λ _. k.1 ∙ is_seeded-set_seeded tree codec laws law t u f;
                idle = (k.2, k.3);
              }
          | inr (inl (x, f)) ↦ absurd (ground arith)
          | inr (inr f) ↦ absurd (ground arith)
        ]
        | inr (inl (x, e)) ↦ absurd (ground arith)
        | inr (inr e) ↦ absurd (ground arith)
      ]
