-- ===== src/Chain/Identity/History.antt =====
-- wineventchain/pkg/identity/app.go over a whole block: no identity is lost or changed.
use wineventchain.Common.{
  ℕ, ◌≡◌, ◌≢◌, ap, sym, ◌∙◌, inl, inr, true, false, List, [], ◌∷◌, some, ok, bytes_eq_refl,
  contains, arith, Bool-cases, Outcome-cases, subst, All,
}
use wineventchain.Chain.Tree.{Tree, TreeLaws}
use wineventchain.Chain.Rpc.{Verify}
use wineventchain.Chain.Identity.Repository.{
  IdentityData, IdentityCodec, IdentityCodecLaw, get, is_seeded,
}
use wineventchain.Chain.Identity.App.{Requests, Commit, IdentityApp, run_commit}
use wineventchain.Chain.Identity.Blocks.{
  commit_principal, commit_identity, is_seed, finalize_all, commit_all, IsSound, Pending,
  finalize_all-After,
}
use wineventchain.Chain.Identity.Commits.{Committed, run_commit-Committed}

module _ (tree : Tree) (codec : IdentityCodec) (requests : Requests) (verify : Verify)
    (laws : TreeLaws tree) (law : IdentityCodecLaw codec) where
  abbrev App : Type 0
  App = IdentityApp tree codec requests verify

  abbrev Untouched : List ℕ → List Commit → Type 0
  Untouched q [] = Unit {0}
  Untouched q (c ∷ cs) = (commit_principal c ≢ q) × Untouched q cs

  existing_Untouched :
      (r : tree.State) (seen : List (List ℕ)) (cs : List Commit) (q : List ℕ) (d : IdentityData)
      → get tree codec r q ≡ ok d
      → Pending tree codec requests verify laws law r seen cs
      → Untouched q cs
  existing_Untouched r seen [] q d e p = tt
  existing_Untouched r seen (c ∷ cs) q d e p = (
    λ same. p.0 d (ap (get tree codec r) same ∙ e),
    existing_Untouched r (commit_principal c ∷ seen) cs q d e p.3,
  )

  seen_Untouched :
      (r : tree.State) (seen : List (List ℕ)) (cs : List Commit) (q : List ℕ)
      → contains seen q ≡ true
      → Pending tree codec requests verify laws law r seen cs
      → Untouched q cs
  unfolding contains
  seen_Untouched r seen [] q h p = tt
  seen_Untouched r seen (c ∷ cs) q h p = (
    λ same. ground (arith, p.1, ap (contains seen) same),
    seen_Untouched r (commit_principal c ∷ seen) cs q (ground arith) p.3,
  )

  commit_all_cons :
      (c : Commit) (cs : List Commit) (app app' : App)
      → commit_all tree codec requests verify app (c ∷ cs) ≡ (app', ok tt)
      → (app1 : App) × Committed tree codec requests verify laws law c app app1
        × (commit_all tree codec requests verify app1 cs ≡ (app', ok tt))
  unfolding commit_all
  commit_all_cons c cs app app' h =
      let app1 = (run_commit tree codec requests verify app c).0 in
      elim (Outcome-cases (run_commit tree codec requests verify app c).1) [
        | inl (tt, e) ↦ (
          app1,
          run_commit-Committed tree codec requests verify laws law c app app1
              (ap (λ o. (app1, o)) e),
          ground arith,
        )
        | inr (inl (x, e)) ↦ absurd (ground arith)
        | inr (inr e) ↦ absurd (ground arith)
      ]

  commit_all_keeps :
      (cs : List Commit) (app app' : App) (q : List ℕ) (d : IdentityData)
      → commit_all tree codec requests verify app cs ≡ (app', ok tt)
      → Untouched q cs
      → get tree codec app.repository q ≡ ok d
      → get tree codec app'.repository q ≡ ok d
  unfolding commit_all
  commit_all_keeps [] app app' q d h u e = ap (λ t. get tree codec t.0.repository q) (sym h) ∙ e
  commit_all_keeps (c ∷ cs) app app' q d h u e =
      let (app1, done, rest) = commit_all_cons c cs app app' h in
      commit_all_keeps cs app1 app' q d rest u.1 (done.others q u.0 ∙ e)

  commit_all_stores :
      (cs : List Commit) (r : tree.State) (seen : List (List ℕ)) (app app' : App)
      → commit_all tree codec requests verify app cs ≡ (app', ok tt)
      → Pending tree codec requests verify laws law r seen cs
      → All (λ c. get tree codec app'.repository (commit_principal c) ≡ ok (commit_identity c)) cs
  unfolding contains
  commit_all_stores [] r seen app app' h p = tt
  commit_all_stores (c ∷ cs) r seen app app' h p =
      let (app1, done, rest) = commit_all_cons c cs app app' h in
      let q = commit_principal c in
      (
        commit_all_keeps cs app1 app' q (commit_identity c) rest
            (seen_Untouched r (q ∷ seen) cs q (ground (arith, bytes_eq_refl q)) p.3) done.stored,
        commit_all_stores cs r (q ∷ seen) app1 app' rest p.3,
      )

  commit_all_seeded :
      (cs : List Commit) (app app' : App)
      → commit_all tree codec requests verify app cs ≡ (app', ok tt)
      → is_seeded tree codec app.repository ≢ ok false
      → is_seeded tree codec app'.repository ≢ ok false
  unfolding commit_all
  commit_all_seeded [] app app' h n = λ e. n (ap (λ t. is_seeded tree codec t.0.repository) h ∙ e)
  commit_all_seeded (c ∷ cs) app app' h n =
      let (app1, done, rest) = commit_all_cons c cs app app' h in
      commit_all_seeded cs app1 app' rest λ e. elim done.marks [
        | inl same ↦ n (sym same ∙ e)
        | inr marked ↦ (let clash : ok true ≡ ok false = sym marked ∙ e in ground arith)
      ]

  commit_all-IsSound :
      (cs : List Commit) (seen : List (List ℕ)) (app app' : App)
      → commit_all tree codec requests verify app cs ≡ (app', ok tt)
      → Pending tree codec requests verify laws law app.repository seen cs
      → IsSound tree codec requests verify laws law app
      → IsSound tree codec requests verify laws law app'
  unfolding commit_all
  commit_all-IsSound [] seen app app' h p s =
      subst (IsSound tree codec requests verify laws law) (ap (λ t. t.0) h) s
  commit_all-IsSound (c ∷ cs) seen app app' h p s =
      let (app1, done, rest) = commit_all_cons c cs app app' h in
      let marked : is_seeded tree codec app1.repository ≢ ok false = (λ e.
        elim (Bool-cases (is_seed c)) [
          | inl seed ↦ (let clash : ok true ≡ ok false = sym (done.seed seed) ∙ e in ground arith)
          | inr other ↦ elim done.marks [
            | inl same ↦ (let clash : false ≡ true = sym other ∙ p.2 (sym same ∙ e) in ground arith)
            | inr marked ↦ (let clash : ok true ≡ ok false = sym marked ∙ e in ground arith)
          ]
        ]) in
      let still = commit_all_seeded cs app1 app' rest marked in
      record { unseeded = λ e. absurd (still e); early = λ e. absurd (still e) }

  -- No block loses or changes an identity: those before it are as they were, and each identity
  -- whose registration the block accepted is stored as it was given, once all commit functions
  -- have succeeded. The invariant holds again after the block.
  pub commit_all-finalize_all :
      (inputs : List (List ℕ)) (app app' app'' : App) (commits : List Commit)
      → IsSound tree codec requests verify laws law app
      → finalize_all tree codec requests verify app inputs ≡ some (app', commits)
      → commit_all tree codec requests verify app' commits ≡ (app'', ok tt)
      → ((q : List ℕ) (d : IdentityData)
          → get tree codec app.repository q ≡ ok d
          → get tree codec app''.repository q ≡ ok d)
        × All
            (λ c. get tree codec app''.repository (commit_principal c) ≡ ok (commit_identity c))
            commits
        × IsSound tree codec requests verify laws law app''
  commit_all-finalize_all inputs app app' app'' commits s h k =
      let a =
        finalize_all-After tree codec requests verify laws law inputs app (app', commits) s h in
      let p =
        subst (λ r. Pending tree codec requests verify laws law r app.registering commits) (sym a.1)
          a.2 in
      (
        λ q d e.
            commit_all_keeps commits app' app'' q d k
              (existing_Untouched app.repository app.registering commits q d e a.2)
              (ap (λ r. get tree codec r q) a.1 ∙ e),
        commit_all_stores commits app'.repository app.registering app' app'' k p,
        commit_all-IsSound commits app.registering app' app'' k p a.0,
      )
