-- ===== src/Chain/Identity/Blocks.antt =====
-- wineventchain/pkg/identity/app.go over a whole block: the transactions, then the commit.
use wineventchain.Common.{
  ℕ, ◌≡◌, ◌≢◌, refl, ap, sym, ◌∙◌, inl, inr, Bool, true, false, List, [], ◌∷◌, ◌++◌, Option, none,
  some, Outcome, ok, err, panic, contains, contains-append, seen_cons, arith, Option-cases,
  some-injective, subst,
}
use wineventchain.Chain.Response.{Failure}
use wineventchain.Chain.Tree.{Tree, TreeLaws}
use wineventchain.Chain.Rpc.{Verify}
use wineventchain.Chain.Identity.Repository.{
  IdentityData, IdentityCodec, IdentityCodecLaw, get, is_seeded,
}
use wineventchain.Chain.Identity.Laws.{not-get_of_has}
use wineventchain.Chain.Identity.App.{
  Requests, Commit, commit_seed, commit_register, IdentityApp, finalize_block, run_commit,
}
use wineventchain.Chain.Identity.Checks.{Accepts, refused, seeds, registers, finalize_block-Accepts}

abbrev pub commit_principal : Commit → List ℕ
commit_principal (commit_seed p d) = p
commit_principal (commit_register p d) = p

abbrev pub commit_identity : Commit → IdentityData
commit_identity (commit_seed p d) = d
commit_identity (commit_register p d) = d

abbrev pub is_seed : Commit → Bool
is_seed (commit_seed p d) = true
is_seed (commit_register p d) = false

module _ (tree : Tree) (codec : IdentityCodec) (requests : Requests) (verify : Verify) where
  -- The transactions of a block, with the commit functions that they leave; `none` is a panic.
  unfoldable pub finalize_all :
      IdentityApp tree codec requests verify
      → List (List ℕ)
      → Option (IdentityApp tree codec requests verify × List Commit)
  finalize_all app [] = some (app, [])
  finalize_all app (input ∷ inputs) = elim (finalize_block tree codec requests verify app input) [
    | none ↦ none
    | some (app', r) ↦ elim (finalize_all app' inputs) [
      | none ↦ none
      | some (app'', commits) ↦
          some (app'', elim r.commit_func [ none ↦ commits | some c ↦ c ∷ commits ])
    ]
  ]

  -- Commit: the commit functions in order, up to the first that fails.
  unfoldable pub commit_all :
      IdentityApp tree codec requests verify
      → List Commit
      → IdentityApp tree codec requests verify × Outcome Failure (Unit {0})
  commit_all app [] = (app, ok tt)
  commit_all app (c ∷ commits) =
      let (app', result) = run_commit tree codec requests verify app c in
      elim result [ ok _ ↦ commit_all app' commits | err e ↦ (app', err e) | panic ↦ (app', panic) ]

module _ (tree : Tree) (codec : IdentityCodec) (requests : Requests) (verify : Verify)
    (laws : TreeLaws tree) (law : IdentityCodecLaw codec) where
  abbrev pub App : Type 0
  App = IdentityApp tree codec requests verify

  -- Before the seed there are no identities, and no transaction of the block was accepted.
  pub record IsSound (app : IdentityApp tree codec requests verify) : Type 0 where
    pub unseeded :
        is_seeded tree codec app.repository ≡ ok false
        → (p : List ℕ) (d : IdentityData) → get tree codec app.repository p ≢ ok d
    pub early :
        is_seeded tree codec app.repository ≡ ok false → app.seeded ≡ false → app.registering ≡ []

  -- Commit functions of principals without an identity in `r`, each once and none of `seen`.
  abbrev pub Pending : tree.State → List (List ℕ) → List Commit → Type 0
  Pending r seen [] = Unit {0}
  Pending r seen (c ∷ cs) =
      ((d : IdentityData) → get tree codec r (commit_principal c) ≢ ok d)
      × (contains seen (commit_principal c) ≡ false)
      × (is_seeded tree codec r ≡ ok false → is_seed c ≡ true)
      × Pending r (commit_principal c ∷ seen) cs

  Pending-mono :
      (r : tree.State) (cs : List Commit) (seen seen' : List (List ℕ))
      → ((q : List ℕ) → contains seen' q ≡ false → contains seen q ≡ false)
      → Pending r seen' cs
      → Pending r seen cs
  unfolding contains
  Pending-mono r [] seen seen' h p = tt
  Pending-mono r (c ∷ cs) seen seen' h p = (
    p.0,
    h (commit_principal c) p.1,
    p.2,
    Pending-mono r cs (commit_principal c ∷ seen) (commit_principal c ∷ seen')
        (λ q k. ground (arith, h q)) p.3,
  )

  -- One transaction of a block, from the state before it.
  abbrev pub Next : App → App → Option Commit → Type 0
  Next app app' none =
      IsSound app'
      × (app'.repository ≡ app.repository)
      × ((q : List ℕ) → contains app'.registering q ≡ false → contains app.registering q ≡ false)
  Next app app' (some c) =
      IsSound app'
      × (app'.repository ≡ app.repository)
      × (app'.registering ≡ app.registering ++ (commit_principal c ∷ []))
      × ((d : IdentityData) → get tree codec app.repository (commit_principal c) ≢ ok d)
      × (contains app.registering (commit_principal c) ≡ false)
      × (is_seeded tree codec app.repository ≡ ok false → is_seed c ≡ true)

  pub Next-IsSound : (app app' : App) (c : Option Commit) → Next app app' c → IsSound app'
  Next-IsSound app app' none n = n.0
  Next-IsSound app app' (some c) n = n.0

  Accepts-Next :
      (input : List ℕ) (app app' : IdentityApp tree codec requests verify) (c : Option Commit)
      → IsSound app
      → Accepts tree codec requests verify input app app' c
      → Next app app' c
  unfolding contains
  Accepts-Next input app app' c s (refused same none_left) =
      subst (Next app app') (sym none_left)
        (subst (λ (a : App). Next app a none) (sym same) (s, refl, λ q h. h))
  Accepts-Next input app app' c s
        (seeds payload request p d parsed type read at made u n same left) =
      let app1 : App = record app { seeded = true; registering = app.registering ++ (p ∷ []) } in
      let sound : IsSound app1 = record {
        unseeded = s.unseeded;
        early = λ _ e. absurd (ground arith);
      } in
      subst (λ (b : App). Next app b c) (sym same)
        (elim left [
          | inl e ↦
              subst (Next app app1) (sym e)
                (sound, refl, refl, s.unseeded u p, ap (λ l. contains l p) (s.early u n), λ _. refl)
          | inr e ↦
              subst (Next app app1) (sym e)
                (sound, refl, λ q h. (contains-append app.registering p q h).0)
        ])
  Accepts-Next input app app' c s
        (registers payload request p d requester parsed type read at made known valid admin free new
          same left) =
      let app1 : App = record app { registering = app.registering ++ (p ∷ []) } in
      let sound : IsSound app1 = record {
        unseeded = s.unseeded;
        early = λ u _. absurd (s.unseeded u payload.principal requester known);
      } in
      subst (λ (b : App). Next app b c) (sym same)
        (elim left [
          | inl e ↦ subst (Next app app1) (sym e) (
            sound,
            refl,
            refl,
            λ d. not-get_of_has tree codec laws law app.repository p d free,
            new,
            λ u. absurd (s.unseeded u payload.principal requester known),
          )
          | inr e ↦
              subst (Next app app1) (sym e)
                (sound, refl, λ q h. (contains-append app.registering p q h).0)
        ])

  abbrev pub After : App → App × List Commit → Type 0
  After app t =
      IsSound t.0 × (t.0.repository ≡ app.repository) × Pending app.repository app.registering t.1

  abbrev add_commit : Option Commit → List Commit → List Commit
  add_commit none cs = cs
  add_commit (some c) cs = c ∷ cs

  After-cons :
      (c : Option Commit) (app app1 app2 : App) (cs : List Commit)
      → Next app app1 c
      → After app1 (app2, cs)
      → After app (app2, add_commit c cs)
  After-cons none app app1 app2 cs n a = (
    a.0,
    a.1 ∙ n.1,
    Pending-mono app.repository cs app.registering app1.registering n.2
        (subst (λ r. Pending r app1.registering cs) n.1 a.2),
  )
  After-cons (some c) app app1 app2 cs n a =
      let p = commit_principal c in
      (
        a.0,
        a.1 ∙ n.1,
        (
          n.3,
          n.4,
          n.5,
          Pending-mono app.repository cs (p ∷ app.registering) app1.registering
              (λ q h.
                (let k =
                    contains-append app.registering p q (subst (λ l. contains l q ≡ false) n.2 h) in
                  seen_cons p q app.registering k.1 k.0))
              (subst (λ r. Pending r app1.registering cs) n.1 a.2),
        ),
      )

  pub finalize_all-After :
      (inputs : List (List ℕ)) (app : App) (t : App × List Commit)
      → IsSound app
      → finalize_all tree codec requests verify app inputs ≡ some t
      → After app t
  unfolding finalize_all
  finalize_all-After [] app t s h = subst (After app) (some-injective _ t h) (s, refl, tt)
  finalize_all-After (input ∷ inputs) app t s h =
      elim (Option-cases (finalize_block tree codec requests verify app input)) [
        | inl e ↦ absurd (ground arith)
        | inr ((app1, r), e) ↦
            elim (Option-cases (finalize_all tree codec requests verify app1 inputs)) [
              | inl f ↦ absurd (ground arith)
              | inr ((app2, cs), f) ↦
                  let next =
                    Accepts-Next input app app1 r.commit_func s
                      (finalize_block-Accepts tree codec requests verify app input app1 r e) in
                  let sound : IsSound app1 = Next-IsSound app app1 r.commit_func next in
                  let rest = finalize_all-After inputs app1 (app2, cs) sound f in
                  let same : (app2, add_commit r.commit_func cs) ≡ t = ground arith in
                  subst (After app) same (After-cons r.commit_func app app1 app2 cs next rest)
            ]
      ]
