-- ===== src/Chain/Multiplexer/Identities.antt =====
-- wineventchain/pkg/multiplexer/abci.go with the identity application of identity/app.go in its map.
use wineventchain.Common.{
  ℕ, ◌≡◌, refl, ap, ap₂, sym, ◌∙◌, inl, inr, List, [], ◌∷◌, ◌++◌, append-nil, append_assoc, Option,
  none, some, ok, err, panic, bytes_eq, if◌then◌else◌, arith, Bool-cases, Outcome-cases,
  Option-cases, codes,
}
use wineventchain.Chain.Response.{TxResult, FinalizeBlockResponse}
use wineventchain.Chain.Tree.{Tree}
use wineventchain.Chain.Rpc.{Verify}
use wineventchain.Chain.Identity.Repository.{IdentityCodec}
use wineventchain.Chain.Identity.App.{
  Requests, Commit, IdentityApp, check_tx, finalize_block, run_commit,
}
use wineventchain.Chain.Identity.Blocks.{finalize_all, commit_all}
use wineventchain.Chain.Multiplexer.App.{
  Apps, Formats, MuxedRequest, Multiplexer, finalize_tx, finalize_txs, run_commits, add_commit,
}

abbrev pub app_name : List ℕ
app_name = codes "identity"

module _ (tree : Tree) (codec : IdentityCodec) (requests : Requests) (verify : Verify)
    (formats : Formats) where
  abbrev pub App : Type 0
  App = IdentityApp tree codec requests verify

  abbrev pub identity_apps : Apps
  identity_apps = record {
    World = App;
    Commit = Commit;
    known = λ name. bytes_eq name app_name;
    check = λ name. check_tx tree codec requests verify;
    finalize = λ name. finalize_block tree codec requests verify;
    run = run_commit tree codec requests verify;
  }

  -- The inputs of the transactions that name the identity application.
  abbrev pub inputs_of : List (List ℕ) → List (List ℕ)
  inputs_of [] = []
  inputs_of (tx ∷ txs) = elim (formats.request tx) [
    | ok r ↦ if bytes_eq r.app app_name then r.body ∷ inputs_of txs else inputs_of txs
    | err e ↦ inputs_of txs
    | panic ↦ inputs_of txs
  ]

  run_commits-commit_all :
      (commits : List Commit) (app : App)
      → run_commits identity_apps formats app commits
        ≡ commit_all tree codec requests verify app commits
  unfolding run_commits commit_all
  run_commits-commit_all [] app = refl
  run_commits-commit_all (c ∷ commits) app =
      let rest = run_commits-commit_all commits (run_commit tree codec requests verify app c).0 in
      elim (Outcome-cases (run_commit tree codec requests verify app c).1) [
        | inl (u, e) ↦ ground (arith, rest)
        | inr (inl (x, e)) ↦ ground arith
        | inr (inr e) ↦ ground arith
      ]

  -- What one transaction does: nothing to the identities, or what the application does.
  data Handles (mux mux' : Multiplexer identity_apps formats) (tx : List ℕ) : Type 0 where
    passes :
        ((txs : List (List ℕ)) → inputs_of (tx ∷ txs) ≡ inputs_of txs)
        → mux'.world ≡ mux.world
        → mux'.commit_funcs ≡ mux.commit_funcs
        → Handles mux mux' tx
    runs :
        (q : MuxedRequest) (response : FinalizeBlockResponse Commit)
        → ((txs : List (List ℕ)) → inputs_of (tx ∷ txs) ≡ q.body ∷ inputs_of txs)
        → finalize_block tree codec requests verify mux.world q.body ≡ some (mux'.world, response)
        → mux'.commit_funcs ≡ add_commit identity_apps formats mux.commit_funcs response.commit_func
        → Handles mux mux' tx

  finalize_tx-Handles :
      (mux : Multiplexer identity_apps formats) (tx : List ℕ)
      (mux' : Multiplexer identity_apps formats) (r : TxResult)
      → finalize_tx identity_apps formats mux tx ≡ some (mux', r)
      → Handles mux mux' tx
  unfolding finalize_tx
  finalize_tx-Handles mux tx mux' r h = elim (Outcome-cases (formats.request tx)) [
    | inl (q, e) ↦ elim (Bool-cases (bytes_eq q.app app_name)) [
      | inl k ↦ elim (Option-cases (finalize_block tree codec requests verify mux.world q.body)) [
        | inl n ↦ absurd (ground arith)
        | inr ((world, response), f) ↦
            runs q response (λ txs. ground arith) (ground arith) (ground arith)
      ]
      | inr k ↦ passes (λ txs. ground arith) (ground arith) (ground arith)
    ]
    | inr (inl (x, e)) ↦ passes (λ txs. ground arith) (ground arith) (ground arith)
    | inr (inr e) ↦ absurd (ground arith)
  ]

  finalize_all_cons :
      (app app1 app2 : App) (input : List ℕ) (inputs : List (List ℕ))
      (response : FinalizeBlockResponse Commit) (commits : List Commit)
      → finalize_block tree codec requests verify app input ≡ some (app1, response)
      → finalize_all tree codec requests verify app1 inputs ≡ some (app2, commits)
      → finalize_all tree codec requests verify app (input ∷ inputs)
        ≡ some (app2, elim response.commit_func [ none ↦ commits | some c ↦ c ∷ commits ])
  unfolding finalize_all
  finalize_all_cons app app1 app2 input inputs response commits first rest =
      ground (arith, first, rest)

  add_commit-append :
      (before rest : List Commit) (c : Option Commit)
      → add_commit identity_apps formats before c ++ rest
        ≡ before ++ elim c [ none ↦ rest | some c ↦ c ∷ rest ]
  unfolding add_commit
  add_commit-append before rest none = refl
  add_commit-append before rest (some c) = append_assoc before (c ∷ []) rest

  finalize_txs-finalize_all :
      (txs : List (List ℕ)) (mux mux' : Multiplexer identity_apps formats) (results : List TxResult)
      → finalize_txs identity_apps formats mux txs ≡ some (mux', results)
      → (commits : List Commit) × (finalize_all tree codec requests verify mux.world (inputs_of txs)
          ≡ some (mux'.world, commits))
        × (mux'.commit_funcs ≡ mux.commit_funcs ++ commits)
  unfolding finalize_txs finalize_all
  finalize_txs-finalize_all [] mux mux' results h =
      let same : mux' ≡ mux = ground arith in
      (
        [],
        ground arith,
        ap (λ (m : Multiplexer identity_apps formats). m.commit_funcs) same
            ∙ sym (append-nil mux.commit_funcs),
      )
  finalize_txs-finalize_all (tx ∷ txs) mux mux' results h =
      elim (Option-cases (finalize_tx identity_apps formats mux tx)) [
        | inl e ↦ absurd (ground arith)
        | inr ((mux1, r), e) ↦ elim (Option-cases (finalize_txs identity_apps formats mux1 txs)) [
          | inl f ↦ absurd (ground arith)
          | inr ((mux2, rs), f) ↦
              let last : mux2 ≡ mux' = ground arith in
              let (commits, ran, kept) = finalize_txs-finalize_all txs mux1 mux2 rs f in
              let ended =
                ran
                ∙ ap (λ (m : Multiplexer identity_apps formats). some (m.world, commits)) last in
              let left =
                ap (λ (m : Multiplexer identity_apps formats). m.commit_funcs) (sym last) ∙ kept in
              elim (finalize_tx-Handles mux tx mux1 r e) [
                | passes skip still none_more ↦ (
                  commits,
                  ap₂ (finalize_all tree codec requests verify) (sym still) (skip txs) ∙ ended,
                  left ∙ ap (λ l. l ++ commits) none_more,
                )
                | runs q response takes did more ↦ (
                  elim response.commit_func [ none ↦ commits | some c ↦ c ∷ commits ],
                  ap (finalize_all tree codec requests verify mux.world) (takes txs)
                      ∙ finalize_all_cons mux.world mux1.world mux'.world q.body (inputs_of txs)
                          response commits did ended,
                  left
                      ∙ (ap (λ l. l ++ commits) more
                          ∙ add_commit-append mux.commit_funcs commits response.commit_func),
                )
              ]
        ]
      ]

  -- With the identity application as its only one, the multiplexer runs a block as that
  -- application runs the inputs that the transactions carry for it, one after the other from the
  -- same state and with the same commit functions, and Commit runs these as the application's own.
  pub multiplexed_block :
      (mux mux' : Multiplexer identity_apps formats) (height : ℕ) (txs : List (List ℕ))
      (results : List TxResult) (hash : List ℕ)
      → wineventchain.Chain.Multiplexer.App.finalize_block identity_apps formats mux height txs
        ≡ some (mux', results, hash)
      → (finalize_all tree codec requests verify mux.world (inputs_of txs)
          ≡ some (mux'.world, mux'.commit_funcs))
        × (run_commits identity_apps formats mux'.world mux'.commit_funcs
            ≡ commit_all tree codec requests verify mux'.world mux'.commit_funcs)
  unfolding wineventchain.Chain.Multiplexer.App.finalize_block
  multiplexed_block mux mux' height txs results hash h =
      let fresh : Multiplexer identity_apps formats = record mux { commit_funcs = [] } in
      (
        elim (Option-cases (finalize_txs identity_apps formats fresh txs)) [
          | inl e ↦ absurd (ground arith)
          | inr ((mux1, rs), e) ↦
              let (commits, ran, kept) = finalize_txs-finalize_all txs fresh mux1 rs e in
              let world : mux1.world ≡ mux'.world = ground arith in
              let left : mux1.commit_funcs ≡ mux'.commit_funcs = ground arith in
              ran ∙ ap₂ (λ w cs. some (w, cs)) world (sym kept ∙ left)
        ],
        run_commits-commit_all mux'.commit_funcs mux'.world,
      )
