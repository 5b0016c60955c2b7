-- ===== src/Chain/Retention/History.antt =====
-- wineventchain/pkg/retentionpolicy/app.go over blocks: the policy is set once.
use wineventchain.Common.{
  ℕ, ◌≡◌, refl, ap, sym, ◌∙◌, ◌⊎◌, inl, inr, List, [], ◌∷◌, Option, none, some, Outcome, ok, err,
  panic, arith, Outcome-cases, Option-cases, subst,
}
use wineventchain.Chain.Response.{Failure}
use wineventchain.Common.{true}
use wineventchain.Chain.Tree.{Tree}
use wineventchain.Chain.Rpc.{SignedPayload, Verify, validate_signature}
use wineventchain.Chain.Identity.Repository.{IdentityData, IdentityCodec, role_admin, get}
use wineventchain.Policy.{StoredPolicy}
use wineventchain.Policy.Validation.{IsValidPolicy}
use wineventchain.Chain.Retention.App.{
  Db, DbLaws, Formats, FormatLaws, HasReadablePeriods, RetentionApp, finalize_block, run_commit,
  load_policy, new_retention_app, db_key,
}
use wineventchain.Chain.Retention.Checks.{refused, sets, finalize_block-Sets}

module _ (tree : Tree) (codec : IdentityCodec) (db : Db) (formats : Formats) (verify : Verify) where
  abbrev pub App : Type 0
  App = RetentionApp tree codec db formats verify

  -- The transactions of a block, with the commit functions that they leave; `none` is a panic.
  unfoldable pub finalize_all : ℕ → App → List (List ℕ) → Option (App × List StoredPolicy)
  finalize_all time app [] = some (app, [])
  finalize_all time app (input ∷ inputs) =
      elim (finalize_block tree codec db formats verify time app input) [
        | none ↦ none
        | some (app', r) ↦ elim (finalize_all time app' inputs) [
          | none ↦ none
          | some (app'', commits) ↦
              some (app'', elim r.commit_func [ none ↦ commits | some c ↦ c ∷ commits ])
        ]
      ]

  -- The commit functions in order, up to the first that fails.
  unfoldable pub commit_all : App → List StoredPolicy → App × Outcome Failure (Unit {0})
  commit_all app [] = (app, ok tt)
  commit_all app (c ∷ commits) =
      let (app', result) = run_commit tree codec db formats verify app c in
      elim result [ ok _ ↦ commit_all app' commits | err e ↦ (app', err e) | panic ↦ (app', panic) ]

  -- A block of a time and its transactions.
  unfoldable pub run_block : App → ℕ → List (List ℕ) → Option (App × Outcome Failure (Unit {0}))
  run_block app time inputs = elim (finalize_all time app inputs) [
    | none ↦ none
    | some (app', commits) ↦ some (commit_all app' commits)
  ]

  -- With a policy set, on the chain or earlier in the block, a transaction leaves nothing.
  set_stays :
      (time : ℕ) (app : App) (inputs : List (List ℕ)) (p : StoredPolicy)
      → (app.policy ≡ some p) ⊎ (app.tx_policy ≡ some p)
      → (t : App × List StoredPolicy) → finalize_all time app inputs ≡ some t
      → t ≡ (app, [])
  unfolding finalize_all
  set_stays time app [] p s t h = ground arith
  set_stays time app (input ∷ inputs) p s t h =
      elim (Option-cases (finalize_block tree codec db formats verify time app input)) [
        | inl e ↦ absurd (ground arith)
        | inr ((app1, r), e) ↦
            elim (finalize_block-Sets tree codec db formats verify time app input app1 r e) [
              | refused same left ↦ elim (Option-cases (finalize_all time app1 inputs)) [
                | inl f ↦ absurd (ground arith)
                | inr ((app2, cs), f) ↦
                    let s1 : (app1.policy ≡ some p) ⊎ (app1.tx_policy ≡ some p) =
                      subst (λ (a : App). (a.policy ≡ some p) ⊎ (a.tx_policy ≡ some p)) (sym same)
                        s in
                    let rest = set_stays time app1 inputs p s1 (app2, cs) f in ground arith
              ]
              | sets q payload requester parsed type given unset tx_unset known valid admin
                    ok_policy author at same left ↦
                  absurd (elim s [ inl x ↦ ground arith | inr x ↦ ground arith ])
            ]
      ]

  -- A transaction that asks for the policy, with the signature of its author.
  pub record IsRequest (input : List ℕ) (p : StoredPolicy) (signer : IdentityData) : Type 0 where
    pub payload : SignedPayload
    pub parsed : formats.payload input ≡ ok payload
    pub given : formats.set_policy payload.body ≡ ok p.policy
    pub author : p.author ≡ payload.principal
    pub signed : validate_signature verify payload signer.public_key ≡ ok true

  abbrev pub Asked : List (List ℕ) → StoredPolicy → IdentityData → Type 0
  Asked [] p signer = ⊥
  Asked (input ∷ inputs) p signer = IsRequest input p signer ⊎ Asked inputs p signer

  -- Why the policy of a block may be set.
  pub record IsProper (app : App) (time : ℕ) (inputs : List (List ℕ)) (p : StoredPolicy)
      : Type 0 where
    pub valid : IsValidPolicy p.policy
    pub applied_at : p.applied_at ≡ time
    pub signer : IdentityData
    pub known : get tree codec app.identities p.author ≡ ok signer
    pub admin : signer.role ≡ role_admin
    pub asked : Asked inputs p signer

  abbrev Left : ℕ → List (List ℕ) → App → App × List StoredPolicy → Type 0
  Left time inputs app t =
      (t ≡ (app, []))
      ⊎ ((p : StoredPolicy) × (t ≡ (record app { tx_policy = some p }, p ∷ []))
          × IsProper app time inputs p
          × (app.policy ≡ none))

  Left-later :
      (time : ℕ) (input : List ℕ) (inputs : List (List ℕ)) (app : App) (t : App × List StoredPolicy)
      → Left time inputs app t
      → Left time (input ∷ inputs) app t
  Left-later time input inputs app t (inl same) = inl same
  Left-later time input inputs app t (inr (p, same, proper, unset)) = inr (
    p,
    same,
    record {
      valid = proper.valid;
      applied_at = proper.applied_at;
      signer = proper.signer;
      known = proper.known;
      admin = proper.admin;
      asked = inr proper.asked;
    },
    unset,
  )

  finalize_all-Left :
      (time : ℕ) (app : App) (inputs : List (List ℕ)) (t : App × List StoredPolicy)
      → finalize_all time app inputs ≡ some t
      → Left time inputs app t
  unfolding finalize_all
  finalize_all-Left time app [] t h = inl (ground arith)
  finalize_all-Left time app (input ∷ inputs) t h =
      elim (Option-cases (finalize_block tree codec db formats verify time app input)) [
        | inl e ↦ absurd (ground arith)
        | inr ((app1, r), e) ↦ elim (Option-cases (finalize_all time app1 inputs)) [
          | inl f ↦ absurd (ground arith)
          | inr ((app2, cs), f) ↦
              elim (finalize_block-Sets tree codec db formats verify time app input app1 r e) [
                | refused same left ↦
                    let whole : t ≡ (app2, cs) = ground arith in
                    subst (Left time (input ∷ inputs) app) (sym whole) (
                      Left-later time input inputs app (app2, cs)
                        (subst (λ (a : App). Left time inputs a (app2, cs)) same
                          (finalize_all-Left time app1 inputs (app2, cs) f)))
                | sets p payload requester parsed type given unset tx_unset known valid admin
                      ok_policy author at same left ↦
                    let rest : ◌≡◌ {A = App × List StoredPolicy} (app2, cs) (app1, []) =
                      set_stays time app1 inputs p (inr (ap (λ (a : App). a.tx_policy) same))
                        (app2, cs) f in
                    inr (
                      p,
                      ground arith,
                      record {
                        valid = ok_policy;
                        applied_at = at;
                        signer = requester;
                        known = ap (get tree codec app.identities) author ∙ known;
                        admin = admin;
                        asked = inl (record {
                          payload = payload;
                          parsed = parsed;
                          given = given;
                          author = author;
                          signed = valid;
                        });
                      },
                      unset,
                    )
              ]
        ]
      ]

  -- Once a policy is set, no block changes anything: whatever the transactions are, the state
  -- after the block is the one before it, and the commit succeeds.
  pub policy_is_final :
      (app : App) (p : StoredPolicy) (time : ℕ) (inputs : List (List ℕ))
      (t : App × Outcome Failure (Unit {0}))
      → app.policy ≡ some p
      → run_block app time inputs ≡ some t
      → t ≡ (app, ok tt)
  unfolding run_block commit_all
  policy_is_final app p time inputs t s h = elim (Option-cases (finalize_all time app inputs)) [
    | inl e ↦ absurd (ground arith)
    | inr (u, e) ↦ let left = set_stays time app inputs p (inl s) u e in ground arith
  ]

  -- What the run of the commit function of the policy does when it succeeds.
  run_commit-reload :
      DbLaws db
      → (law : FormatLaws formats) → (app app' : App) (p : StoredPolicy) → law.IsUtf8 p
      → HasReadablePeriods formats p
      → run_commit tree codec db formats verify app p ≡ (app', ok tt)
      → (app'.policy ≡ some p)
        × (app'.identities ≡ app.identities)
        × (new_retention_app tree codec db formats verify app'.identities app'.store ≡ ok app')
  unfolding run_commit new_retention_app load_policy
  run_commit-reload laws law app app' p clean readable h =
      elim (Outcome-cases (formats.marshal p)) [
        | inl (bytes, m) ↦ elim (Outcome-cases (db.set app.store db_key bytes)) [
          | inl (store, w) ↦
              let written = laws.get_set app.store store db_key bytes w in
              let read = law.unmarshal-marshal p bytes clean readable m in
              let app1 : App = record app { store = store; policy = some p; tx_policy = none } in
              let same : app1 ≡ app' = ground arith in
              let reload : new_retention_app tree codec db formats verify app.identities store
                  ≡ ok app1 =
                ground arith in
              subst
                (λ (a : App).
                  (a.policy ≡ some p)
                  × (a.identities ≡ app.identities)
                  × (new_retention_app tree codec db formats verify a.identities a.store ≡ ok a))
                same (refl, refl, reload)
          | inr (inl (x, w)) ↦ absurd (ground arith)
          | inr (inr w) ↦ absurd (ground arith)
        ]
        | inr (inl (x, m)) ↦ absurd (ground arith)
        | inr (inr m) ↦ absurd (ground arith)
      ]

  run_commit-policy :
      (app app' : App) (p : StoredPolicy)
      → run_commit tree codec db formats verify app p ≡ (app', ok tt)
      → app'.policy ≡ some p
  unfolding run_commit
  run_commit-policy app app' p h = elim (Outcome-cases (formats.marshal p)) [
    | inl (bytes, m) ↦ elim (Outcome-cases (db.set app.store db_key bytes)) [
      | inl (store, w) ↦ ground arith
      | inr (inl (x, w)) ↦ absurd (ground arith)
      | inr (inr w) ↦ absurd (ground arith)
    ]
    | inr (inl (x, m)) ↦ absurd (ground arith)
    | inr (inr m) ↦ absurd (ground arith)
  ]

  commit_one :
      (app : App) (p : StoredPolicy) (t : App × Outcome Failure (Unit {0}))
      → commit_all app (p ∷ []) ≡ t
      → run_commit tree codec db formats verify app p ≡ t
  unfolding commit_all
  commit_one app p t h = elim (Outcome-cases (run_commit tree codec db formats verify app p).1) [
    | inl (u, e) ↦ ground arith
    | inr (inl (x, e)) ↦ ground arith
    | inr (inr e) ↦ ground arith
  ]

  -- A block that a chain without a policy commits without an error either leaves it as it was, or
  -- sets a valid policy, which one of its transactions asks for with the signature of an
  -- administrator, with the time of the block; and the application
  -- that is started anew on the database has the state of the one that goes on, where the texts of
  -- the policy are valid UTF-8 and its periods are read back from their JSON.
  pub first_policy :
      DbLaws db
      → (law : FormatLaws formats) → (app app' : App) (time : ℕ) (inputs : List (List ℕ))
      → run_block app time inputs ≡ some (app', ok tt)
      → ((p : StoredPolicy) → app'.policy ≡ some p → law.IsUtf8 p × HasReadablePeriods formats p)
      → (app' ≡ app)
        ⊎ ((p : StoredPolicy) × IsProper app time inputs p
            × (app'.policy ≡ some p)
            × (new_retention_app tree codec db formats verify app'.identities app'.store ≡ ok app'))
  unfolding run_block commit_all
  first_policy laws law app app' time inputs h clean =
      elim (Option-cases (finalize_all time app inputs)) [
        | inl e ↦ absurd (ground arith)
        | inr (t, e) ↦ elim (finalize_all-Left time app inputs t e) [
          | inl same ↦ inl (ground arith)
          | inr (p, same, proper, unset) ↦
              let pending : App = record app { tx_policy = some p } in
              let done : run_commit tree codec db formats verify pending p ≡ (app', ok tt) =
                commit_one pending p (app', ok tt) (ground arith) in
              let (utf8, readable) = clean p (run_commit-policy pending app' p done) in
              let (set, kept, reload) =
                run_commit-reload laws law pending app' p utf8 readable done in
              inr (p, proper, set, reload)
        ]
      ]
