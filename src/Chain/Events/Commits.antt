-- ===== src/Chain/Events/Commits.antt =====
-- wineventchain/pkg/events/app.go at a commit: what the commit functions do to the tree.
use wineventchain.Common.{
  ℕ, ◌≡◌, ◌≢◌, refl, ap, sym, ◌∙◌, inl, inr, List, [], ◌∷◌, ok, contains, bytes_eq_refl, arith,
  Outcome-cases, subst, All,
}
use wineventchain.Chain.Tree.{Tree, TreeLaws, VersionLaws}
use wineventchain.Chain.Rpc.{Verify}
use wineventchain.Chain.Identity.Repository.{IdentityCodec}
use wineventchain.Chain.Events.Types.{EventWithMetadata}
use wineventchain.Chain.Events.Repository.{
  EventCodec, EventCodecLaw, get_by_event_id, store_event, get_by_event_id-store_event,
  get_by_event_id-store_event_ne, get_by_event_id-save,
}
use wineventchain.Chain.Events.App.{EventFormats, EventsApp, run_commit}
use wineventchain.Chain.Events.Blocks.{
  id_of, name_of, commit_all, Fresh, Elsewhere, Fresh-Elsewhere,
}

module _ (tree : Tree) (identity_codec : IdentityCodec) (codec : EventCodec)
    (formats : EventFormats) (verify : Verify) (laws : TreeLaws tree) (versions : VersionLaws tree)
    (law : EventCodecLaw codec) where
  abbrev App : Type 0
  App = EventsApp tree identity_codec codec formats verify

  -- The working tree is the saved version whose number the application keeps.
  abbrev pub IsSound : EventsApp tree identity_codec codec formats verify → Type 0
  IsSound app = versions.Saved app.repository app.version_number

  -- A commit function that succeeds stores its event, in valid UTF-8, and changes no other.
  pub record Committed (event : EventWithMetadata) (app app' : App) : Type 0 where
    pub stored :
        law.IsUtf8 event → get_by_event_id tree codec app'.repository (id_of event) ≡ ok event
    pub others :
        (id : List ℕ)
        → id_of event ≢ id
        → get_by_event_id tree codec app'.repository id
          ≡ get_by_event_id tree codec app.repository id
    pub sound : IsSound app'
    pub idle : app'.creating ≡ []

  run_commit-Committed :
      (event : EventWithMetadata) (app app' : App)
      → run_commit tree identity_codec codec formats verify app event ≡ (app', ok tt)
      → Committed event app app'
  unfolding run_commit
  run_commit-Committed event app app' h =
      elim (Outcome-cases (store_event tree codec app.repository event)) [
        | inl (t, e) ↦ elim (Outcome-cases (tree.save_version t)) [
          | inl ((saved, hash, n), f) ↦
              let same : record app { creating = []; repository = saved; version_number = n }
                  ≡ app' =
                ground arith in
              subst (Committed event app) same (record {
                stored = λ u.
                    get_by_event_id-save tree codec laws t saved hash n (id_of event) f
                    ∙ get_by_event_id-store_event tree codec laws law app.repository t event u e;
                others = λ id ne.
                    get_by_event_id-save tree codec laws t saved hash n id f
                    ∙ get_by_event_id-store_event_ne tree codec laws app.repository t event id e ne;
                sound = versions.saved t saved hash n f;
                idle = refl;
              })
          | inr (inl (x, f)) ↦ absurd (ground arith)
          | inr (inr f) ↦ absurd (ground arith)
        ]
        | inr (inl (x, e)) ↦ absurd (ground arith)
        | inr (inr e) ↦ absurd (ground arith)
      ]

  commit_all_cons :
      (event : EventWithMetadata) (es : List EventWithMetadata) (app app' : App)
      → commit_all tree identity_codec codec formats verify app (event ∷ es) ≡ (app', ok tt)
      → (app1 : App) × Committed event app app1
        × (commit_all tree identity_codec codec formats verify app1 es ≡ (app', ok tt))
  unfolding commit_all
  commit_all_cons event es app app' h =
      let app1 = (run_commit tree identity_codec codec formats verify app event).0 in
      elim (Outcome-cases (run_commit tree identity_codec codec formats verify app event).1) [
        | inl (tt, e) ↦
            (app1, run_commit-Committed event app app1 (ap (λ o. (app1, o)) e), ground arith)
        | inr (inl (x, e)) ↦ absurd (ground arith)
        | inr (inr e) ↦ absurd (ground arith)
      ]

  pub commit_all-Elsewhere :
      (es : List EventWithMetadata) (app app' : App) (id : List ℕ)
      → commit_all tree identity_codec codec formats verify app es ≡ (app', ok tt)
      → Elsewhere id es
      → get_by_event_id tree codec app'.repository id ≡ get_by_event_id tree codec app.repository id
  unfolding commit_all
  commit_all-Elsewhere [] app app' id h n =
      ap (λ t. get_by_event_id tree codec t.0.repository id) (sym h)
  commit_all-Elsewhere (e ∷ es) app app' id h n =
      let (app1, done, rest) = commit_all_cons e es app app' h in
      commit_all-Elsewhere es app1 app' id rest n.1 ∙ done.others id n.0

  pub commit_all_stores :
      (es : List EventWithMetadata) (seen : List (List ℕ)) (app app' : App)
      → commit_all tree identity_codec codec formats verify app es ≡ (app', ok tt)
      → Fresh seen es
      → All law.IsUtf8 es
      → All (λ e. get_by_event_id tree codec app'.repository (id_of e) ≡ ok e) es
  unfolding contains
  commit_all_stores [] seen app app' h f u = tt
  commit_all_stores (e ∷ es) seen app app' h f u =
      let (app1, done, rest) = commit_all_cons e es app app' h in
      (
        commit_all-Elsewhere es app1 app' (id_of e) rest (
              Fresh-Elsewhere es e (name_of e ∷ seen) (ground (arith, bytes_eq_refl (name_of e)))
                f.1)
            ∙ done.stored u.0,
        commit_all_stores es (name_of e ∷ seen) app1 app' rest f.1 u.1,
      )

  pub commit_all-IsSound :
      (es : List EventWithMetadata) (app app' : App)
      → commit_all tree identity_codec codec formats verify app es ≡ (app', ok tt)
      → IsSound app
      → IsSound app'
  unfolding commit_all
  commit_all-IsSound [] app app' h s = subst IsSound (ap (λ t. t.0) h) s
  commit_all-IsSound (e ∷ es) app app' h s =
      let (app1, done, rest) = commit_all_cons e es app app' h in
      commit_all-IsSound es app1 app' rest done.sound
