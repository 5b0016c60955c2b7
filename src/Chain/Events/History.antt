-- ===== src/Chain/Events/History.antt =====
-- wineventchain/pkg/events/app.go over a whole block: each event that it takes in is stored.
use wineventchain.Common.{
  ℕ, ◌≡◌, ◌⊎◌, refl, sym, ◌∙◌, inl, inr, List, [], ◌∷◌, ◌++◌, Option, none, some, ok, arith,
  Option-cases, some-injective, subst, All,
}
use wineventchain.Chain.Tree.{Tree, TreeLaws, VersionLaws}
use wineventchain.Chain.Rpc.{Verify}
use wineventchain.Chain.Identity.Repository.{IdentityCodec}
use wineventchain.Chain.Events.Types.{EventWithMetadata}
use wineventchain.Chain.Events.Repository.{
  EventCodec, EventCodecLaw, get_by_event_id, get_by_event_id-load,
}
use wineventchain.Chain.Events.App.{EventFormats, EventsApp, finalize_block}
use wineventchain.Chain.Events.Checks.{
  IsAuthentic, Creates, refused, creates, Resets, unloaded, loaded, finalize_block-Creates,
}
use wineventchain.Chain.Events.Blocks.{
  id_of, name_of, finalize_all, commit_all, Fresh, Fresh-added, Fresh-noted, Elsewhere,
}
use wineventchain.Chain.Events.Commits.{
  IsSound, commit_all-Elsewhere, commit_all_stores, commit_all-IsSound,
}

module _ (tree : Tree) (identity_codec : IdentityCodec) (codec : EventCodec)
    (formats : EventFormats) (verify : Verify) (laws : TreeLaws tree) (versions : VersionLaws tree)
    (law : EventCodecLaw codec) where
  abbrev App : Type 0
  App = EventsApp tree identity_codec codec formats verify

  -- `app'` holds the same events as `app`, and the same identities.
  pub record Keeps (app app' : App) : Type 0 where
    pub sound :
        IsSound tree identity_codec codec formats verify laws versions law app
        → IsSound tree identity_codec codec formats verify laws versions law app'
    pub same :
        IsSound tree identity_codec codec formats verify laws versions law app
        → (id : List ℕ)
        → get_by_event_id tree codec app'.repository id
          ≡ get_by_event_id tree codec app.repository id
    pub identities : app'.identities ≡ app.identities

  Keeps-trans : (a b c : App) → Keeps a b → Keeps b c → Keeps a c
  Keeps-trans a b c k l = record {
    sound = λ s. l.sound (k.sound s);
    same = λ s id. l.same (k.sound s) id ∙ k.same s id;
    identities = l.identities ∙ k.identities;
  }

  Resets-Keeps :
      (a b : App)
      → Resets tree identity_codec codec formats verify a b
      → Keeps a b × (b.creating ≡ a.creating)
  Resets-Keeps a b (unloaded e) =
      subst (λ (x : App). Keeps a x × (x.creating ≡ a.creating)) (sym e)
        (record { sound = λ s. s; same = λ s id. refl; identities = refl }, refl)
  Resets-Keeps a b (loaded t l e) =
      subst (λ (x : App). Keeps a x × (x.creating ≡ a.creating)) (sym e)
        (
          record {
            sound = λ s. versions.loaded a.repository t a.version_number l;
            same = λ s id.
                get_by_event_id-load tree codec laws versions a.repository t a.version_number id s
                  l;
            identities = refl;
          },
          refl,
        )

  -- One of the inputs is the signed request for the event.
  abbrev pub Asked : ℕ → ℕ → tree.State → List (List ℕ) → EventWithMetadata → Type 0
  Asked height time identities [] e = ⊥
  Asked height time identities (input ∷ inputs) e =
      IsAuthentic tree identity_codec codec formats verify height time identities input e
      ⊎ Asked height time identities inputs e

  later :
      (height time : ℕ) (identities : tree.State) (input : List ℕ) (inputs : List (List ℕ))
      (es : List EventWithMetadata)
      → All (Asked height time identities inputs) es
      → All (Asked height time identities (input ∷ inputs)) es
  later height time identities input inputs [] h = tt
  later height time identities input inputs (e ∷ es) h =
      (inr h.0, later height time identities input inputs es h.1)

  -- What the transactions of a block leave.
  pub record Collected (height time : ℕ) (inputs : List (List ℕ)) (app app' : App)
      (es : List EventWithMetadata) : Type 0 where
    pub keeps : Keeps app app'
    pub fresh : Fresh app.creating es
    pub authentic : All (Asked height time app.identities inputs) es

  abbrev add_event : Option EventWithMetadata → List EventWithMetadata → List EventWithMetadata
  add_event none es = es
  add_event (some e) es = e ∷ es

  Noted-Collected :
      (height time : ℕ) (inputs : List (List ℕ)) (a c : App) (event : EventWithMetadata)
      (es : List EventWithMetadata)
      → Collected height time inputs
          (record a { creating = a.creating ++ (name_of event ∷ []) })
          c
          es
      → Keeps a c
        × Fresh (a.creating ++ (name_of event ∷ [])) es
        × All (Asked height time a.identities inputs) es
  Noted-Collected height time inputs a c event es rest = (
    record { sound = rest.keeps.sound; same = rest.keeps.same; identities = rest.keeps.identities },
    rest.fresh,
    rest.authentic,
  )

  -- One transaction, then the rest of the block.
  Creates-Collected :
      (height time : ℕ) (input : List ℕ) (inputs : List (List ℕ)) (a b c : App)
      (e : Option EventWithMetadata) (es : List EventWithMetadata)
      → Creates tree identity_codec codec formats verify height time input a b e
      → Collected height time inputs b c es
      → Collected height time (input ∷ inputs) a c (add_event e es)
  Creates-Collected height time input inputs a b c e es (refused same left) rest =
      let kept = subst (λ (x : App). Collected height time inputs x c es) same rest in
      subst (λ x. Collected height time (input ∷ inputs) a c (add_event x es)) (sym left)
        (record {
          keeps = kept.keeps;
          fresh = kept.fresh;
          authentic = later height time a.identities input inputs es kept.authentic;
        })
  Creates-Collected height time input inputs a b c e es (creates event authentic new same left)
        rest =
      let (keeps, fresh, others) =
        Noted-Collected height time inputs a c event es
          (subst (λ (x : App). Collected height time inputs x c es) same rest) in
      let others_asked = later height time a.identities input inputs es others in
      elim left [
        | inl f ↦
            subst (λ x. Collected height time (input ∷ inputs) a c (add_event x es)) (sym f)
              (record {
                keeps = keeps;
                fresh = Fresh-added es event a.creating new fresh;
                authentic = (inl authentic, others_asked);
              })
        | inr f ↦
            subst (λ x. Collected height time (input ∷ inputs) a c (add_event x es)) (sym f)
              (record {
                keeps = keeps;
                fresh = Fresh-noted es event a.creating fresh;
                authentic = others_asked;
              })
      ]

  Resets-Collected :
      (height time : ℕ) (inputs : List (List ℕ)) (a b c : App) (es : List EventWithMetadata)
      → Resets tree identity_codec codec formats verify a b
      → Collected height time inputs b c es
      → Collected height time inputs a c es
  Resets-Collected height time inputs a b c es reset rest =
      let (keeps, creating) = Resets-Keeps a b reset in
      record {
        keeps = Keeps-trans a b c keeps rest.keeps;
        fresh = subst (λ l. Fresh l es) creating rest.fresh;
        authentic =
            subst (λ i. All (Asked height time i inputs) es) keeps.identities rest.authentic;
      }

  finalize_all-Collected :
      (height time : ℕ) (inputs : List (List ℕ)) (app app' : App) (es : List EventWithMetadata)
      → finalize_all tree identity_codec codec formats verify height time app inputs
        ≡ some (app', es)
      → Collected height time inputs app app' es
  unfolding finalize_all
  finalize_all-Collected height time [] app app' es h =
      subst (λ (t : App × List EventWithMetadata). Collected height time [] app t.0 t.1)
        (some-injective _ (app', es) h)
        (record {
          keeps = record { sound = λ s. s; same = λ s id. refl; identities = refl };
          fresh = tt;
          authentic = tt;
        })
  finalize_all-Collected height time (input ∷ inputs) app app' es h =
      elim (Option-cases
        (finalize_block tree identity_codec codec formats verify height time app input)) [
          | inl e ↦ absurd (ground arith)
          | inr ((app1, r), e) ↦
              elim (Option-cases
                (finalize_all tree identity_codec codec formats verify height time app1 inputs)) [
                  | inl f ↦ absurd (ground arith)
                  | inr ((app2, rest), f) ↦
                      let (app0, reset, made) =
                        finalize_block-Creates tree identity_codec codec formats verify height time
                          app input app1 r e in
                      let collected =
                        Resets-Collected height time (input ∷ inputs) app app0 app2
                          (add_event r.commit_func rest) reset
                          (Creates-Collected height time input inputs app0 app1 app2 r.commit_func
                            rest made
                            (finalize_all-Collected height time inputs app1 app2 rest f)) in
                      let same : (app2, add_event r.commit_func rest) ≡ (app', es) = ground arith in
                      subst
                        (λ (t : App × List EventWithMetadata).
                          Collected height time (input ∷ inputs) app t.0 t.1)
                        same collected
                ]
        ]

  -- After a block whose commit functions all succeed and whose events are in valid UTF-8: every
  -- event that the block took in is found under its identifier, and is the event that the body of
  -- one of the transactions gives, a request of a known principal with a valid signature on it;
  -- every other identifier finds what it found before; and the working tree is the version that
  -- the application keeps, as it was before the block.
  pub stored_of_commit_all :
      (height time : ℕ) (inputs : List (List ℕ)) (app app' app'' : App)
      (es : List EventWithMetadata)
      → IsSound tree identity_codec codec formats verify laws versions law app
      → finalize_all tree identity_codec codec formats verify height time app inputs
        ≡ some (app', es)
      → commit_all tree identity_codec codec formats verify app' es ≡ (app'', ok tt)
      → All law.IsUtf8 es
      → All (λ e. get_by_event_id tree codec app''.repository (id_of e) ≡ ok e) es
        × All (Asked height time app.identities inputs) es
        × ((id : List ℕ)
            → Elsewhere id es
            → get_by_event_id tree codec app''.repository id
              ≡ get_by_event_id tree codec app.repository id)
        × IsSound tree identity_codec codec formats verify laws versions law app''
  stored_of_commit_all height time inputs app app' app'' es s h k u =
      let c = finalize_all-Collected height time inputs app app' es h in
      (
        commit_all_stores tree identity_codec codec formats verify laws versions law es app.creating
            app' app'' k c.fresh u,
        c.authentic,
        λ id n.
            commit_all-Elsewhere tree identity_codec codec formats verify laws versions law es app'
              app'' id k n
            ∙ c.keeps.same s id,
        commit_all-IsSound tree identity_codec codec formats verify laws versions law es app' app''
            k (c.keeps.sound s),
      )
