-- ===== src/Chain/Events/Blocks.antt =====
-- wineventchain/pkg/events/app.go over a whole block: the transactions, then the commit.
use wineventchain.Common.{
  ℕ, ◌≡◌, ◌≢◌, ap, true, false, List, [], ◌∷◌, ◌++◌, Option, none, some, Outcome, ok, err, panic,
  contains, contains-append, seen_cons, hex_encode, arith, All,
}
use wineventchain.Chain.Response.{Failure}
use wineventchain.Chain.Tree.{Tree}
use wineventchain.Chain.Rpc.{Verify}
use wineventchain.Chain.Identity.Repository.{IdentityCodec}
use wineventchain.Chain.Events.Types.{EventWithMetadata}
use wineventchain.Chain.Events.Repository.{EventCodec}
use wineventchain.Chain.Events.App.{EventFormats, EventsApp, finalize_block, run_commit}

abbrev pub id_of : EventWithMetadata → List ℕ
id_of event = event.metadata.event_id

abbrev pub name_of : EventWithMetadata → List ℕ
name_of event = hex_encode event.metadata.event_id

-- Events of a block whose names differ, and are not in `seen`.
abbrev pub Fresh : List (List ℕ) → List EventWithMetadata → Type 0
Fresh seen [] = Unit {0}
Fresh seen (e ∷ es) = (contains seen (name_of e) ≡ false) × Fresh (name_of e ∷ seen) es

pub Fresh-mono :
    (es : List EventWithMetadata) (seen seen' : List (List ℕ))
    → ((q : List ℕ) → contains seen' q ≡ false → contains seen q ≡ false)
    → Fresh seen' es
    → Fresh seen es
unfolding contains
Fresh-mono [] seen seen' h p = tt
Fresh-mono (e ∷ es) seen seen' h p = (
  h (name_of e) p.0,
  Fresh-mono es (name_of e ∷ seen) (name_of e ∷ seen') (λ q k. ground (arith, h q)) p.1,
)

pub Fresh-added :
    (es : List EventWithMetadata) (e : EventWithMetadata) (seen : List (List ℕ))
    → contains seen (name_of e) ≡ false
    → Fresh (seen ++ (name_of e ∷ [])) es
    → Fresh seen (e ∷ es)
Fresh-added es e seen new f = (
  new,
  Fresh-mono es (name_of e ∷ seen) (seen ++ (name_of e ∷ []))
      (λ q h.
        (let k = contains-append seen (name_of e) q h in seen_cons (name_of e) q seen k.1 k.0))
      f,
)

pub Fresh-noted :
    (es : List EventWithMetadata) (e : EventWithMetadata) (seen : List (List ℕ))
    → Fresh (seen ++ (name_of e ∷ [])) es
    → Fresh seen es
Fresh-noted es e seen f =
    Fresh-mono es seen (seen ++ (name_of e ∷ [])) (λ q h. (contains-append seen (name_of e) q h).0)
      f

-- The events of a block that are none of `id`.
abbrev pub Elsewhere : List ℕ → List EventWithMetadata → Type 0
Elsewhere id es = All (λ e. id_of e ≢ id) es

pub Fresh-Elsewhere :
    (es : List EventWithMetadata) (e : EventWithMetadata) (seen : List (List ℕ))
    → contains seen (name_of e) ≡ true
    → Fresh seen es
    → Elsewhere (id_of e) es
unfolding contains
Fresh-Elsewhere [] e seen h f = tt
Fresh-Elsewhere (d ∷ es) e seen h f = (
  λ same. ground (arith, f.0, ap (λ i. contains seen (hex_encode i)) same),
  Fresh-Elsewhere es e (name_of d ∷ seen) (ground arith) f.1,
)

module _ (tree : Tree) (identity_codec : IdentityCodec) (codec : EventCodec)
    (formats : EventFormats) (verify : Verify) where
  abbrev App : Type 0
  App = EventsApp tree identity_codec codec formats verify

  -- The transactions of a block, with the events that they leave for the commit; `none` is a panic.
  unfoldable pub finalize_all :
      ℕ
      → ℕ
      → EventsApp tree identity_codec codec formats verify
      → List (List ℕ)
      → Option (EventsApp tree identity_codec codec formats verify × List EventWithMetadata)
  finalize_all height time app [] = some (app, [])
  finalize_all height time app (input ∷ inputs) =
      elim (finalize_block tree identity_codec codec formats verify height time app input) [
        | none ↦ none
        | some (app', r) ↦ elim (finalize_all height time app' inputs) [
          | none ↦ none
          | some (app'', events) ↦
              some (app'', elim r.commit_func [ none ↦ events | some e ↦ e ∷ events ])
        ]
      ]

  -- Commit: the commit functions in order, up to the first that fails.
  unfoldable pub commit_all :
      EventsApp tree identity_codec codec formats verify
      → List EventWithMetadata
      → EventsApp tree identity_codec codec formats verify × Outcome Failure (Unit {0})
  commit_all app [] = (app, ok tt)
  commit_all app (e ∷ events) =
      let (app', result) = run_commit tree identity_codec codec formats verify app e in
      elim result [ ok _ ↦ commit_all app' events | err e ↦ (app', err e) | panic ↦ (app', panic) ]
