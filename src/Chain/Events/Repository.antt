-- ===== src/Chain/Events/Repository.antt =====
-- wineventchain/pkg/events/merkle_repository.go: events in a Merkle tree, under their identifiers.
use wineventchain.Common.{ℕ, ◌≡◌, ◌≢◌, List, Option, none, some, Outcome, ok, err, ◌>>=◌, chain_ok}
use wineventchain.Chain.Response.{Failure, event_not_found, negative_size}
use wineventchain.Chain.Tree.{Tree, TreeLaws, VersionLaws}
use wineventchain.Chain.Proof.{ItemWithProof, ProofFormat, get_with_proof}
use wineventchain.Chain.Events.Types.{EventWithMetadata}

-- encoding/json on stored events. It reads back an event whose texts are valid UTF-8, and gives no
-- other.
pub record EventCodec : Type 0 where
  pub marshal : EventWithMetadata → Outcome Failure (List ℕ)
  pub unmarshal : List ℕ → Outcome Failure EventWithMetadata

pub record EventCodecLaw (codec : EventCodec) : Type 1 where
  pub IsUtf8 : EventWithMetadata → Type 0
  pub unmarshal-marshal :
      (e : EventWithMetadata) (bs : List ℕ)
      → IsUtf8 e
      → codec.marshal e ≡ ok bs
      → codec.unmarshal bs ≡ ok e
  pub utf8_unmarshal : (bs : List ℕ) (e : EventWithMetadata) → codec.unmarshal bs ≡ ok e → IsUtf8 e

module _ (tree : Tree) (codec : EventCodec) where
  unfoldable pub decode_event : Option (List ℕ) → Outcome Failure EventWithMetadata
  decode_event none = err event_not_found
  decode_event (some bytes) = codec.unmarshal bytes

  unfoldable pub get_by_event_id : tree.State → List ℕ → Outcome Failure EventWithMetadata
  unfolding decode_event
  get_by_event_id t id = do bytes ← tree.get t id; decode_event bytes

  unfoldable pub get_event_with_proof :
      ProofFormat → tree.State → List ℕ → Outcome Failure (ItemWithProof EventWithMetadata)
  unfolding get_with_proof
  get_event_with_proof json t id = get_with_proof tree json codec.unmarshal t id

  unfoldable pub event_count : tree.State → Outcome Failure ℕ
  event_count t = elim (tree.size t) [ none ↦ err negative_size | some n ↦ ok n ]

  unfoldable pub store_event : tree.State → EventWithMetadata → Outcome Failure tree.State
  store_event t event = do
    marshalled ← codec.marshal event
    tree.set t event.metadata.event_id marshalled

module _ (tree : Tree) (codec : EventCodec) (laws : TreeLaws tree) where
  get_of_tree :
      (t t' : tree.State) (id : List ℕ)
      → tree.get t' id ≡ tree.get t id
      → get_by_event_id tree codec t' id ≡ get_by_event_id tree codec t id
  unfolding get_by_event_id
  get_of_tree t t' id e = rw e

  pub get_by_event_id-store_event :
      (law : EventCodecLaw codec) (t t' : tree.State) (event : EventWithMetadata)
      → law.IsUtf8 event
      → store_event tree codec t event ≡ ok t'
      → get_by_event_id tree codec t' event.metadata.event_id ≡ ok event
  unfolding store_event get_by_event_id
  get_by_event_id-store_event law t t' event u h =
      let (bytes, written, set) = chain_ok (codec.marshal event) _ h in
      rw (laws.get_set t t' event.metadata.event_id bytes set)
        (law.unmarshal-marshal event bytes u written)

  pub get_by_event_id-store_event_ne :
      (t t' : tree.State) (event : EventWithMetadata) (id : List ℕ)
      → store_event tree codec t event ≡ ok t'
      → event.metadata.event_id ≢ id
      → get_by_event_id tree codec t' id ≡ get_by_event_id tree codec t id
  unfolding store_event
  get_by_event_id-store_event_ne t t' event id h ne =
      let (bytes, written, set) = chain_ok (codec.marshal event) _ h in
      get_of_tree t t' id (laws.get_set_ne t t' event.metadata.event_id bytes id set ne)

  pub get_by_event_id-save :
      (t t' : tree.State) (h : List ℕ) (n : ℕ) (id : List ℕ)
      → tree.save_version t ≡ ok (t', h, n)
      → get_by_event_id tree codec t' id ≡ get_by_event_id tree codec t id
  get_by_event_id-save t t' h n id e = get_of_tree t t' id (laws.get_save t t' h n id e)

  pub get_by_event_id-load :
      (versions : VersionLaws tree) (t t' : tree.State) (n : ℕ) (id : List ℕ)
      → versions.Saved t n
      → tree.load_version t n ≡ ok t'
      → get_by_event_id tree codec t' id ≡ get_by_event_id tree codec t id
  get_by_event_id-load versions t t' n id s e =
      get_of_tree t t' id (versions.get_load t t' n id s e)
