-- ===== src/Harmoniser/LevelStore.antt =====
-- harmoniser.go on leveldbstore.go: the store of the node is the interface that the listener uses,
-- where the database takes what is written.
pub mod Ranges
use wineventchain.Common.{
  ℕ, zero, suc, ◌+◌, ◌^◌, ◌<◌, ◌≤◌, ◌==◌, ◌≡◌, ◌≢◌, refl, ap, sym, ◌∙◌, ◌⊎◌, inl, inr, Bool, true,
  false, List, [], ◌∷◌, ◌++◌, Option, none, some, Outcome, ok, err, panic, ◌>>=◌, ◌>>◌, guard,
  assert, leb, length, take, drop, take_all, arith, subst, Outcome-cases, ok_injective, codes,
  drop-append,
}
use wineventchain.Store.Codec.{StoreError, BlockRange, int64_to_bytes, bytes_to_int}
use wineventchain.Store.Codec.RoundTrip.{int64_lem, length-int64_to_bytes}
use wineventchain.Store.LevelDb.{LevelDb, LevelDbLaws, optional, with_transaction}
use wineventchain.Store.Ids.{get_next_key, read_counter, with_incrementing_id}
use wineventchain.Store.Order.{less, less_irreflexive, not_beyond, not_later, Room, Room-fewer}
use wineventchain.Store.Blocks.{
  key_last_seen_block_height, key_missing_blocks_id_counter, key_prefix_missing_blocks,
  encode_range, last_seen_block_height, set_last_seen_block_height, add_missing_blocks,
}
use wineventchain.Harmoniser.Listener.{BlockStore}
use wineventchain.Harmoniser.Coverage.{BlockStoreLaws}

-- The database takes what is written: no input or output fails.
pub record LevelDbWorks (db : LevelDb) : Type 0 where
  pub put_works : (s : db.State) (k v : List ℕ) → (s' : db.State) × (db.put s k v ≡ ok s')
  pub open_works : (s : db.State) → (t : db.State) × (db.open_transaction s ≡ ok t)
  pub commit_works : (s t : db.State) → (s' : db.State) × (db.commit s t ≡ ok s')

module _ (db : LevelDb) (laws : LevelDbLaws db) (works : LevelDbWorks db) where
  -- AddMissingBlocks without the identifier that it answers with.
  unfoldable pub add_range : db.State → ℕ → ℕ → Outcome StoreError db.State
  add_range s l h = elim (add_missing_blocks db s (record { low = l; high = h })) [
    | ok (s', id) ↦ ok s'
    | err e ↦ err e
    | panic ↦ panic
  ]

  abbrev pub level_store : BlockStore
  level_store = record {
    State = db.State;
    Error = StoreError;
    last_seen = last_seen_block_height db;
    set_last_seen = set_last_seen_block_height db;
    add_missing = add_range;
  }

  abbrev pub range_key : List ℕ → List ℕ
  range_key id = key_prefix_missing_blocks ++ id

  -- What the calls read besides the ranges.
  pub record Ready (s : db.State) (n : ℕ) : Type 0 where
    pub counter : List ℕ
    pub counted : read_counter db s key_missing_blocks_id_counter ≡ ok counter
    pub room : Room counter n
    pub seen : Option ℕ
    pub read : last_seen_block_height db s ≡ ok seen

  -- A range with the block, under an identifier that was given out.
  pub record Missing (s : db.State) (b : ℕ) : Type 0 where
    pub counter : List ℕ
    pub counted : read_counter db s key_missing_blocks_id_counter ≡ ok counter
    pub id : List ℕ
    pub given : less counter id ≡ false
    pub block_range : BlockRange
    pub stored : db.get s (range_key id) ≡ ok (encode_range block_range)
    pub from : block_range.low ≤ b
    pub below : b < block_range.high

  abbrev pub last_of : Outcome StoreError (Option ℕ) → Option ℕ
  last_of (ok seen) = seen
  last_of (err e) = none
  last_of panic = none

  pub same_counter :
      (s s' : db.State)
      → db.get s' key_missing_blocks_id_counter ≡ db.get s key_missing_blocks_id_counter
      → read_counter db s' key_missing_blocks_id_counter
        ≡ read_counter db s key_missing_blocks_id_counter
  unfolding read_counter
  same_counter s s' e = rw e refl

  pub same_last :
      (s s' : db.State)
      → db.get s' key_last_seen_block_height ≡ db.get s key_last_seen_block_height
      → last_seen_block_height db s' ≡ last_seen_block_height db s
  unfolding last_seen_block_height
  same_last s s' e = rw e refl

  pub last_not_counter : key_last_seen_block_height ≢ key_missing_blocks_id_counter
  last_not_counter h = ground arith

  pub last_not_range : (id : List ℕ) → key_last_seen_block_height ≢ range_key id
  last_not_range id h = ground arith

  pub counter_not_range : (id : List ℕ) → key_missing_blocks_id_counter ≢ range_key id
  counter_not_range id h = ground arith

  set_last :
      (s s' : db.State) (h : ℕ)
      → h < 2 ^ 63
      → db.put s key_last_seen_block_height (int64_to_bytes h) ≡ ok s'
      → last_seen_block_height db s' ≡ ok (some h)
  unfolding last_seen_block_height optional
  set_last s s' h small e =
      let there = laws.get_put s s' key_last_seen_block_height (int64_to_bytes h) e in
      let eight = length-int64_to_bytes h in
      let whole = take_all 8 (int64_to_bytes h) (omega (arith, eight)) in
      rw (there, eight, whole, int64_lem h (omega arith)) refl

  pub set_last_seen_block_height-Ready :
      (s : db.State) (n h : ℕ)
      → Ready s n
      → h < 2 ^ 63
      → (s' : db.State) × (set_last_seen_block_height db s h ≡ ok s')
        × Ready s' n
        × (last_of (last_seen_block_height db s') ≡ some h)
        × ((b : ℕ) → Missing s b → Missing s' b)
  unfolding set_last_seen_block_height
  set_last_seen_block_height-Ready s n h ready small =
      let (s', e) = works.put_works s key_last_seen_block_height (int64_to_bytes h) in
      let read = set_last s s' h small e in
      let kept = same_counter s s' (
        laws.get_put_ne s s' key_last_seen_block_height (int64_to_bytes h)
          key_missing_blocks_id_counter e last_not_counter) in
      (
        s',
        e,
        record {
          counter = ready.counter;
          counted = kept ∙ ready.counted;
          room = ready.room;
          seen = some h;
          read = read;
        },
        ap last_of read,
        λ b m. record {
          counter = m.counter;
          counted = kept ∙ m.counted;
          id = m.id;
          given = m.given;
          block_range = m.block_range;
          stored =
              laws.get_put_ne s s' key_last_seen_block_height (int64_to_bytes h) (range_key m.id) e
                (last_not_range m.id)
              ∙ m.stored;
          from = m.from;
          below = m.below;
        },
      )
