-- ===== src/Store/Blocks.antt =====
-- leveldbstore.go: the height of the last block, and the ranges of blocks that are missing.
use wineventchain.Common.{
  ℕ, ◌==◌, List, [], ◌∷◌, ◌++◌, Option, none, some, Outcome, ok, ◌>>=◌, ◌>>◌, guard, assert, leb,
  length, take, drop, codes,
}
use wineventchain.Store.Codec.{
  StoreError, BlockRange, BlockRangeWithId, bad_key_length, invalid_length, int64_to_bytes,
  bytes_to_int,
}
use wineventchain.Store.LevelDb.{LevelDb, optional}
use wineventchain.Store.Ids.{with_incrementing_id}

abbrev pub key_last_seen_block_height : List ℕ
key_last_seen_block_height = codes "last_seen_block_height"

abbrev pub key_missing_blocks_id_counter : List ℕ
key_missing_blocks_id_counter = codes "id_counter_missing_blocks"

abbrev pub key_prefix_missing_blocks : List ℕ
key_prefix_missing_blocks = codes "missing_blocks_"

unfoldable pub encode_range : BlockRange → List ℕ
encode_range r = int64_to_bytes r.low ++ int64_to_bytes r.high

module _ (db : LevelDb) where
  -- A value of less than eight bytes panics.
  unfoldable pub last_seen_block_height : db.State → Outcome StoreError (Option ℕ)
  unfolding optional
  last_seen_block_height s = do
    height ← optional (db.get s key_last_seen_block_height)
    elim height [
      | none ↦ ok none
      | some bytes ↦ assert (leb 8 (length bytes)) >> ok (some (bytes_to_int (take 8 bytes)))
    ]

  unfoldable pub set_last_seen_block_height : db.State → ℕ → Outcome StoreError db.State
  set_last_seen_block_height s height = db.put s key_last_seen_block_height (int64_to_bytes height)

  unfoldable pub decode_ranges : List (List ℕ × List ℕ) → Outcome StoreError (List BlockRangeWithId)
  decode_ranges [] = ok []
  decode_ranges ((k, v) ∷ entries) = do
    guard (length (drop (length key_prefix_missing_blocks) k) == 16) bad_key_length
    guard (length v == 16) invalid_length
    rest ← decode_ranges entries
    let block_range : BlockRange = record {
      low = bytes_to_int (take 8 v);
      high = bytes_to_int (drop 8 v);
    }
    ok (record { block_range = block_range; id = drop (length key_prefix_missing_blocks) k } ∷ rest)

  unfoldable pub missing_blocks : db.State → Outcome StoreError (List BlockRangeWithId)
  missing_blocks s = decode_ranges (db.entries s key_prefix_missing_blocks)

  unfoldable pub add_missing_blocks : db.State → BlockRange → Outcome StoreError (db.State × List ℕ)
  unfolding encode_range
  add_missing_blocks s r =
      with_incrementing_id db s key_missing_blocks_id_counter
        (λ tx id. db.put tx (key_prefix_missing_blocks ++ id) (encode_range r))

  unfoldable pub update_missing_block_range :
      db.State → BlockRangeWithId → Outcome StoreError db.State
  unfolding encode_range
  update_missing_block_range s r =
      db.put s (key_prefix_missing_blocks ++ r.id) (encode_range r.block_range)

  unfoldable pub remove_missing_block_range : db.State → List ℕ → Outcome StoreError db.State
  remove_missing_block_range s id = db.delete s (key_prefix_missing_blocks ++ id)
