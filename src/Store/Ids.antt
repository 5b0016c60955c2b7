-- ===== src/Store/Ids.antt =====
-- leveldbstore.go: the identifiers of the entries, sixteen bytes that count up from a counter in the
-- database.
use wineventchain.Common.{
  ℕ, zero, suc, ◌+◌, ◌-◌, ◌==◌, none, some, List, [], ◌∷◌, ◌++◌, Outcome, ok, ◌>>=◌, ◌>>◌, guard,
  if◌then◌else◌, length, take, get_elem?, set, replicate,
}
use wineventchain.Store.Codec.{StoreError, bad_counter_length}
use wineventchain.Store.LevelDb.{LevelDb, optional, with_transaction}

abbrev pub byte_at : List ℕ → ℕ → ℕ
byte_at bs i = elim (get_elem? bs i) [ none ↦ 0 | some b ↦ b ]

-- The loop of getNextKey before the index `n`: a 255 becomes 0 with all that follows it.
unfoldable pub next_key_from : List ℕ → ℕ → List ℕ
next_key_from key zero = replicate 16 0
next_key_from key (suc i) =
    let rest = next_key_from (take i key ++ replicate (16 - i) 0) i in
    if byte_at key i == 255 then rest else set key i (byte_at key i + 1)

-- getNextKey
unfoldable pub get_next_key : List ℕ → List ℕ
unfolding next_key_from
get_next_key key = next_key_from key 16

module _ (db : LevelDb) where
  unfoldable pub read_counter : db.State → List ℕ → Outcome StoreError (List ℕ)
  unfolding optional
  read_counter tx counter_key = do
    counter ← optional (db.get tx counter_key)
    elim counter [
      | none ↦ ok (replicate 16 0)
      | some bytes ↦ guard (length bytes == 16) bad_counter_length >> ok bytes
    ]

  -- withIncrementingId
  unfoldable pub with_incrementing_id :
      db.State
      → List ℕ
      → (db.State → List ℕ → Outcome StoreError db.State)
      → Outcome StoreError (db.State × List ℕ)
  unfolding read_counter with_transaction
  with_incrementing_id s counter_key f = with_transaction db s λ tx. do
    counter ← read_counter tx counter_key
    let id = get_next_key counter
    tx1 ← db.put tx counter_key id
    tx2 ← f tx1 id
    ok (tx2, id)

  -- The next `n` identifiers after `id`.
  unfoldable pub next_ids : ℕ → List ℕ → List (List ℕ)
  next_ids zero id = []
  next_ids (suc n) id = get_next_key id ∷ next_ids n (get_next_key id)

  unfoldable pub last_id : List ℕ → List (List ℕ) → List ℕ
  last_id id [] = id
  last_id id (next ∷ ids) = last_id next ids
