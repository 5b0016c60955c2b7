-- ===== src/Store/LevelDb.antt =====
-- github.com/syndtr/goleveldb, which leveldbstore.go stands on: a parameter, with the documented
-- behaviour that it relies on.
pub mod Assoc
use wineventchain.Common.{ℕ, ◌≡◌, ◌≢◌, List, Option, none, some, Outcome, ok, err, panic, ◌>>=◌}
use wineventchain.Store.Codec.{StoreError, not_found}

-- One change of a batch.
pub data Change : Type 0 where
  puts : (key bytes : List ℕ) → Change
  deletes : (key : List ℕ) → Change

-- `get` fails with `not_found` at a key that is not there. `entries` is what Next of an iterator
-- over a prefix goes over, and `entries_after` what it goes over after Seek. A transaction is a
-- state of its own, which `commit` makes that of the database.
pub record LevelDb : Type 1 where
  pub State : Type 0
  pub get : State → List ℕ → Outcome StoreError (List ℕ)
  pub put : State → List ℕ → List ℕ → Outcome StoreError State
  pub delete : State → List ℕ → Outcome StoreError State
  pub write : State → List Change → Outcome StoreError State
  pub entries : State → List ℕ → List (List ℕ × List ℕ)
  pub entries_after : State → List ℕ → List ℕ → List (List ℕ × List ℕ)
  pub open_transaction : State → Outcome StoreError State
  pub commit : State → State → Outcome StoreError State

pub record LevelDbLaws (db : LevelDb) : Type 0 where
  pub get_put : (s s' : db.State) (k v : List ℕ) → db.put s k v ≡ ok s' → db.get s' k ≡ ok v
  pub get_put_ne :
      (s s' : db.State) (k v j : List ℕ) → db.put s k v ≡ ok s' → k ≢ j → db.get s' j ≡ db.get s j
  pub get_delete :
      (s s' : db.State) (k : List ℕ) → db.delete s k ≡ ok s' → db.get s' k ≡ err not_found
  pub get_delete_ne :
      (s s' : db.State) (k j : List ℕ) → db.delete s k ≡ ok s' → k ≢ j → db.get s' j ≡ db.get s j
  pub get_open :
      (s t : db.State) (k : List ℕ) → db.open_transaction s ≡ ok t → db.get t k ≡ db.get s k
  pub get_commit :
      (s t s' : db.State) (k : List ℕ) → db.commit s t ≡ ok s' → db.get s' k ≡ db.get t k

-- errors.Is(err, leveldb.ErrNotFound)
unfoldable pub optional : {A : Type 0} → Outcome StoreError A → Outcome StoreError (Option A)
optional (ok a) = ok (some a)
optional (err not_found) = ok none
optional (err e) = err e
optional panic = panic

module _ (db : LevelDb) where
  -- withTransaction: a function that fails leaves the database as it was.
  unfoldable pub with_transaction :
      {A : Type 0}
      → db.State
      → (db.State → Outcome StoreError (db.State × A))
      → Outcome StoreError (db.State × A)
  with_transaction s f = do
    tx ← db.open_transaction s
    (tx', a) ← f tx
    s' ← db.commit s tx'
    ok (s', a)
