-- ===== src/Chain/Tree.antt =====
-- The IAVL tree of github.com/cosmos/iavl, which the repositories of the applications stand on: a
-- parameter, with the documented behaviour that they rely on.
pub mod Assoc
use wineventchain.Common.{
  ℕ, ◌≡◌, ◌≢◌, Bool, true, false, List, Option, none, some, Outcome, ok, err, panic,
}
use wineventchain.Chain.Response.{Failure}

-- `get` returns nil (`none`) at a key that is not there; `save_version` returns the hash and the
-- number of the new version, `load` the number of the latest one. A size of `none` is negative.
pub record Tree : Type 1 where
  pub State : Type 0
  pub get : State → List ℕ → Outcome Failure (Option (List ℕ))
  pub has : State → List ℕ → Outcome Failure Bool
  pub set : State → List ℕ → List ℕ → Outcome Failure State
  pub get_with_index : State → List ℕ → Outcome Failure (ℕ × Option (List ℕ))
  pub get_proof : State → List ℕ → Outcome Failure (List ℕ)
  pub size : State → Option ℕ
  pub hash : State → Outcome Failure (List ℕ)
  pub save_version : State → Outcome Failure (State × List ℕ × ℕ)
  pub load_version : State → ℕ → Outcome Failure State
  pub load : State → Outcome Failure (State × ℕ)
  pub version : State → ℕ
  pub version_exists : State → ℕ → Bool

abbrev pub presence : Outcome Failure (Option (List ℕ)) → Outcome Failure Bool
presence (ok none) = ok false
presence (ok (some v)) = ok true
presence (err e) = err e
presence panic = panic

-- A tree maps keys to values, `set` changes one key, and saving a version changes none.
pub record TreeLaws (tree : Tree) : Type 0 where
  pub has_get : (t : tree.State) (k : List ℕ) → tree.has t k ≡ presence (tree.get t k)
  pub get_set :
      (t t' : tree.State) (k v : List ℕ) → tree.set t k v ≡ ok t' → tree.get t' k ≡ ok (some v)
  pub get_set_ne :
      (t t' : tree.State) (k v j : List ℕ)
      → tree.set t k v ≡ ok t'
      → k ≢ j
      → tree.get t' j ≡ tree.get t j
  pub get_save :
      (t t' : tree.State) (h : List ℕ) (n : ℕ) (j : List ℕ)
      → tree.save_version t ≡ ok (t', h, n)
      → tree.get t' j ≡ tree.get t j
  pub get_index :
      (t : tree.State) (k : List ℕ) (i : ℕ) (v : Option (List ℕ))
      → tree.get_with_index t k ≡ ok (i, v)
      → tree.get t k ≡ ok v

-- `Saved t n` says that the working tree is the saved version `n`: so it is after a version was
-- saved or loaded, and to load the version of the working tree changes no value.
pub record VersionLaws (tree : Tree) : Type 1 where
  pub Saved : tree.State → ℕ → Type 0
  pub saved :
      (t t' : tree.State) (h : List ℕ) (n : ℕ) → tree.save_version t ≡ ok (t', h, n) → Saved t' n
  pub loaded : (t t' : tree.State) (n : ℕ) → tree.load_version t n ≡ ok t' → Saved t' n
  pub get_load :
      (t t' : tree.State) (n : ℕ) (j : List ℕ)
      → Saved t n
      → tree.load_version t n ≡ ok t'
      → tree.get t' j ≡ tree.get t j
