-- ===== src/Chain/Identity/Repository.antt =====
-- wineventchain/pkg/identity/merkle_repository.go: identities in a Merkle tree, under a prefix of
-- their principals, beside the mark that the application is seeded.
use wineventchain.Common.{
  ℕ, ◌≡◌, Bool, List, ◌++◌, Option, none, some, Outcome, ok, err, ◌>>=◌, codes,
}
use wineventchain.Chain.Response.{Failure, identity_not_found}
use wineventchain.Chain.Tree.{Tree}

-- common/pkg/types/identity/data.go and role.go
pub record IdentityData : Type 0 where
  pub public_key : List ℕ
  pub role : List ℕ

abbrev pub role_admin : List ℕ
role_admin = codes "admin"

abbrev pub role_user : List ℕ
role_user = codes "user"

-- encoding/json on identities, and what is assumed of it.
pub record IdentityCodec : Type 0 where
  pub marshal : IdentityData → Outcome Failure (List ℕ)
  pub unmarshal : List ℕ → Outcome Failure IdentityData

pub record IdentityCodecLaw (codec : IdentityCodec) : Type 0 where
  pub unmarshal-marshal :
      (d : IdentityData) (bs : List ℕ) → codec.marshal d ≡ ok bs → codec.unmarshal bs ≡ ok d

unfoldable pub principal_key : List ℕ → List ℕ
principal_key principal = codes "principal/" ++ principal

unfoldable pub seeded_key : List ℕ
seeded_key = codes "meta/" ++ codes "seeded"

module _ (tree : Tree) (codec : IdentityCodec) where
  -- `bytes == nil` is the key that is not there.
  unfoldable pub decode_entry : Option (List ℕ) → Outcome Failure IdentityData
  decode_entry none = err identity_not_found
  decode_entry (some bytes) = codec.unmarshal bytes

  unfoldable pub get : tree.State → List ℕ → Outcome Failure IdentityData
  unfolding decode_entry
  get t principal = do bytes ← tree.get t (principal_key principal); decode_entry bytes

  unfoldable pub has : tree.State → List ℕ → Outcome Failure Bool
  has t principal = tree.has t (principal_key principal)

  unfoldable pub store : tree.State → List ℕ → IdentityData → Outcome Failure tree.State
  store t principal entry = do
    marshalled ← codec.marshal entry
    tree.set t (principal_key principal) marshalled

  unfoldable pub is_seeded : tree.State → Outcome Failure Bool
  is_seeded t = tree.has t seeded_key

  unfoldable pub set_seeded : tree.State → Outcome Failure tree.State
  set_seeded t = tree.set t seeded_key (codes "true")
