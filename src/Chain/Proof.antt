-- ===== src/Chain/Proof.antt =====
-- common/pkg/proof: Merkle proofs of the entries of a tree. The JSON of a proof is a parameter; the
-- error with which the tree refuses a proof of an empty tree is `nil_root`.
pub mod Lookup
use wineventchain.Common.{
  ℕ, ◌-◌, ◌≡◌, true, false, List, [], ◌∷◌, Option, none, some, Outcome, ok, err, panic, ◌>>=◌,
  codes, if◌then◌else◌,
}
use wineventchain.Chain.Response.{
  Failure, nil_root, tree_uninitialized, QueryResponse, ErrorResponse, into_query_response,
}
use wineventchain.Chain.Tree.{Tree}

pub record ProofOp : Type 0 where
  pub type : List ℕ
  pub key : List ℕ
  pub body : List ℕ

pub record ItemWithProof (A : Type 0) : Type 0 where
  pub item : Option A
  pub index : ℕ
  pub height : ℕ
  pub proof_op : ProofOp

-- abci.ResponseQuery with what proves its value; an error has neither.
pub record ItemResponse : Type 0 where
  pub response : QueryResponse
  pub index : ℕ
  pub key : List ℕ
  pub height : ℕ
  pub proof_op : Option ProofOp

unfoldable pub without_proof : ErrorResponse → ItemResponse
unfolding into_query_response
without_proof e = record {
  response = into_query_response e;
  index = 0;
  key = [];
  height = 0;
  proof_op = none;
}

-- The JSON of the hash of the tree with the proof of one key.
abbrev pub ProofFormat : Type 0
ProofFormat = List ℕ → List ℕ → Outcome Failure (List ℕ)

abbrev pub type_iavl : List ℕ
type_iavl = codes "ics23:iavl"

unfoldable pub proof_error : {A : Type 0} → Outcome Failure A → Outcome Failure A
proof_error (ok a) = ok a
proof_error (err nil_root) = err tree_uninitialized
proof_error (err e) = err e
proof_error panic = panic

module _ (tree : Tree) (json : ProofFormat) where
  -- GetProofHeight
  unfoldable pub get_proof_height : tree.State → ℕ
  get_proof_height t =
      if tree.version_exists t (tree.version t - 1) then tree.version t - 1 else tree.version t

  -- ProofOpForTree
  unfoldable pub proof_op_for_tree : tree.State → List ℕ → Outcome Failure ProofOp
  unfolding proof_error
  proof_op_for_tree t key = do
    hash ← tree.hash t
    proof ← proof_error (tree.get_proof t key)
    marshalled ← json hash proof
    let op : ProofOp = record { type = type_iavl; key = key; body = marshalled }
    ok op

  -- GetWithProof of both repositories, on the key of the tree: a key that is not there has a proof
  -- of its absence.
  unfoldable pub get_with_proof :
      {A : Type 0}
      → (List ℕ → Outcome Failure A)
      → tree.State
      → List ℕ
      → Outcome Failure (ItemWithProof A)
  get_with_proof {A} unmarshal t key = do
    (index, bytes) ← tree.get_with_index t key
    op ← proof_op_for_tree t key
    elim bytes [
      | none ↦
          ok (record { item = none; index = index; height = get_proof_height t; proof_op = op })
      | some entry ↦ unmarshal entry >>= λ a.
          ok (record { item = some a; index = index; height = get_proof_height t; proof_op = op })
    ]
