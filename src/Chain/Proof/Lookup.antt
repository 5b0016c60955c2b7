-- ===== src/Chain/Proof/Lookup.antt =====
-- common/pkg/proof: what an item with a proof says of the tree.
use wineventchain.Common.{
  ℕ, ◌≡◌, refl, List, Option, none, some, Outcome, ok, ◌>>=◌, Outcome-cases, inl, inr, arith, err,
  panic, sym, subst,
}
use wineventchain.Chain.Response.{Failure, nil_root}
use wineventchain.Chain.Tree.{Tree, TreeLaws}
use wineventchain.Chain.Proof.{
  ProofOp, ItemWithProof, ProofFormat, type_iavl, proof_error, proof_op_for_tree, get_with_proof,
}

abbrev pub item_of :
    {A : Type 0} → (List ℕ → Outcome Failure A) → Option (List ℕ) → Outcome Failure (Option A)
item_of unmarshal none = ok none
item_of unmarshal (some bytes) = unmarshal bytes >>= λ a. ok (some a)

proof_error_ok : {A : Type 0} (o : Outcome Failure A) (a : A) → proof_error o ≡ ok a → o ≡ ok a
unfolding proof_error
proof_error_ok (ok b) a h = h
proof_error_ok (err nil_root) a h = absurd (ground arith)
proof_error_ok (err e) a h = absurd (ground arith)
proof_error_ok panic a h = absurd (ground arith)

module _ (tree : Tree) (json : ProofFormat) (laws : TreeLaws tree) where
  -- The proof is what the tree gives for the key, beside the hash of the tree.
  pub record Proves (t : tree.State) (key : List ℕ) (op : ProofOp) : Type 0 where
    pub type : op.type ≡ type_iavl
    pub key_of : op.key ≡ key
    pub hash : List ℕ
    pub hashed : tree.hash t ≡ ok hash
    pub proof : List ℕ
    pub proved : tree.get_proof t key ≡ ok proof
    pub written : json hash proof ≡ ok op.body

  -- The item is the value of the key in the tree, and the proof is one of the key.
  pub record IsLookup {A : Type 0} (unmarshal : List ℕ → Outcome Failure A) (t : tree.State)
      (key : List ℕ) (item : ItemWithProof A) : Type 0 where
    pub bytes : Option (List ℕ)
    pub there : tree.get t key ≡ ok bytes
    pub decoded : item_of unmarshal bytes ≡ ok item.item
    pub proves : Proves t key item.proof_op

  proof_op_for_tree-Proves :
      (t : tree.State) (key : List ℕ) (op : ProofOp)
      → proof_op_for_tree tree json t key ≡ ok op
      → Proves t key op
  unfolding proof_op_for_tree
  proof_op_for_tree-Proves t key op h = elim (Outcome-cases (tree.hash t)) [
    | inl (hash, e) ↦ elim (Outcome-cases (proof_error (tree.get_proof t key))) [
      | inl (proof, f) ↦ elim (Outcome-cases (json hash proof)) [
        | inl (marshalled, g) ↦ record {
          type = ground arith;
          key_of = ground arith;
          hash = hash;
          hashed = e;
          proof = proof;
          proved = proof_error_ok (tree.get_proof t key) proof f;
          written = ground arith;
        }
        | inr (inl (x, g)) ↦ absurd (ground arith)
        | inr (inr g) ↦ absurd (ground arith)
      ]
      | inr (inl (x, f)) ↦ absurd (ground arith)
      | inr (inr f) ↦ absurd (ground arith)
    ]
    | inr (inl (x, e)) ↦ absurd (ground arith)
    | inr (inr e) ↦ absurd (ground arith)
  ]

  lookup_of :
      {A : Type 0} (unmarshal : List ℕ → Outcome Failure A) (t : tree.State) (key : List ℕ)
      (item : ItemWithProof A) (index : ℕ) (bytes : Option (List ℕ)) (op : ProofOp)
      → tree.get_with_index t key ≡ ok (index, bytes)
      → proof_op_for_tree tree json t key ≡ ok op
      → get_with_proof tree json unmarshal t key ≡ ok item
      → (item_of unmarshal bytes ≡ ok item.item) × (item.proof_op ≡ op)
  unfolding get_with_proof
  lookup_of unmarshal t key item index none op found proved h = (ground arith, ground arith)
  lookup_of unmarshal t key item index (some bytes) op found proved h =
      elim (Outcome-cases (unmarshal bytes)) [
        | inl (a, e) ↦ (ground arith, ground arith)
        | inr (inl (x, e)) ↦ absurd (ground arith)
        | inr (inr e) ↦ absurd (ground arith)
      ]

  pub get_with_proof-IsLookup :
      {A : Type 0} (unmarshal : List ℕ → Outcome Failure A) (t : tree.State) (key : List ℕ)
      (item : ItemWithProof A)
      → get_with_proof tree json unmarshal t key ≡ ok item
      → IsLookup unmarshal t key item
  unfolding get_with_proof
  get_with_proof-IsLookup unmarshal t key item h =
      elim (Outcome-cases (tree.get_with_index t key)) [
        | inl ((index, bytes), found) ↦ elim (Outcome-cases (proof_op_for_tree tree json t key)) [
          | inl (op, proved) ↦
              let proves = proof_op_for_tree-Proves t key op proved in
              let (decoded, same) = lookup_of unmarshal t key item index bytes op found proved h in
              record {
                bytes = bytes;
                there = laws.get_index t key index bytes found;
                decoded = decoded;
                proves = subst (Proves t key) (sym same) proves;
              }
          | inr (inl (x, e)) ↦ absurd (ground arith)
          | inr (inr e) ↦ absurd (ground arith)
        ]
        | inr (inl (x, e)) ↦ absurd (ground arith)
        | inr (inr e) ↦ absurd (ground arith)
      ]

module _ {A : Type 0} (unmarshal : List ℕ → Outcome Failure A) where
  pub item_of-none : (bytes : Option (List ℕ)) → item_of unmarshal bytes ≡ ok none → bytes ≡ none
  item_of-none none h = refl
  item_of-none (some bytes) h = elim (Outcome-cases (unmarshal bytes)) [
    | inl (a, e) ↦ absurd (ground arith)
    | inr (inl (x, e)) ↦ absurd (ground arith)
    | inr (inr e) ↦ absurd (ground arith)
  ]

  pub item_of-some :
      (entry : Option (List ℕ)) (a : A)
      → item_of unmarshal entry ≡ ok (some a)
      → (bytes : List ℕ) × (entry ≡ some bytes) × (unmarshal bytes ≡ ok a)
  item_of-some none a h = absurd (ground arith)
  item_of-some (some bytes) a h = elim (Outcome-cases (unmarshal bytes)) [
    | inl (b, e) ↦ (bytes, refl, ground arith)
    | inr (inl (x, e)) ↦ absurd (ground arith)
    | inr (inr e) ↦ absurd (ground arith)
  ]
