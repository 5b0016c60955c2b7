-- ===== src/Chain/Identity/Laws.antt =====
-- wineventchain/pkg/identity/merkle_repository.go: the repository as a map of principals to
-- identities beside a mark, on a tree that behaves as documented.
use wineventchain.Common.{
  ℕ, ◌≡◌, ◌≢◌, ap, sym, ◌∙◌, inl, inr, true, false, List, Option, some, ok, arith, chain_ok,
  Option-cases, get_elem?,
}
use wineventchain.Chain.Tree.{Tree, TreeLaws, presence}
use wineventchain.Chain.Identity.Repository.{
  IdentityData, IdentityCodec, IdentityCodecLaw, principal_key, seeded_key, decode_entry, get, has,
  store, is_seeded, set_seeded,
}

principal_key-injective : (p q : List ℕ) → principal_key p ≡ principal_key q → p ≡ q
unfolding principal_key
principal_key-injective p q e = cc

principal_key-ne-seeded_key : (p : List ℕ) → principal_key p ≢ seeded_key
unfolding principal_key seeded_key
principal_key-ne-seeded_key p e =
    let first : ◌≡◌ {A = Option ℕ} (some b'p') (some b'm') = ap (λ (t : List ℕ). get_elem? t 0) e in
    ground arith

module _ (tree : Tree) (codec : IdentityCodec) (laws : TreeLaws tree)
    (law : IdentityCodecLaw codec) where
  get_of_tree :
      (t t' : tree.State) (p : List ℕ)
      → tree.get t' (principal_key p) ≡ tree.get t (principal_key p)
      → get tree codec t' p ≡ get tree codec t p
  unfolding get
  get_of_tree t t' p e = rw e

  is_seeded_of_tree :
      (t t' : tree.State)
      → tree.get t' seeded_key ≡ tree.get t seeded_key
      → is_seeded tree codec t' ≡ is_seeded tree codec t
  unfolding is_seeded
  is_seeded_of_tree t t' e =
      laws.has_get t' seeded_key ∙ ap presence e ∙ sym (laws.has_get t seeded_key)

  pub get-store :
      (t t' : tree.State) (p : List ℕ) (d : IdentityData)
      → store tree codec t p d ≡ ok t'
      → get tree codec t' p ≡ ok d
  unfolding store get
  get-store t t' p d h =
      let (bytes, written, set) = chain_ok (codec.marshal d) _ h in
      rw (laws.get_set t t' (principal_key p) bytes set) (law.unmarshal-marshal d bytes written)

  pub get-store_ne :
      (t t' : tree.State) (p q : List ℕ) (d : IdentityData)
      → store tree codec t p d ≡ ok t'
      → p ≢ q
      → get tree codec t' q ≡ get tree codec t q
  unfolding store
  get-store_ne t t' p q d h ne =
      let (bytes, written, set) = chain_ok (codec.marshal d) _ h in
      get_of_tree t t' q (
        laws.get_set_ne t t' (principal_key p) bytes (principal_key q) set
          (λ e. ne (principal_key-injective p q e)))

  pub is_seeded-store :
      (t t' : tree.State) (p : List ℕ) (d : IdentityData)
      → store tree codec t p d ≡ ok t'
      → is_seeded tree codec t' ≡ is_seeded tree codec t
  unfolding store
  is_seeded-store t t' p d h =
      let (bytes, written, set) = chain_ok (codec.marshal d) _ h in
      is_seeded_of_tree t t' (
        laws.get_set_ne t t' (principal_key p) bytes seeded_key set (principal_key-ne-seeded_key p))

  pub get-set_seeded :
      (t t' : tree.State) (p : List ℕ)
      → set_seeded tree codec t ≡ ok t'
      → get tree codec t' p ≡ get tree codec t p
  unfolding set_seeded
  get-set_seeded t t' p h = get_of_tree t t' p (
      laws.get_set_ne t t' seeded_key _ (principal_key p) h
        (λ e. principal_key-ne-seeded_key p (sym e)))

  pub is_seeded-set_seeded :
      (t t' : tree.State) → set_seeded tree codec t ≡ ok t' → is_seeded tree codec t' ≡ ok true
  unfolding set_seeded is_seeded
  is_seeded-set_seeded t t' h =
      laws.has_get t' seeded_key ∙ ap presence (laws.get_set t t' seeded_key _ h)

  pub get-save :
      (t t' : tree.State) (h : List ℕ) (n : ℕ) (p : List ℕ)
      → tree.save_version t ≡ ok (t', h, n)
      → get tree codec t' p ≡ get tree codec t p
  get-save t t' h n p e = get_of_tree t t' p (laws.get_save t t' h n (principal_key p) e)

  pub is_seeded-save :
      (t t' : tree.State) (h : List ℕ) (n : ℕ)
      → tree.save_version t ≡ ok (t', h, n)
      → is_seeded tree codec t' ≡ is_seeded tree codec t
  is_seeded-save t t' h n e = is_seeded_of_tree t t' (laws.get_save t t' h n seeded_key e)

  -- What `has` denies has no identity.
  pub not-get_of_has :
      (t : tree.State) (p : List ℕ) (d : IdentityData)
      → has tree codec t p ≡ ok false
      → get tree codec t p ≢ ok d
  unfolding has get decode_entry
  not-get_of_has t p d h e =
      let (entry, read, found) = chain_ok (tree.get t (principal_key p)) _ e in
      elim (Option-cases entry) [
        | inl missing ↦ absurd (ground arith)
        | inr (v, there) ↦ ground (arith, laws.has_get t (principal_key p))
      ]
