-- ===== src/Chain/Tree/Assoc.antt =====
-- An association list behaves as the tree is documented to.
use wineventchain.Common.{
  true, ℕ, ◌+◌, ◌≡◌, ◌≢◌, refl, List, [], ◌∷◌, Option, none, some, ok, bytes_eq, bytes_eq_refl,
  bytes_eq_sound, if◌then◌else◌, length, Bool-cases, inl, inr, ap, ok_injective,
}
use wineventchain.Chain.Tree.{Tree, TreeLaws, VersionLaws, presence}

abbrev pub Entries : Type 0
Entries = List (List ℕ × List ℕ)

abbrev pub lookup : Entries → List ℕ → Option (List ℕ)
lookup [] k = none
lookup ((j, v) ∷ es) k = if bytes_eq j k then some v else lookup es k

abbrev pub assoc_tree : Tree
assoc_tree = record {
  State = Entries × ℕ;
  get = λ t k. ok (lookup t.0 k);
  has = λ t k. presence (ok (lookup t.0 k));
  set = λ t k v. ok ((k, v) ∷ t.0, t.1);
  get_with_index = λ t k. ok (0, lookup t.0 k);
  get_proof = λ t k. ok k;
  size = λ t. some (length t.0);
  hash = λ t. ok (t.1 ∷ []);
  save_version = λ t. ok ((t.0, t.1 + 1), t.1 ∷ [], t.1 + 1);
  load_version = λ t n. ok t;
  load = λ t. ok (t, t.1);
  version = λ t. t.1;
  version_exists = λ t n. true;
}

assoc_get_set : (es : Entries) (k v : List ℕ) → lookup ((k, v) ∷ es) k ≡ some v
assoc_get_set es k v = rw (bytes_eq_refl k)

assoc_get_set_ne : (es : Entries) (k v j : List ℕ) → k ≢ j → lookup ((k, v) ∷ es) j ≡ lookup es j
assoc_get_set_ne es k v j ne = elim (Bool-cases (bytes_eq k j)) [
  | inl same ↦ absurd (ne (bytes_eq_sound k j same))
  | inr other ↦ rw other
]

pub assoc_laws : TreeLaws assoc_tree
assoc_laws = record {
  has_get = λ t k. refl;
  get_set = λ t t' k v e. rw (← ok_injective e) (ap ok (assoc_get_set t.0 k v));
  get_set_ne = λ t t' k v j e ne. rw (← ok_injective e) (ap ok (assoc_get_set_ne t.0 k v j ne));
  get_save = λ t t' h n j e. rw (← ap (λ r. r.0) (ok_injective e)) refl;
  get_index = λ t k i v e. ap (λ r. ok r.1) (ok_injective e);
}

pub assoc_versions : VersionLaws assoc_tree
assoc_versions = record {
  Saved = λ t n. Unit {0};
  saved = λ t t' h n e. tt;
  loaded = λ t t' n e. tt;
  get_load = λ t t' n j s e. rw (← ok_injective e) refl;
}

pub assoc_saved : (t : assoc_tree.State) (n : ℕ) → assoc_versions.Saved t n
unfolding assoc_versions
assoc_saved t n = tt
