-- ===== src/Common/Maps.antt =====
-- Go's maps with strings or fixed arrays of bytes as keys: association lists in the order in which
-- the keys came.
use Prim.Native.Nat.{ℕ}
use mathlib.Core.Path.{◌≡◌, refl, ap, ap₂, sym, subst, ◌∙◌}
use mathlib.Core.Logic.{inl, inr}
use mathlib.Core.Bool.{true, false}
use mathlib.Core.Option.{Option, none, some}
use mathlib.Core.List.{List, [], ◌∷◌}
use native.Mathlib.Omega.{arith}
use wineventchain.Common.Tests.{
  bytes_eq, bytes_eq_refl, bytes_eq_sound, if◌then◌else◌, Bool-cases, All,
}

abbrev pub Map : Type 0 → Type 0
Map A = List (List ℕ × A)

unfoldable pub lookup : {A : Type 0} → Map A → List ℕ → Option A
lookup [] key = none
lookup ((k, a) ∷ entries) key =
    let rest = lookup entries key in if bytes_eq k key then some a else rest

unfoldable pub insert : {A : Type 0} → Map A → List ℕ → A → Map A
insert [] key v = (key, v) ∷ []
insert ((k, a) ∷ entries) key v =
    let rest = insert entries key v in if bytes_eq k key then (k, v) ∷ entries else (k, a) ∷ rest

unfoldable pub delete : {A : Type 0} → Map A → List ℕ → Map A
delete [] key = []
delete ((k, a) ∷ entries) key =
    let rest = delete entries key in if bytes_eq k key then rest else (k, a) ∷ rest

unfoldable pub keys : {A : Type 0} → Map A → List (List ℕ)
keys [] = []
keys ((k, a) ∷ entries) = k ∷ keys entries

abbrev add_key : List (List ℕ) → List ℕ → List (List ℕ)
add_key [] key = key ∷ []
add_key (k ∷ ks) key = let rest = add_key ks key in if bytes_eq k key then k ∷ ks else k ∷ rest

abbrev remove_key : List (List ℕ) → List ℕ → List (List ℕ)
remove_key [] key = []
remove_key (k ∷ ks) key = let rest = remove_key ks key in if bytes_eq k key then rest else k ∷ rest

module _ {A : Type 0} where
  pub lookup-insert : (m : Map A) (key : List ℕ) (v : A) → lookup (insert m key v) key ≡ some v
  unfolding lookup insert
  lookup-insert [] key v = ground (arith, bytes_eq_refl key)
  lookup-insert ((k, a) ∷ m) key v = ground (arith, lookup-insert m key v)

  pub lookup-delete : (m : Map A) (key : List ℕ) → lookup (delete m key) key ≡ none
  unfolding lookup delete
  lookup-delete [] key = refl
  lookup-delete ((k, a) ∷ m) key = ground (arith, lookup-delete m key)

  -- At another key nothing changes.
  pub lookup-insert_ne :
      (m : Map A) (key : List ℕ) (v : A) (other : List ℕ)
      → bytes_eq key other ≡ false
      → lookup (insert m key v) other ≡ lookup m other
  unfolding lookup insert
  lookup-insert_ne [] key v other h = ground arith
  lookup-insert_ne ((k, a) ∷ m) key v other h = elim (Bool-cases (bytes_eq k key)) [
    | inl same ↦ ground (arith, bytes_eq_sound k key same)
    | inr apart ↦ ground (arith, lookup-insert_ne m key v other h)
  ]

  pub lookup-delete_ne :
      (m : Map A) (key other : List ℕ)
      → bytes_eq key other ≡ false
      → lookup (delete m key) other ≡ lookup m other
  unfolding lookup delete
  lookup-delete_ne [] key other h = refl
  lookup-delete_ne ((k, a) ∷ m) key other h = elim (Bool-cases (bytes_eq k key)) [
    | inl same ↦
        let apart : bytes_eq k other ≡ false =
          ap (λ x. bytes_eq x other) (bytes_eq_sound k key same) ∙ h in
        ground (arith, lookup-delete_ne m key other h)
    | inr different ↦ ground (arith, lookup-delete_ne m key other h)
  ]

  keys-add : (m : Map A) (key : List ℕ) (v : A) → keys (insert m key v) ≡ add_key (keys m) key
  unfolding keys insert
  keys-add [] key v = refl
  keys-add ((k, a) ∷ m) key v = ground (arith, keys-add m key v)

  keys-remove : (m : Map A) (key : List ℕ) → keys (delete m key) ≡ remove_key (keys m) key
  unfolding keys delete
  keys-remove [] key = refl
  keys-remove ((k, a) ∷ m) key = ground (arith, keys-remove m key)

  pub keys_present :
      (m : Map A) (key : List ℕ) (a v : A) → lookup m key ≡ some a → keys (insert m key v) ≡ keys m
  unfolding keys insert lookup
  keys_present [] key a v h = absurd (ground arith)
  keys_present ((k, b) ∷ m) key a v h = elim (Bool-cases (bytes_eq k key)) [
    | inl same ↦ ground arith
    | inr apart ↦ ground (arith, keys_present m key a v (ground arith))
  ]

  pub All-insert {κ} :
      (P : List ℕ × A → Type κ) (m : Map A) (key : List ℕ) (v : A)
      → ((k : List ℕ) → bytes_eq k key ≡ true → P (k, v))
      → P (key, v)
      → All P m
      → All P (insert m key v)
  unfolding insert
  All-insert P [] key v h p a = (p, tt)
  All-insert P ((k, b) ∷ m) key v h p a = elim (Bool-cases (bytes_eq k key)) [
    | inl same ↦ rw same (h k same, a.1)
    | inr apart ↦ rw apart (a.0, All-insert P m key v h p a.1)
  ]

  pub All-delete {κ} :
      (P : List ℕ × A → Type κ) (m : Map A) (key : List ℕ) → All P m → All P (delete m key)
  unfolding delete
  All-delete P [] key a = tt
  All-delete P ((k, b) ∷ m) key a = elim (Bool-cases (bytes_eq k key)) [
    | inl same ↦ rw same (All-delete P m key a.1)
    | inr apart ↦ rw apart (a.0, All-delete P m key a.1)
  ]

  pub lookup-All {κ} :
      (P : List ℕ × A → Type κ) (m : Map A) (key : List ℕ) (v : A)
      → All P m
      → lookup m key ≡ some v
      → P (key, v)
  unfolding lookup
  lookup-All P [] key v a h = absurd (ground arith)
  lookup-All P ((k, b) ∷ m) key v a h = elim (Bool-cases (bytes_eq k key)) [
    | inl same ↦ subst P (ap₂ (λ x y. (x, y)) (bytes_eq_sound k key same) (ground arith)) a.0
    | inr apart ↦ lookup-All P m key v a.1 (ground arith)
  ]

-- Maps with the same keys keep them when both change at one key.
pub keys-insert :
    {A B : Type 0} (m : Map A) (n : Map B) (key : List ℕ) (a : A) (b : B)
    → keys m ≡ keys n
    → keys (insert m key a) ≡ keys (insert n key b)
keys-insert m n key a b h = keys-add m key a ∙ ap (λ k. add_key k key) h ∙ sym (keys-add n key b)

pub keys-delete :
    {A B : Type 0} (m : Map A) (n : Map B) (key : List ℕ)
    → keys m ≡ keys n
    → keys (delete m key) ≡ keys (delete n key)
keys-delete m n key h = keys-remove m key ∙ ap (λ k. remove_key k key) h ∙ sym (keys-remove n key)
