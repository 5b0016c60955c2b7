-- ===== src/Store/LevelDb/Assoc.antt =====
-- An association list behaves as the database is documented to.
use wineventchain.Common.{
  ℕ, ◌≡◌, ◌≢◌, ap, sym, ◌∙◌, inl, inr, false, Bool-cases, List, [], ◌∷◌, Option, none, some,
  Outcome, ok, err, panic, if◌then◌else◌, bytes_eq, bytes_eq_sound, ok_injective, Map, lookup,
  insert, delete, lookup-insert, lookup-insert_ne, lookup-delete, lookup-delete_ne,
}
use wineventchain.Store.Codec.{StoreError, not_found}
use wineventchain.Store.LevelDb.{LevelDb, LevelDbLaws, Change, puts, deletes}

abbrev pub read : Option (List ℕ) → Outcome StoreError (List ℕ)
read none = err not_found
read (some v) = ok v

abbrev pub apply : Map (List ℕ) → List Change → Map (List ℕ)
apply m [] = m
apply m (puts k v ∷ cs) = apply (insert m k v) cs
apply m (deletes k ∷ cs) = apply (delete m k) cs

abbrev pub behind : List ℕ → List ℕ → Outcome StoreError (List ℕ)
behind [] key = ok key
behind (c ∷ cs) [] = err not_found
behind (c ∷ cs) (d ∷ ds) = if bytes_eq (c ∷ []) (d ∷ []) then behind cs ds else err not_found

abbrev pub with_prefix : List ℕ → Map (List ℕ) → List (List ℕ × List ℕ)
with_prefix p [] = []
with_prefix p ((k, v) ∷ m) =
    let rest = with_prefix p m in
    elim (behind p k) [ ok x ↦ (k, v) ∷ rest | err e ↦ rest | panic ↦ rest ]

abbrev pub after_key : List ℕ → List (List ℕ × List ℕ) → List (List ℕ × List ℕ)
after_key key [] = []
after_key key ((k, v) ∷ m) = if bytes_eq k key then m else after_key key m

abbrev pub assoc_db : LevelDb
assoc_db = record {
  State = Map (List ℕ);
  get = λ s k. read (lookup s k);
  put = λ s k v. ok (insert s k v);
  delete = λ s k. ok (delete s k);
  write = λ s cs. ok (apply s cs);
  entries = λ s p. with_prefix p s;
  entries_after = λ s p key. after_key key (with_prefix p s);
  open_transaction = λ s. ok s;
  commit = λ s t. ok t;
}

different : (k j : List ℕ) → k ≢ j → bytes_eq k j ≡ false
different k j h = elim (Bool-cases (bytes_eq k j)) [
  | inl same ↦ absurd (h (bytes_eq_sound k j same))
  | inr other ↦ other
]

pub assoc_db_laws : LevelDbLaws assoc_db
assoc_db_laws = record {
  get_put = λ s s' k v h.
      ap (λ m. read (lookup m k)) (sym (ok_injective h)) ∙ ap read (lookup-insert s k v);
  get_put_ne = λ s s' k v j h n.
      ap (λ m. read (lookup m j)) (sym (ok_injective h))
      ∙ ap read (lookup-insert_ne s k v j (different k j n));
  get_delete =
      λ s s' k h. ap (λ m. read (lookup m k)) (sym (ok_injective h)) ∙ ap read (lookup-delete s k);
  get_delete_ne = λ s s' k j h n.
      ap (λ m. read (lookup m j)) (sym (ok_injective h))
      ∙ ap read (lookup-delete_ne s k j (different k j n));
  get_open = λ s t k h. ap (λ m. read (lookup m k)) (sym (ok_injective h));
  get_commit = λ s t s' k h. ap (λ m. read (lookup m k)) (sym (ok_injective h));
}
