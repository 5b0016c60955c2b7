-- ===== src/Store/Order.antt =====
-- leveldbstore.go: the identifiers of the ranges in their order, which is the one of their bytes.
use wineventchain.Common.{
  ℕ, zero, suc, ◌==◌, ◌≡◌, ◌≢◌, refl, ap, Bool, true, false, ltb, List, [], ◌∷◌, if◌then◌else◌,
  length, arith, Bool-cases, inl, inr,
}
use wineventchain.Store.Ids.{get_next_key}

unfoldable pub less : List ℕ → List ℕ → Bool
less [] ys = false
less (x ∷ xs) [] = false
less (x ∷ xs) (y ∷ ys) =
    let rest = less xs ys in if ltb x y then true else if x == y then rest else false

pub less_irreflexive : (xs : List ℕ) → less xs xs ≡ false
unfolding less
less_irreflexive [] = refl
less_irreflexive (x ∷ xs) = ground (arith, less_irreflexive xs)

pub less_trans : (xs ys zs : List ℕ) → less xs ys ≡ true → less ys zs ≡ true → less xs zs ≡ true
unfolding less
less_trans [] ys zs h k = absurd (ground arith)
less_trans (x ∷ xs) [] zs h k = absurd (ground arith)
less_trans (x ∷ xs) (y ∷ ys) [] h k = absurd (ground arith)
less_trans (x ∷ xs) (y ∷ ys) (z ∷ zs) h k = elim (Bool-cases (less xs ys)) [
  | inr f ↦ ground arith
  | inl t ↦ elim (Bool-cases (less ys zs)) [
    | inr f ↦ ground arith
    | inl u ↦ ground (arith, less_trans xs ys zs t u)
  ]
]

-- What is not beyond an identifier is not beyond a later one, nor is it the later one.
pub not_beyond : (id c d : List ℕ) → less c id ≡ false → less c d ≡ true → less d id ≡ false
not_beyond id c d h k = elim (Bool-cases (less d id)) [
  | inr f ↦ f
  | inl t ↦ absurd (ground (arith, less_trans c d id k t))
]

pub not_later : (id c d : List ℕ) → less c id ≡ false → less c d ≡ true → d ≢ id
not_later id c d h k same = ground (arith, ap (less c) same)

-- There are `n` more identifiers after this one before they wrap around.
abbrev pub Room : List ℕ → ℕ → Type 0
Room c zero = Unit {0}
Room c (suc n) =
    (length (get_next_key c) ≡ 16) × (less c (get_next_key c) ≡ true) × Room (get_next_key c) n

pub Room-fewer : (c : List ℕ) (n : ℕ) → Room c (suc n) → Room c n
Room-fewer c zero r = tt
Room-fewer c (suc n) r = (r.0, r.1, Room-fewer (get_next_key c) n r.2)
