-- ===== src/Common/Results.antt =====
-- The outcome of a Go function that returns an error or panics.
use mathlib.Core.Path.{◌≡◌, refl, ap}
use mathlib.Core.Logic.{◌⊎◌, inl, inr}
use mathlib.Core.Bool.{Bool, true, false}

-- `panic` is a run-time panic: an index out of range or a nil pointer dereferenced.
pub data Outcome {ℓ κ} (E : Type ℓ) (A : Type κ) : Type (ℓ ⊔ κ) where
  ok : A → Outcome E A
  err : E → Outcome E A
  panic : Outcome E A

infixl 5 ◌>>=◌ ◌>>◌
abbrev pub ◌>>=◌ {ℓ κ μ} :
    {E : Type ℓ} {A : Type κ} {B : Type μ} → Outcome E A → (A → Outcome E B) → Outcome E B
ok a >>= f = f a
err e >>= f = err e
panic >>= f = panic

abbrev pub ◌>>◌ {ℓ μ} : {E : Type ℓ} {B : Type μ} → Outcome E (Unit {0}) → Outcome E B → Outcome E B
m >> k = m >>= λ _. k

-- `if !cond { return err }`.
abbrev pub guard {ℓ} : {E : Type ℓ} → Bool → E → Outcome E (Unit {0})
guard true e = ok tt
guard false e = err e

-- A read that panics out of its bounds.
abbrev pub assert {ℓ} : {E : Type ℓ} → Bool → Outcome E (Unit {0})
assert true = ok tt
assert false = panic

-- Inversion of the two on a path that returns.
module _ {ℓ μ} {E : Type ℓ} {B : Type μ} where
  pub guard_ok :
      (b : Bool) (e : E) (k : Outcome E B) {x : B}
      → (guard b e >> k) ≡ ok x
      → (b ≡ true) × (k ≡ ok x)
  guard_ok true e k h = (refl, h)
  guard_ok false e k h = cc

  pub assert_ok :
      (b : Bool) (k : Outcome E B) {x : B} → (assert b >> k) ≡ ok x → (b ≡ true) × (k ≡ ok x)
  assert_ok true k h = (refl, h)
  assert_ok false k h = cc

  value_or : B → Outcome E B → B
  value_or d (ok a) = a
  value_or d (err e) = d
  value_or d panic = d

  pub ok_injective : {a b : B} → ◌≡◌ {A = Outcome E B} (ok a) (ok b) → a ≡ b
  unfolding value_or
  ok_injective {a} h = ap (value_or a) h

pub Outcome-cases {ℓ κ} :
    {E : Type ℓ} {A : Type κ} (o : Outcome E A)
    → ((a : A) × (o ≡ ok a)) ⊎ ((e : E) × (o ≡ err e)) ⊎ (o ≡ panic)
Outcome-cases (ok a) = inl (a, refl)
Outcome-cases (err e) = inr (inl (e, refl))
Outcome-cases panic = inr (inr refl)

-- `if err != nil { return f(err) }`, from one type of errors to another.
abbrev pub map_err {ℓ ν κ} :
    {E : Type ℓ} {F : Type ν} {A : Type κ} → (E → F) → Outcome E A → Outcome F A
map_err f (ok a) = ok a
map_err f (err e) = err (f e)
map_err f panic = panic

-- A chain that returns has passed each of its parts.
pub chain_ok {ℓ κ μ} :
    {E : Type ℓ} {A : Type κ} {B : Type μ} (o : Outcome E A) (next : A → Outcome E B) {y : B}
    → (o >>= next) ≡ ok y
    → (x : A) × (o ≡ ok x) × (next x ≡ ok y)
chain_ok (err e) next h = cc
chain_ok panic next h = cc
chain_ok (ok x) next h = (x, refl, h)

pub map_err_ok {ℓ ν κ} :
    {E : Type ℓ} {F : Type ν} {A : Type κ} (f : E → F) (m : Outcome E A) {a : A}
    → map_err f m ≡ ok a
    → m ≡ ok a
map_err_ok f (ok a) h = ap ok (ok_injective h)
map_err_ok f (err e) h = cc
map_err_ok f panic h = cc
