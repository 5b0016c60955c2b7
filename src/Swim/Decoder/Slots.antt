-- ===== src/Swim/Decoder/Slots.antt =====
-- framesetdecoder.go: the slice of received frames, as numbered slots.
use wineventchain.Common.{
  ℕ, zero, suc, ◌-◌, ◌≤◌, ◌<◌, ◌≡◌, ◌≢◌, refl, ap, ◌∙◌, List, [], ◌∷◌, ◌++◌, map, Option, none,
  some, leb, ◌==◌, if◌then◌else◌, length, get_elem?, set, replicate, length-append,
  length-replicate, arith,
}
use wineventchain.Swim.Frame.{Frame}
use wineventchain.Swim.Decoder.{slot, extend}

-- How many slots hold a frame.
abbrev pub filled : List (Option Frame) → ℕ
filled [] = 0
filled (none ∷ xs) = filled xs
filled (some f ∷ xs) = suc (filled xs)

pub filled-le-length : (xs : List (Option Frame)) → filled xs ≤ length xs
filled-le-length [] = omega arith
filled-le-length (none ∷ xs) = omega (arith, filled-le-length xs)
filled-le-length (some f ∷ xs) = omega (arith, filled-le-length xs)

slot-replicate : (n i : ℕ) → slot (replicate n none) i ≡ none
unfolding slot
slot-replicate zero i = refl
slot-replicate (suc n) zero = refl
slot-replicate (suc n) (suc i) = slot-replicate n i

slot-append_none :
    (xs : List (Option Frame)) (n i : ℕ) → slot (xs ++ replicate n none) i ≡ slot xs i
unfolding slot
slot-append_none [] n i = slot-replicate n i
slot-append_none (x ∷ xs) n zero = refl
slot-append_none (x ∷ xs) n (suc i) = slot-append_none xs n i

pub slot-extend : (xs : List (Option Frame)) (n i : ℕ) → slot (extend xs n) i ≡ slot xs i
unfolding extend
slot-extend xs n i = ground (arith, slot-append_none xs (suc n - length xs) i)

pub length-extend :
    (xs : List (Option Frame)) (n : ℕ)
    → length (extend xs n) ≡ (if leb (length xs) n then suc n else length xs)
unfolding extend
length-extend xs n = ground (
  arith,
  length-append xs (replicate (suc n - length xs) none),
  length-replicate {A = Option Frame} (suc n - length xs) none,
)

filled-replicate : (n : ℕ) → filled (replicate n none) ≡ 0
filled-replicate zero = refl
filled-replicate (suc n) = filled-replicate n

filled-append_none :
    (xs : List (Option Frame)) (n : ℕ) → filled (xs ++ replicate n none) ≡ filled xs
filled-append_none [] n = filled-replicate n
filled-append_none (none ∷ xs) n = filled-append_none xs n
filled-append_none (some f ∷ xs) n = ap suc (filled-append_none xs n)

pub filled-extend : (xs : List (Option Frame)) (n : ℕ) → filled (extend xs n) ≡ filled xs
unfolding extend
filled-extend xs n = ground (arith, filled-append_none xs (suc n - length xs))

pub filled-set :
    (xs : List (Option Frame)) (i : ℕ) (f : Frame)
    → i < length xs
    → slot xs i ≡ none
    → filled (set xs i (some f)) ≡ suc (filled xs)
unfolding slot
filled-set [] i f h e = absurd (omega arith)
filled-set (none ∷ xs) zero f h e = refl
filled-set (some g ∷ xs) zero f h e = cc
filled-set (none ∷ xs) (suc i) f h e = filled-set xs i f (omega arith) e
filled-set (some g ∷ xs) (suc i) f h e = ap suc (filled-set xs i f (omega arith) e)

pub slot-set :
    (xs : List (Option Frame)) (i j : ℕ) (f : Frame)
    → i < length xs
    → slot (set xs i (some f)) j ≡ (if i == j then some f else slot xs j)
unfolding slot
slot-set [] i j f h = absurd (omega arith)
slot-set (x ∷ xs) zero zero f h = refl
slot-set (x ∷ xs) zero (suc j) f h = ground arith
slot-set (x ∷ xs) (suc i) zero f h = ground arith
slot-set (x ∷ xs) (suc i) (suc j) f h = slot-set xs i j f (omega arith) ∙ ground arith

-- Every slot below the length holds a frame exactly when the count is the length.
pub full_of_filled :
    (xs : List (Option Frame)) (i : ℕ)
    → filled xs ≡ length xs
    → i < length xs
    → (f : Frame) × (slot xs i ≡ some f)
unfolding slot
full_of_filled [] i e h = absurd (omega arith)
full_of_filled (none ∷ xs) i e h = absurd (omega (arith, filled-le-length xs))
full_of_filled (some f ∷ xs) zero e h = (f, refl)
full_of_filled (some f ∷ xs) (suc i) e h = full_of_filled xs i (omega arith) (omega arith)

pub filled_of_full :
    (xs : List (Option Frame))
    → ((i : ℕ) → i < length xs → slot xs i ≢ none)
    → filled xs ≡ length xs
unfolding slot
filled_of_full [] h = refl
filled_of_full (none ∷ xs) h = absurd (h 0 (omega arith) refl)
filled_of_full (some f ∷ xs) h = ap suc (filled_of_full xs (λ i k. h (suc i) (omega arith)))

-- Full slots that agree with a list are that list.
pub frames_of_slots :
    (xs : List (Option Frame)) (fs : List Frame)
    → length xs ≡ length fs
    → filled xs ≡ length xs
    → ((i : ℕ) (g : Frame) → slot xs i ≡ some g → get_elem? fs i ≡ some g)
    → xs ≡ map some fs
unfolding slot
frames_of_slots [] [] e k h = refl
frames_of_slots [] (f ∷ fs) e k h = absurd (omega arith)
frames_of_slots (x ∷ xs) [] e k h = absurd (omega arith)
frames_of_slots (none ∷ xs) (f ∷ fs) e k h = absurd (omega (arith, filled-le-length xs))
frames_of_slots (some g ∷ xs) (f ∷ fs) e k h =
    let rest = frames_of_slots xs fs (omega arith) (omega arith) (λ i g. h (suc i) g) in
    let head = h 0 g refl in cc

pub slot-below : (xs : List (Option Frame)) (i : ℕ) (g : Frame) → slot xs i ≡ some g → i < length xs
unfolding slot
slot-below [] i g e = absurd (ground arith)
slot-below (x ∷ xs) zero g e = omega arith
slot-below (x ∷ xs) (suc i) g e = omega (arith, slot-below xs i g e)
