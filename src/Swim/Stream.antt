-- ===== src/Swim/Stream.antt =====
-- The frames of one message, in order: what the queue of frameset.go produces, and what the
-- decoder of framesetdecoder.go collects.
use wineventchain.Common.{ℕ, suc, ◌≡◌, Bool, List, [], ◌∷◌, ◌++◌, ◌==◌}
use wineventchain.Swim.Frame.{Frame}

-- Frames number `n` up to `total`, of one stream and all compressed or none, of which exactly
-- the last is marked so.
abbrev pub StreamFrom : Bool → List ℕ → ℕ → ℕ → List Frame → Type 0
StreamFrom c id n total [] = n ≡ total
StreamFrom c id n total (f ∷ fs) =
    (f.is_compressed ≡ c)
    × (f.stream_id ≡ id)
    × (f.frame_number ≡ n)
    × (f.is_last ≡ (suc n == total))
    × StreamFrom c id (suc n) total fs

abbrev pub payload : List Frame → List ℕ
payload [] = []
payload (f ∷ fs) = f.body ++ payload fs

pub StreamFrom-cast :
    {c c' : Bool} {id id' : List ℕ} {n n' total total' : ℕ} (fs : List Frame)
    → c ≡ c'
    → id ≡ id'
    → n ≡ n'
    → total ≡ total'
    → StreamFrom c id n total fs
    → StreamFrom c' id' n' total' fs
StreamFrom-cast fs p q r s h = rw (← p, ← q, ← r, ← s) h
