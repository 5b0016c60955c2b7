-- ===== src/Swim/Delegate/Steps.antt =====
-- delegate.go: its operations as steps.
use wineventchain.Common.{ℕ, ◌≡◌, List, Option, some}
use wineventchain.Swim.Delegate.{
  Delegate, InboundMessage, new_delegate, send, get_broadcasts, handle_inbound_message, prune,
}

-- The operations of a delegate, with what each of them is given.
pub data Step (compress decompress : List ℕ → Option (List ℕ)) (log10_ceil : ℕ → ℕ) (d : Delegate)
    : Delegate → Type 0 where
  sends : (id msg : List ℕ) → Step compress decompress log10_ceil d (send d id msg)
  broadcasts :
      (members overhead limit : ℕ) (d' : Delegate) (frames : List (List ℕ))
      → get_broadcasts compress log10_ceil members d overhead limit ≡ some (d', frames)
      → Step compress decompress log10_ceil d d'
  receives :
      (now : ℕ) (input spare : List ℕ) (d' : Delegate) (messages : List InboundMessage)
      → handle_inbound_message decompress now d input spare ≡ some (d', messages)
      → Step compress decompress log10_ceil d d'
  prunes : (now : ℕ) → Step compress decompress log10_ceil d (prune now d)

-- The states that a new delegate comes to.
pub data Reachable (compress decompress : List ℕ → Option (List ℕ)) (log10_ceil : ℕ → ℕ)
    : Delegate → Type 0 where
  starts :
      (source_name : List ℕ) (multiplier : ℕ)
      → Reachable compress decompress log10_ceil (new_delegate source_name multiplier)
  steps :
      (d d' : Delegate)
      → Reachable compress decompress log10_ceil d
      → Step compress decompress log10_ceil d d'
      → Reachable compress decompress log10_ceil d'
