-- ===== src/Harmoniser/Listener.antt =====
-- harmoniser.go: the heights of new blocks, against the store of the node. A failure of the store
-- is logged. Heights are not negative.
use wineventchain.Common.{
  ℕ, ◌+◌, ◌==◌, ltb, leb, List, [], ◌∷◌, Option, none, some, Outcome, ok, err, panic, if◌then◌else◌,
}

-- state.Store, as far as the listener uses it. A call that fails leaves the store as it was.
pub record BlockStore : Type 1 where
  pub State : Type 0
  pub Error : Type 0
  pub last_seen : State → Outcome Error (Option ℕ)
  pub set_last_seen : State → ℕ → Outcome Error State
  pub add_missing : State → ℕ → ℕ → Outcome Error State

-- The store after a call whose error is only logged.
unfoldable pub logged : {E S : Type 0} → S → Outcome E S → Option S
logged s (ok s') = some s'
logged s (err e) = some s
logged s panic = none

module _ (store : BlockStore) where
  -- SetLastSeenBlockHeight behind it.
  unfoldable pub finish : ℕ → Option store.State → Option store.State
  unfolding logged
  finish height none = none
  finish height (some s) = logged s (store.set_last_seen s height)

  -- A block of height 0 without a last height reads a nil pointer, as does its comparison.
  unfoldable pub see_block : store.State → ℕ → Option ℕ → Option store.State
  unfolding logged finish
  see_block s height none =
      if ltb 0 height then finish height (logged s (store.add_missing s 0 height)) else none
  see_block s height (some last) =
      if leb height last
      then some s
      else finish height
          (if last + 1 == height then some s else logged s (store.add_missing s (last + 1) height))

  -- ListenForMissedItems on a new block height; `none` is a panic.
  unfoldable pub on_block : store.State → ℕ → Option store.State
  unfolding see_block
  on_block s height = elim (store.last_seen s) [
    | ok last ↦ see_block s height last
    | err e ↦ some s
    | panic ↦ none
  ]

  -- The heights that come in, one after the other.
  unfoldable pub on_blocks : store.State → List ℕ → Option store.State
  on_blocks s [] = some s
  on_blocks s (height ∷ heights) = elim (on_block s height) [
    | none ↦ none
    | some s' ↦ on_blocks s' heights
  ]
