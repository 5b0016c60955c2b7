-- ===== src/Common.antt =====
-- The names that all modules share: the libraries', passed on, and those of the children:
-- Boolean tests, lists over the native numbers, and the outcomes of Go functions.
mod Tests
mod Lists
mod Results
mod Hex
mod Maps
unfoldable pub use Tests.*
pub use Lists.*
pub use Results.*
unfoldable pub use Maps.*
unfoldable pub use Hex.{hex_digit, hex_encode, hex_decode}
pub use Hex.{hex_decode-hex_encode}
pub use Prim.Native.Nat.{ℕ, zero, suc, ◌+◌, ◌-◌, ◌*◌, ◌/◌, ◌%◌, ◌^◌, ◌≤◌, ◌<◌}
pub use mathlib.Core.Path.{◌≡◌, refl, sym, ap, ap₂, ◌∙◌, subst}
pub use mathlib.Core.Logic.{◌≢◌, ◌↔◌, ◌⊎◌, inl, inr}
pub use mathlib.Core.Bool.{Bool, true, false, not, ◌&&◌, ◌||◌}
pub use mathlib.Core.Option.{Option, none, some, some-injective}
pub use mathlib.Core.List.{List, [], ◌∷◌, ◌++◌, map, append-nil, append_assoc}
pub use native.Mathlib.Omega.{arith}
