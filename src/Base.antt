-- ===== src/Base.antt =====
-- The names that the other modules share: the libraries' and those of the children.
-- `Tests` has the comparisons of native numbers, `Lists` Go's slices as lists, `LittleEndian`
-- the integers of encoding/binary, `Errors` a Go (value, error) pair.
mod Tests
mod Lists
mod Slices
mod LittleEndian
mod Ordering
pub mod Search
mod Errors
pub mod Base32
pub mod Hex
pub use Tests.*
pub use Lists.*
pub use Slices.*
unfoldable pub use LittleEndian.*
unfoldable pub use Ordering.*
pub use Errors.*
pub use Prim.Native.Nat.{ℕ, zero, suc, ◌+◌, ◌-◌, ◌*◌, ◌/◌, ◌%◌, ◌^◌, ◌≤◌, ◌<◌, min, max}
pub use mathlib.Core.Path.{◌≡◌, refl, sym, ap, ◌∙◌, subst, ◌≡⟨◌⟩◌, ◌∎}
pub use mathlib.Core.Logic.{◌≢◌, ◌↔◌, ◌⊎◌, inl, inr}
pub use mathlib.Core.Bool.{Bool, true, false, not, ◌&&◌, ◌||◌}
pub use mathlib.Core.Option.{Option, none, some}
pub use mathlib.Core.List.{List, [], ◌∷◌, ◌++◌, map, append-nil, append_assoc}
pub use native.Mathlib.Omega.{arith}
