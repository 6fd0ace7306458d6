-- ===== src/Common.antt =====
-- The names that the other modules share: the libraries', passed on, and those of the children.
pub mod Tests
pub mod Lists
pub mod Int
pub mod Results
pub mod Text
pub mod Calendar
pub mod Dict
pub use Tests.*
pub use Lists.*
pub use Int.*
pub use Results.*
pub use Prim.Native.Nat.{ℕ, zero, suc, ◌+◌, ◌-◌, ◌*◌, ◌/◌, ◌%◌, ◌^◌, ◌≤◌, ◌<◌, min, max, bit_and}
pub use mathlib.Core.Path.{◌≡◌, refl, sym, ap, ◌∙◌}
pub use mathlib.Core.Logic.{◌≢◌, ◌↔◌, ◌⊎◌, inl, inr}
pub use mathlib.Core.Bool.{Bool, true, false, not, ◌&&◌, ◌||◌}
pub use mathlib.Core.Option.{Option, none, some}
pub use mathlib.Core.List.{List, [], ◌∷◌, ◌++◌, map}
pub use native.Mathlib.Omega.{arith}
use Prim.Native.Nat.{◌≤◌, ℕ}
use mathlib.Core.List.{List}

-- bytes, bytearray: each element is below 256 in what Python builds.
abbrev pub Bytes : Type 0
Bytes = List ℕ

-- `frame[i]` behind a length check.
abbrev pub at : Bytes → ℕ → ℕ
at frame i = Lists.get_or frame i 0

-- Bits k to k + 7 of a number: `(n >> k) & 0xFF`.
abbrev pub byte : ℕ → ℕ → ℕ
byte n k = n / 2 ^ k % 256
