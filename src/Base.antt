-- ===== src/Base.antt =====
-- The names that the other modules share: the libraries', passed on, and those of the children.
mod Tests
mod Lists
pub mod Perms
pub mod Integers
pub mod Text
pub mod Maps
pub mod Errors
pub mod Words
pub mod Decimal
pub use Tests.*
pub use Lists.*
pub use Prim.Native.Nat.{ℕ, zero, suc, ◌+◌, ◌-◌, ◌*◌, ◌/◌, ◌%◌, ◌^◌, ◌≤◌, ◌<◌, min, max}
pub use mathlib.Core.Path.{◌≡◌, refl, sym, ap, ◌∙◌, subst}
pub use mathlib.Core.Logic.{◌≢◌, ◌↔◌, ◌⊎◌, inl, inr}
pub use mathlib.Core.Bool.{Bool, true, false, not, ◌&&◌, ◌||◌}
pub use mathlib.Core.Option.{Option, none, some}
pub use mathlib.Core.List.{List, [], ◌∷◌, ◌++◌, map, append-nil, append_assoc}
pub use native.Mathlib.Omega.{arith}
pub use Errors.*
pub use Text.{codes, empty, empty_iff, Lacks, npos, equal_self, equal_sound, equal_iff}
unfoldable pub use Text.{equal, starts_with, index_of, find, substr}
pub use Maps.{Dict, lookup-insert, lookup-remove}
unfoldable pub use Maps.{lookup, insert, remove}
pub use Words.{word, add64, sub64}
pub use Decimal.RoundTrip.{IsDigit, to_string-digits, stoull-to_string}
unfoldable pub use Decimal.{to_string, stoull}
