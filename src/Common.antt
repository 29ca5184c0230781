-- ===== src/Common.antt =====
-- The names that the other modules share: the libraries', passed on, and those of the children.
pub mod Tests
pub mod Lists
pub mod Bits
pub mod Store
pub mod Int
pub mod Expected
pub mod Post
pub use Tests.*
pub use Lists.{
  length, get_elem?, get_or, set, take, drop, replicate, All, length-append, length-take,
  length-drop, length-replicate, length-map, length-set, get_elem?-set_self, get_elem?-set_ne,
  take-append, drop-append, take-append-drop, All-append, All-take, All-drop, All-set,
  get_elem?-take, get_elem?-drop, holds_below_at,
}
unfoldable pub use Lists.{holds_below}
pub use Prim.Native.Nat.{
  ℕ, zero, suc, ◌+◌, ◌-◌, ◌*◌, ◌/◌, ◌%◌, ◌^◌, ◌≤◌, ◌<◌, min, max, bit_and, bit_or, bit_xor,
}
pub use mathlib.Core.Path.{◌≡◌, refl, sym, ap, ap₂, ◌∙◌, subst}
pub use mathlib.Core.Logic.{◌≢◌, ◌↔◌, ◌⊎◌, inl, inr}
pub use mathlib.Core.Bool.{Bool, true, false, not, ◌&&◌, ◌||◌}
pub use mathlib.Core.Option.{Option, none, some}
pub use mathlib.Core.List.{List, [], ◌∷◌, ◌++◌, map, append_assoc, append-nil}
pub use native.Mathlib.Omega.{arith}
