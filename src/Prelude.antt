-- ===== src/Prelude.antt =====
-- The names that the other modules share: the libraries', passed on, and those of the children.
mod Tests
mod Lists
mod Words
pub mod NatMap
mod Split
pub mod Sort
pub use Tests.{ltb, leb, ◌==◌, if◌then◌else◌, ==_iff, Bytes, bytes_eq_iff, Bool-cases, Option-cases}
unfoldable pub use Tests.{bytes_eq}
pub use Lists.{
  length, get_elem?, take, drop, length-append, get_elem?-some, get_elem?-lt, take-length,
  length-take, length-drop, take-append-drop, nil_of_length, take_append, drop_append, drop-drop,
  drop-length, take-min, take-take, take_nil, take_add, take-drop-take, drop_nil, All, All-append,
  All-weaken,
}
unfoldable pub use Lists.{find}
pub use Words.{u32_mod, u64_mod, add32_exact, sub32_exact, add64_exact, sub64_exact}
unfoldable pub use Words.{add32, sub32, add64, sub64}
pub use Split.{join, Lacks, split-Lacks, split-append, split-cons, split-All, join-split}
unfoldable pub use Split.{split}
pub use Sort.{
  count, by_key, IsSortedBy, count-append, count-sort, All-sort, sort-IsSortedBy, length-sort,
}
unfoldable pub use Sort.{sort}
pub use NatMap.{map_values}
unfoldable pub use NatMap.{map_get, map_insert, map_modify}
pub use Prim.Native.Nat.{ℕ, zero, suc, ◌+◌, ◌-◌, ◌*◌, ◌/◌, ◌%◌, ◌^◌, ◌≤◌, ◌<◌, min, max}
pub use mathlib.Core.Path.{◌≡◌, refl, sym, ap, ◌∙◌, subst, subst₂}
pub use mathlib.Core.Logic.{◌≢◌, ◌↔◌, ◌⊎◌, inl, inr}
pub use mathlib.Core.Bool.{Bool, true, false, not, ◌&&◌, ◌||◌}
pub use mathlib.Core.Option.{Option, none, some}
pub use mathlib.Core.List.{List, [], ◌∷◌, ◌++◌, map, cons-eq-cons, append-nil, append_assoc}
pub use native.Mathlib.Omega.{arith}
