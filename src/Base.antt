-- ===== src/Base.antt =====
-- Names that every other module shares: the libraries', passed on, and the children's.
mod Tests
mod Lists
mod Results
mod Maps
mod Strings
mod Signed
pub mod Latest
pub use Tests.*
pub use Signed.{ℤ, pos, negsuc}
unfoldable pub use Lists.{any, select, get_elem?}
pub use Lists.{length, length-append, All, In, Pairs, All-map, All-zip, Pairs-map, All-In}
pub use Results.*
pub use Maps.{Eq, Map, Distinct, insert-Distinct, delete-Distinct, retain-Distinct}
unfoldable pub use Maps.{◌==◌, nat_eq, text_eq, lookup, insert, delete, retain, has_key}
pub use Maps.{
  lookup-insert, lookup-delete, lookup-retain, length-insert, length-delete-le, has_key-lookup,
  some_inj, lookup-insert_self, lookup-insert_ne, lookup-insert_new, insert_inv, length-retain-le,
}
pub use Strings.{Text, onto_first}
unfoldable pub use Strings.{
  texts_equal, codes, is_empty, is_space, trim_space, trim_suffix, trim_prefix, strip_prefix,
  has_suffix, contains, contains_any, before_dot, drop_space, drop_code, trim_code, split_on,
  has_prefix, byte_length, rune_bytes,
}
pub use Strings.{is_empty_iff, has_suffix_iff, texts_equal_iff}
pub use Prim.Native.Nat.{ℕ, zero, suc, ◌+◌, ◌-◌, ◌*◌, ◌/◌, ◌%◌, ◌≤◌, ◌<◌}
pub use mathlib.Core.Path.{◌≡◌, refl, sym, ap, ap₂, subst, ◌∙◌}
pub use mathlib.Core.Logic.{◌≢◌, ◌↔◌, ◌⊎◌, inl, inr}
pub use mathlib.Core.Bool.{Bool, true, false, not, ◌&&◌, ◌||◌}
pub use mathlib.Core.Option.{Option, none, some}
pub use mathlib.Core.List.{List, [], ◌∷◌, ◌++◌, map, reverse}
pub use native.Mathlib.Omega.{arith}
