-- ===== src/Base.antt =====
-- The names that the other modules share: the libraries', passed on, and those of the children.
mod Tests
mod Lists
mod Mapping
mod Integers
mod Json
mod Control
pub use Tests.*
pub use Control.*
unfoldable pub use Control.{Ends, ◌>>=◌}
pub use Lists.*
unfoldable pub use Mapping.{lookup, insert}
pub use Mapping.{Dict, has_key, keys, lookup-insert, lookup-nil, subset}
pub use Integers.*
unfoldable pub use Json.{canonical_json_bytes, canonical_sha256}
pub use Json.{
  JsonValue, Items, Fields, null, bool, int, float, str, arr, obj, nil, cons, end, field, fields,
  items, Stdlib,
}
pub use Prim.Native.Nat.{ℕ, zero, suc, ◌+◌, ◌-◌, ◌≤◌, ◌<◌}
pub use Prim.Native.String.{String}
pub use mathlib.Core.Path.{◌≡◌, refl, sym, ap, ◌∙◌}
pub use mathlib.Core.Logic.{◌≢◌, ◌↔◌, ◌⊎◌, inl, inr}
pub use mathlib.Core.Bool.{Bool, true, false, not, ◌&&◌, ◌||◌}
pub use mathlib.Core.Option.{Option, none, some}
pub use mathlib.Core.List.{List, [], ◌∷◌, ◌++◌, map}
pub use native.Mathlib.Omega.{arith}
pub use text.Mathlib.TextEquality.{eq_iff}
