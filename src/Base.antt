-- ===== src/Base.antt =====
-- The names that the other modules share: the libraries', passed on, and those of the children,
-- which hold Boolean tests, lists and tables, texts, integers, and methods that may raise.
mod Tests
mod Lists
mod Tables
mod Keys
mod Texts
mod Int
pub mod Raising
mod Actions
mod Invariants
pub use Tests.*
pub use Lists.*
unfoldable pub use Tables.*
pub use Keys.{
  KeysUnique, keys-update, update-update_found, filter-filter_found, KeysUnique-update,
  KeysUnique-remove, All-remove,
}
unfoldable pub use Texts.*
unfoldable pub use Int.*
pub use Raising.{
  Error, does_not_exist, stripe_error, invalid_request, not_owner, self_share, rate_unavailable,
  bulk_limit_exceeded, integrity_error, value_error, api_error, Result, ok, raised, is_ok, AllOk,
  AllOk-bind, AllOk-any, AllOk-all, AllOk-weaken, AllOk-ok,
}
unfoldable pub use Actions.*
pub use Invariants.{
  Keeps, Keeps-pure, Keeps-raise, Keeps-lift, Keeps-gets, Keeps-if, Keeps-bind, Keeps-attempt,
  Keeps-swallow, Keeps-for_each, keeps_rules,
}
pub use Prim.Native.Nat.{ℕ, zero, suc, ◌+◌, ◌-◌, ◌*◌, ◌/◌, ◌%◌, ◌^◌, ◌≤◌, ◌<◌}
pub use mathlib.Core.Path.{◌≡◌, refl, sym, ap, subst, ◌∙◌}
pub use mathlib.Core.Logic.{◌≢◌, ◌↔◌, ◌⊎◌, inl, inr}
pub use mathlib.Core.Bool.{Bool, true, false, not, ◌&&◌, ◌||◌}
pub use mathlib.Core.Option.{Option, none, some}
pub use mathlib.Core.List.{List, [], ◌∷◌, ◌++◌, map}
pub use native.Mathlib.Omega.{arith}
