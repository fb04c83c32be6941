-- ===== src/Base.antt =====
-- Names shared by every module: the libraries' names, passed on, and those of the children: tests
-- on numbers, lists with native lengths, counting, and association lists.
mod Tests
mod Lists
mod Assoc
mod Results
pub use Tests.*
pub use Lists.*
pub use Assoc.*
pub use Results.{Result, map_err, ◌>>=◌, ok_or, >>=-elim, ok_or-ok, ok-injective}
pub use Prim.Native.Nat.{ℕ, zero, suc, ◌+◌, ◌-◌, ◌*◌, ◌/◌, ◌%◌, ◌^◌, ◌≤◌, ◌<◌}
pub use mathlib.Core.Path.{◌≡◌, refl, sym, ap, ◌∙◌}
pub use mathlib.Core.Logic.{◌≢◌, ◌↔◌, ◌⊎◌, inl, inr}
pub use mathlib.Core.Bool.{Bool, true, false, not, ◌&&◌, ◌||◌}
pub use mathlib.Core.Option.{Option, none, some}
pub use mathlib.Core.List.{List, [], ◌∷◌, ◌++◌, map}
pub use native.Mathlib.Omega.{arith}
