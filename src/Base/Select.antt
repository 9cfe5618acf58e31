-- ===== src/Base/Select.antt =====
-- An fd_set as its characteristic function. FD_SET and FD_CLR of a negative descriptor, which C
-- leaves undefined, touch that key only.
use mathlib.Core.Bool.{Bool, true, false}
use tapi2p.Base.Tests.{if◌then◌else◌}
use tapi2p.Base.Int.{ℤ, eq_ℤ}

abbrev pub FdSet : Type 0
FdSet = ℤ → Bool

abbrev pub fd_set : ℤ → FdSet → FdSet
fd_set fd s x = if eq_ℤ x fd then true else s x

abbrev pub fd_clr : ℤ → FdSet → FdSet
fd_clr fd s x = if eq_ℤ x fd then false else s x
