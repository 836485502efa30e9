-- ===== src/Base/Table.antt =====
-- A Boolean test that holds at every number below a bound, by evaluation.
use Prim.Native.Nat.{ℕ, zero, suc, ◌<◌}
use mathlib.Core.Path.{◌≡◌, refl}
use mathlib.Core.Bool.{Bool, true, false, ◌&&◌}
use native.Mathlib.Omega.{arith}

unfoldable pub each_below : (ℕ → Bool) → ℕ → Bool
each_below test zero = true
each_below test (suc bound) = each_below test bound && test bound

pub each_below_lem :
    (test : ℕ → Bool) (bound : ℕ)
    → each_below test bound ≡ true
    → (i : ℕ) → i < bound
    → test i ≡ true
unfolding each_below
each_below_lem test zero all i fits = absurd (omega arith)
each_below_lem test (suc bound) all i fits =
    ground (arith, each_below_lem test bound (ground arith) i)

-- Equality of truth values.
abbrev pub same_bool : Bool → Bool → Bool
same_bool true b = b
same_bool false true = false
same_bool false false = true

pub same_bool→eq : (a b : Bool) → same_bool a b ≡ true → a ≡ b
same_bool→eq true b h = ground arith
same_bool→eq false true h = ground arith
same_bool→eq false false h = refl
