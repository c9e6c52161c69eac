-- ===== src/Prelude/Double.antt =====
-- `Number(text)` of a natural number: exact below 2 ^ 53, and else rounded to the nearest multiple that a
-- double has, ties to even. Amounts stay below the greatest double.
use gny.Prelude.Tests.{if◌then◌else◌, ◌==◌, nat_eq, ltb}
use Prim.Native.Nat.{ℕ, zero, suc, ◌+◌, ◌*◌, ◌/◌, ◌%◌, ◌^◌}
use mathlib.Core.Path.{◌≡◌, refl}
use mathlib.Core.Bool.{◌&&◌, ◌||◌}

-- The excess of binary digits over 53, found with fuel.
excess : ℕ → ℕ → ℕ
excess zero n = 0
excess (suc fuel) n =
    let rest = excess fuel (n / 2) in if ltb n 9007199254740992 then 0 else suc rest

abbrev round_to : ℕ → ℕ → ℕ
round_to n unit =
    if ltb unit (2 * (n % unit)) || (2 * (n % unit) == unit && (n / unit) % 2 == 1)
    then (n / unit + 1) * unit
    else n / unit * unit

unfoldable pub to_double : ℕ → ℕ
unfolding excess
to_double n = if ltb n 9007199254740992 then n else round_to n (2 ^ excess 1024 n)

to_double_test : to_double 9007199254740993 ≡ 9007199254740992
unfolding to_double excess
to_double_test = refl
