-- ===== src/Prelude/Text.antt =====
-- `split` of a text at a one-character separator, which is given by its code point.
use Prim.Native.Nat.{ℕ, zero, suc, ◌+◌, ◌*◌, ◌-◌, ◌/◌}
use Prim.Native.Char.{Char, code}
use Prim.Native.String.{String}
use mathlib.Core.Path.{◌≡◌, refl}
use mathlib.Core.Bool.{◌&&◌}
use mathlib.Core.Option.{Option, none, some}
use mathlib.Core.List.{List, [], ◌∷◌}
use gny.Prelude.Tests.{if◌then◌else◌, ◌==◌, nat_eq, ltb, leb}

-- One more character in front of the first part.
push_front : Char → List String → List String
push_front c [] = String.◌∷◌ c String.[] ∷ []
push_front c (part ∷ parts) = String.◌∷◌ c part ∷ parts

-- `text.split(separator)`
unfoldable pub split : ℕ → String → List String
unfolding push_front
split separator String.[] = String.[] ∷ []
split separator (String.◌∷◌ c s) =
    let rest = split separator s in
    if code c == separator then String.[] ∷ rest else push_front c rest

split_test : split b':' "10.0.0.1:4096" ≡ "10.0.0.1" ∷ "4096" ∷ []
unfolding split
split_test = refl

-- `text.length`, which counts the units of UTF-16: a character above U+FFFF has two.
unfoldable pub utf16_length : String → ℕ
utf16_length String.[] = 0
utf16_length (String.◌∷◌ c s) =
    let rest = utf16_length s in if ltb (code c) 65536 then suc rest else suc (suc rest)

digits_value : ℕ → String → Option ℕ
digits_value n String.[] = some n
digits_value n (String.◌∷◌ c s) =
    let rest = digits_value (n * 10 + (code c - b'0')) s in
    if leb b'0' (code c) && leb (code c) b'9' then rest else none

-- The number a text matching `^[1-9][0-9]*$` writes.
unfoldable pub parse_positive : String → Option ℕ
unfolding digits_value
parse_positive String.[] = none
parse_positive (String.◌∷◌ c s) = if code c == b'0' then none else digits_value 0 (String.◌∷◌ c s)

unfoldable pub digits_upto : ℕ → ℕ → ℕ
digits_upto zero n = 1
digits_upto (suc fuel) n = let rest = digits_upto fuel (n / 10) in if ltb n 10 then 1 else suc rest

-- How many decimal digits a number is written with.
unfoldable pub decimal_digits : ℕ → ℕ
unfolding digits_upto
decimal_digits n = digits_upto n n

parse_positive_test :
    (parse_positive "1203" ≡ some 1203) × (parse_positive "07" ≡ none) × (decimal_digits 1203 ≡ 4)
unfolding parse_positive digits_value decimal_digits digits_upto
parse_positive_test = (refl, refl, refl)
