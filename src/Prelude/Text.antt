-- ===== src/Prelude/Text.antt =====
-- The functions of Go's `strings` package that the program calls on whole texts.
use Prim.Native.Nat.{ℕ, zero, suc, ◌-◌, ◌%◌, ◌/◌}
use Prim.Native.Char.{Char, code}
use Prim.Native.String.{String, [], ◌∷◌, char_at}
use mathlib.Core.Bool.{Bool, ◌&&◌, ◌||◌}
use text.Mathlib.Text.{◌==◌, starts_with}
use openpostfork.Prelude.Tests.{ltb, leb, eqb, if◌then◌else◌}

-- `unicode.IsSpace`.
abbrev pub is_space : ℕ → Bool
is_space n =
    (leb 9 n && leb n 13)
    || eqb n 32
    || eqb n 0x85
    || eqb n 0xa0
    || eqb n 0x1680
    || (leb 0x2000 n && leb n 0x200a)
    || eqb n 0x2028
    || eqb n 0x2029
    || eqb n 0x202f
    || eqb n 0x205f
    || eqb n 0x3000

trim_left : String → String
trim_left [] = []
trim_left (c ∷ s) = let rest = trim_left s in if is_space (code c) then rest else c ∷ s

trim_right : String → String
trim_right [] = []
trim_right (c ∷ s) =
    let rest = trim_right s in if is_space (code c) && rest == "" then "" else c ∷ rest

-- `strings.TrimSpace`.
unfoldable pub trim_space : String → String
unfolding trim_left trim_right
trim_space s = trim_right (trim_left s)

-- Upper case letters whose lower case is an ASCII letter; the program compares the results with
-- ASCII texts alone, and other letters are left as they are.
abbrev lower : Char → Char
lower c =
    if leb b'A' (code c) && leb (code c) b'Z'
    then char_at "abcdefghijklmnopqrstuvwxyz" (code c - b'A')
    else if eqb (code c) 0x212a
    then "k"
    else if eqb (code c) 0x130
    then "i"
    else c

-- `strings.ToLower`.
unfoldable pub to_lower : String → String
to_lower [] = []
to_lower (c ∷ s) = lower c ∷ to_lower s

-- `strings.Contains`.
unfoldable pub contains : String → String → Bool
contains [] sub = sub == ""
contains (c ∷ s) sub = starts_with (c ∷ s) sub || contains s sub

-- `%d` of a number below 10 ^ fuel.
unfoldable pub decimal_from : ℕ → ℕ → String → String
decimal_from zero n tail = tail
decimal_from (suc fuel) n tail =
    let here = char_at "0123456789" (n % 10) ∷ tail in
    let rest = decimal_from fuel (n / 10) here in if ltb n 10 then here else rest

-- `%d` of the absolute value of an int64.
unfoldable pub decimal : ℕ → String
unfolding decimal_from
decimal n = decimal_from 20 n ""

-- Letters whose upper case is an ASCII letter; others are left as they are.
abbrev upper : Char → Char
upper c =
    if leb b'a' (code c) && leb (code c) b'z'
    then char_at "ABCDEFGHIJKLMNOPQRSTUVWXYZ" (code c - b'a')
    else if eqb (code c) 0x131
    then "I"
    else if eqb (code c) 0x17f
    then "S"
    else c

-- `strings.ToUpper`.
unfoldable pub to_upper : String → String
to_upper [] = []
to_upper (c ∷ s) = upper c ∷ to_upper s
