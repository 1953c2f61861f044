-- ===== src/Prelude/Words.antt =====
-- Go's `strings.Fields`, `strconv.ParseInt` in base ten on 64 bits, and trimming at the ends.
use Prim.Native.Nat.{ℕ, ◌+◌, ◌-◌, ◌*◌, ◌^◌}
use Prim.Native.Char.{code}
use Prim.Native.String.{String, len, slice}
use Prim.Native.String.{[] as end, ◌∷◌ as push}
use mathlib.Core.Bool.{◌&&◌}
use mathlib.Core.Option.{Option, none, some}
use mathlib.Core.List.{List, [], ◌∷◌}
use text.Mathlib.Text.{◌==◌, starts_with}
use openpostfork.Prelude.Tests.{ltb, leb, eqb, if◌then◌else◌}
use openpostfork.Prelude.Text.{is_space}
use openpostfork.Prelude.Int.{ℤ, pos, negsuc}

abbrev add_word : String → List String → List String
add_word w ws = if w == "" then ws else w ∷ ws

-- The word at the front of a text, and the words after it.
words : String → String × List String
words end = ("", [])
words (push c s) =
    let (w, ws) = words s in if is_space (code c) then ("", add_word w ws) else (push c w, ws)

unfoldable pub fields : String → List String
unfolding words
fields s = let (w, ws) = words s in add_word w ws

abbrev pub next_digit : ℕ → ℕ → Option ℕ
next_digit c n = if leb b'0' c && leb c b'9' then some (10 * n + (c - b'0')) else none

unfoldable pub digits : Option ℕ → String → Option ℕ
digits none s = none
digits (some n) end = some n
digits (some n) (push c s) = digits (next_digit (code c) n) s

abbrev positive : Option ℕ → Option ℤ
positive none = none
positive (some n) = if ltb n (2 ^ 63) then some (pos n) else none

abbrev negative : Option ℕ → Option ℤ
negative none = none
negative (some n) =
    if eqb n 0 then some (pos 0) else if leb n (2 ^ 63) then some (negsuc (n - 1)) else none

abbrev unsigned : String → Option ℕ
unsigned s = if s == "" then none else digits (some 0) s

-- `strconv.ParseInt(s, 10, 64)`; `none` is its error.
unfoldable pub parse_int : String → Option ℤ
unfolding digits
parse_int s =
    if starts_with s "-"
    then negative (unsigned (slice s 1 (len s)))
    else if starts_with s "+"
    then positive (unsigned (slice s 1 (len s)))
    else positive (unsigned s)
