-- ===== src/Prelude/Text.antt =====
-- Python `str` as the native text: whitespace tests, `split` and `join`.
use Prim.Native.Nat.{ℕ, zero, suc, ◌/◌, ◌%◌}
use Prim.Native.Char.{Char, code}
use Prim.Native.String.{String, ◌++◌}
use mathlib.Core.Bool.{Bool, true, false, ◌&&◌, ◌||◌}
use mathlib.Core.List.{List, [], ◌∷◌}
use invoice_ops.Prelude.Tests.{leb, ◌==◌, if◌then◌else◌}

-- `str.isspace` on one character: the code points that `str.split` and `str.strip` take for space.
unfoldable pub is_space : ℕ → Bool
is_space c =
    (leb 9 c && leb c 13)
    || (leb 28 c && leb c 32)
    || c == 0x85
    || c == 0xa0
    || c == 0x1680
    || (leb 0x2000 c && leb c 0x200a)
    || c == 0x2028
    || c == 0x2029
    || c == 0x202f
    || c == 0x205f
    || c == 0x3000

-- `not s.strip()`: nothing but whitespace.
unfoldable pub is_blank : String → Bool
unfolding is_space
is_blank String.[] = true
is_blank (String.◌∷◌ c s) = is_space (code c) && is_blank s

-- `not s`
unfoldable pub is_empty_text : String → Bool
is_empty_text String.[] = true
is_empty_text (String.◌∷◌ c s) = false

-- A word in front of the words of the rest: `fresh` says that a space stood between.
abbrev extend : Char → Bool → List String → List String
extend c true ws = (String.◌∷◌ c String.[]) ∷ ws
extend c false [] = (String.◌∷◌ c String.[]) ∷ []
extend c false (w ∷ ws) = String.◌∷◌ c w ∷ ws

starts_with_space : String → Bool
unfolding is_space
starts_with_space String.[] = true
starts_with_space (String.◌∷◌ c s) = is_space (code c)

-- `s.split()`: the runs of characters that are no whitespace.
unfoldable pub split : String → List String
unfolding is_space starts_with_space
split String.[] = []
split (String.◌∷◌ c s) =
    let ws = split s in if is_space (code c) then ws else extend c (starts_with_space s) ws

-- `sep.join(words)`
unfoldable pub join : String → List String → String
join sep [] = ""
join sep (w ∷ []) = w
join sep (w ∷ v ∷ ws) = w ++ (sep ++ join sep (v ∷ ws))

abbrev digit : ℕ → String
digit d =
    if d == 0
    then "0"
    else if d == 1
    then "1"
    else if d == 2
    then "2"
    else if d == 3
    then "3"
    else if d == 4
    then "4"
    else if d == 5
    then "5"
    else if d == 6
    then "6"
    else if d == 7
    then "7"
    else if d == 8
    then "8"
    else "9"

decimal_text : ℕ → ℕ → String
decimal_text zero n = ""
decimal_text (suc fuel) n = elim (leb n 9) [
  | true ↦ digit n
  | false ↦ decimal_text fuel (n / 10) ++ digit (n % 10)
]

-- `str(n)`: the fuel exceeds the number of digits.
unfoldable pub show : ℕ → String
unfolding decimal_text
show n = decimal_text (suc n) n
