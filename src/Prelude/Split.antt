-- ===== src/Prelude/Split.antt =====
-- Go's `strings` and `strconv` where a service takes a text apart or prints a number in it. A number
-- is below 2 ^ 63, as an `int` of 64 bits is.
pub mod Laws
pub mod Parts
use Prim.Native.Nat.{ℕ, zero, suc, ◌+◌, ◌-◌, ◌*◌, ◌/◌, ◌%◌, ◌^◌}
use Prim.Native.Char.{Char, code}
use Prim.Native.String.{String, char_at}
use mathlib.Core.Bool.{Bool, true, false, ◌&&◌, ◌||◌}
use mathlib.Core.Option.{Option, none, some}
use mathlib.Core.List.{List, [], ◌∷◌}
use forge_eng_fabric.Prelude.Tests.{ltb, leb, ◌==◌, nat_eq, string_eq, if◌then◌else◌}
use forge_eng_fabric.Prelude.Text.{◌+s◌}
use forge_eng_fabric.Prelude.Int.{ℤ, pos, negsuc}

-- `s[:i]` and `s[i+1:]` where `i` is strings.Index(s, sep), for a separator of one character
unfoldable pub cut : ℕ → String → Option (String × String)
cut sep String.[] = none
cut sep (String.◌∷◌ c s) =
    let rest : Option (String × String) = elim (cut sep s) [
      | none ↦ none
      | some (l, r) ↦ some (String.◌∷◌ c l, r)
    ] in
    if code c == sep then some (String.[], s) else rest

-- The text before the first separator and the text after it, or else all of it.
unfoldable pub cut_off : ℕ → String → String × String
cut_off sep s = elim (cut sep s) as (λ _. String × String) [ none ↦ (s, "") | some (l, r) ↦ (l, r) ]

-- the same as `cut` at strings.LastIndex(s, sep)
unfoldable pub cut_last : ℕ → String → Option (String × String)
cut_last sep String.[] = none
cut_last sep (String.◌∷◌ c s) = elim (cut_last sep s) [
  | some (l, r) ↦ some (String.◌∷◌ c l, r)
  | none ↦ if code c == sep then some (String.[], s) else none
]

-- strings.Split(s, sep): the parts, the first of them and the others.
unfoldable pub parts : ℕ → String → String × List String
parts sep String.[] = (String.[], [])
parts sep (String.◌∷◌ c s) =
    let (p, rest) = parts sep s in
    if code c == sep then (String.[], p ∷ rest) else (String.◌∷◌ c p, rest)

unfoldable pub split : ℕ → String → List String
unfolding parts
split sep s = let (p, rest) = parts sep s in p ∷ rest

-- strings.TrimPrefix, where the text has the prefix; it is otherwise left as it is.
unfoldable pub strip : String → String → Option String
strip s String.[] = some s
strip String.[] (String.◌∷◌ d p) = none
strip (String.◌∷◌ c s) (String.◌∷◌ d p) = if code c == code d then strip s p else none

abbrev pub digit : ℕ → Char
digit d = char_at "0123456789" d

-- `%d` of a number that is not negative, by its digits; `n` steps are enough for the digits of `n`.
unfoldable pub digits : ℕ → ℕ → String
digits zero n = String.[]
digits (suc f) n =
    let lower = digits f (n / 10) +s String.◌∷◌ (digit (n % 10)) String.[] in
    if ltb n 10 then String.◌∷◌ (digit n) String.[] else lower

unfoldable pub decimal : ℕ → String
unfolding digits
decimal n = digits (suc n) n

-- `%d`
unfoldable pub decimal_int : ℤ → String
unfolding decimal
decimal_int (pos n) = decimal n
decimal_int (negsuc n) = "-" +s decimal (suc n)

abbrev pub is_digit : Char → Bool
is_digit c = leb 48 (code c) && leb (code c) 57

unfoldable pub read_digits : ℕ → String → Option ℕ
read_digits acc String.[] = some acc
read_digits acc (String.◌∷◌ c s) =
    let rest = read_digits (acc * 10 + (code c - 48)) s in if is_digit c then rest else none

unfoldable pub read_number : String → Option ℕ
unfolding read_digits
read_number String.[] = none
read_number (String.◌∷◌ c s) = read_digits 0 (String.◌∷◌ c s)

abbrev pub max_int : ℕ
max_int = 2 ^ 63 - 1

-- A number with its sign, in the range of an `int`.
unfoldable pub signed : Bool → Option ℕ → Option ℤ
signed negative none = none
signed true (some n) =
    if leb n (suc max_int) then (if n == 0 then some (pos 0) else some (negsuc (n - 1))) else none
signed false (some n) = if leb n max_int then some (pos n) else none

-- strconv.Atoi; `none` is its error.
unfoldable pub atoi : String → Option ℤ
unfolding read_number signed
atoi String.[] = none
atoi (String.◌∷◌ c s) =
    if code c == 45
    then signed true (read_number s)
    else if code c == 43
    then signed false (read_number s)
    else signed false (read_number (String.◌∷◌ c s))

escaped : Char → String → String
escaped c s =
    if code c == 34 || code c == 92
    then String.◌∷◌ (char_at "\\" 0) (String.◌∷◌ c s)
    else if code c == 10
    then "\\n" +s s
    else if code c == 9
    then "\\t" +s s
    else String.◌∷◌ c s

quoted_body : String → String
unfolding escaped
quoted_body String.[] = "\""
quoted_body (String.◌∷◌ c s) = escaped c (quoted_body s)

-- `%q`, of a text whose characters can be printed or are a tab or the end of a line
unfoldable pub quoted : String → String
unfolding quoted_body
quoted s = "\"" +s quoted_body s
