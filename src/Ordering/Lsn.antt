-- ===== src/Ordering/Lsn.antt =====
-- src/changebridge/cdc_ordering.py: `parse_lsn` and `normalize_lsn`. A text is read by the codes of
-- its characters; the regular expression is a run of one to eight hexadecimal digits, a slash and
-- another such run. The halves do not overlap, so that `|` is a sum.
use Prim.Native.Char.{Char, char, code, IsScalar}
use changebridge_cdc_migrati.Base.{
  ℕ, zero, suc, ◌+◌, ◌-◌, String, Bool, true, false, ◌&&◌, Option, none, some, List, [], ◌∷◌, arith,
}
use Prim.Native.Nat.{◌*◌, ◌/◌, ◌%◌, ◌^◌}
use changebridge_cdc_migrati.Base.Tests.{if◌then◌else◌, ltb, leb}
use changebridge_cdc_migrati.Base.Key.{◌==◌, number_key}

-- the code points of a text
abbrev pub codes : String → List ℕ
codes String.[] = []
codes (String.◌∷◌ c s) = code c ∷ codes s

-- int(digit, 16), of [0-9A-Fa-f]
unfoldable pub hex_value : ℕ → Option ℕ
hex_value c =
    if leb 48 c && leb c 57
    then some (c - 48)
    else if leb 65 c && leb c 70
    then some (c - 55)
    else if leb 97 c && leb c 102
    then some (c - 87)
    else none

pub record Run : Type 0 where
  pub count : ℕ
  pub value : ℕ
  pub rest : List ℕ

-- the longest run of hexadecimal digits, and what follows it
unfoldable pub hex_run : ℕ → ℕ → List ℕ → Run
unfolding hex_value
hex_run n value [] = record { count = n; value = value; rest = [] }
hex_run n value (c ∷ s) = elim (hex_value c) [
  | none ↦ record { count = n; value = value; rest = c ∷ s }
  | some d ↦ hex_run (n + 1) (value * 16 + d) s
]

-- {1,8}
abbrev pub is_half : Run → Bool
is_half r = leb 1 r.count && leb r.count 8

abbrev pub low_half : ℕ → Run → Option ℕ
low_half high low = elim low.rest [
  | [] ↦ if is_half low then some (high * 2 ^ 32 + low.value) else none
  | c ∷ s ↦ none
]

-- what follows the first run
unfoldable pub after_high : ℕ → Bool → List ℕ → Option ℕ
unfolding hex_run
after_high high half [] = none
after_high high half (c ∷ s) = if half && c == 47 then low_half high (hex_run 0 0 s) else none

unfoldable pub parse_codes : List ℕ → Option ℕ
unfolding hex_run after_high
parse_codes s = let high = hex_run 0 0 s in after_high high.value (is_half high) high.rest

unfoldable pub parse_lsn : String → Option ℕ
unfolding parse_codes
parse_lsn text = parse_codes (codes text)

abbrev pub hex_code : ℕ → ℕ
hex_code d = if ltb d 10 then 48 + d else 55 + d

pub hex_code-IsScalar : (n : ℕ) → IsScalar (hex_code (n % 16))
hex_code-IsScalar n = ground arith

-- the last digit of a number in hexadecimal, upper case
unfoldable pub hex_char : ℕ → Char
hex_char n = char (hex_code (n % 16)) (hex_code-IsScalar n)

-- the digits of a number, before `out`; a number below 16 ^ fuel is written whole
unfoldable pub emit : ℕ → ℕ → String → String
unfolding hex_char
emit zero n out = out
emit (suc fuel) n out = elim (n == 0) [
  | true ↦ out
  | false ↦ emit fuel (n / 16) (String.◌∷◌ (hex_char n) out)
]

-- f"{n:X}" before `out`, of a number of at most eight digits
unfoldable pub print_hex : ℕ → String → String
unfolding emit
print_hex n out = if n == 0 then String.◌∷◌ "0" out else emit 8 n out

unfoldable pub print_lsn : ℕ → String
unfolding print_hex
print_lsn n = print_hex (n / 2 ^ 32) (String.◌∷◌ "/" (print_hex (n % 2 ^ 32) ""))

unfoldable pub normalize_lsn : String → Option String
unfolding parse_lsn print_lsn
normalize_lsn text = elim (parse_lsn text) [ none ↦ none | some n ↦ some (print_lsn n) ]
