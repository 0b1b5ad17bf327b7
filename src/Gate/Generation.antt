-- ===== src/Gate/Generation.antt =====
-- The generation header of store/gate.py, and of store/local.py, which has the same pattern:
-- `#knokeep-gen:<uint64>` and a newline.
use knokeep.Prelude.{
  ℕ, zero, suc, ◌+◌, ◌-◌, ◌*◌, ◌/◌, ◌%◌, ◌^◌, Bytes, codes, Bool, false, Option, none, some, [],
  ◌∷◌, ◌++◌, length, leb, ltb, ◌==◌, ◌&&◌, if◌then◌else◌,
}
use knokeep.Gate.Patterns.{is_digit}

abbrev pub uint64_max : ℕ
uint64_max = 2 ^ 64 - 1

-- The digits up to the first other byte, with what follows them.
unfoldable pub span_digits : Bytes → Bytes × Bytes
span_digits [] = ([], [])
span_digits (c ∷ s) =
    let (digits, rest) = span_digits s in if is_digit c then (c ∷ digits, rest) else ([], c ∷ s)

-- `int(...)` of a run of digits
unfoldable pub digits_value : ℕ → Bytes → ℕ
digits_value acc [] = acc
digits_value acc (c ∷ s) = digits_value (acc * 10 + (c - b'0')) s

-- `0|[1-9][0-9]{0,19}`
abbrev pub canonical : Bytes → Bool
canonical [] = false
canonical (c ∷ s) = if c == b'0' then length s == 0 else leb (length s) 19

abbrev newline_first : Bytes → Bool
newline_first [] = false
newline_first (c ∷ s) = c == 10

unfoldable pub strip_prefix : Bytes → Bytes → Option Bytes
strip_prefix [] s = some s
strip_prefix (c ∷ p) [] = none
strip_prefix (c ∷ p) (d ∷ s) = let rest = strip_prefix p s in if c == d then rest else none

abbrev pub gen_prefix : Bytes
gen_prefix = codes "#knokeep-gen:"

unfoldable pub parse_generation : Bytes → Option ℕ
parse_generation s =
    let (digits, rest) = span_digits s in
    let value = digits_value 0 digits in
    if canonical digits && newline_first rest
    then (if ltb uint64_max value then none else some value)
    else none

unfoldable pub extract_generation : Bytes → Option ℕ
extract_generation raw = elim (strip_prefix gen_prefix raw) [
  | none ↦ none
  | some rest ↦ parse_generation rest
]

-- The decimal digits of a number, the last one first built: `fuel` bounds their number.
unfoldable pub digits_onto : ℕ → ℕ → Bytes → Bytes
digits_onto zero n tail = tail
digits_onto (suc fuel) n tail =
    let more = digits_onto fuel (n / 10) ((b'0' + n % 10) ∷ tail) in
    if ltb n 10 then (b'0' + n) ∷ tail else more

-- `str(n)`, for the numbers of at most 20 digits that it is applied to
unfoldable pub decimal : ℕ → Bytes
unfolding digits_onto
decimal n = digits_onto 20 n []

-- `none` is the `ValueError`.
unfoldable pub make_generation_header : ℕ → Option Bytes
make_generation_header generation =
    if ltb uint64_max generation
    then none
    else some (gen_prefix ++ (decimal generation ++ (10 ∷ [])))
