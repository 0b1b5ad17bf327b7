-- ===== src/Gate/Platform.antt =====
-- What store/gate.py takes from Python: floats, the Unicode tables, strict UTF-8 decoding, and the
-- case folding of `re.IGNORECASE`.
use knokeep.Prelude.{
  ℕ, zero, suc, ◌+◌, ◌-◌, ◌*◌, Text, Bytes, Bool, ◌&&◌, ◌||◌, Option, none, some, [], ◌∷◌, leb, ltb,
  ◌==◌, if◌then◌else◌, refl, arith, IsAscii, ◌≡◌,
}

-- Floats and Unicode tables are Python's own, and stay parameters.
pub record Platform : Type 1 where
  pub Float : Type 0
  pub float : ℕ → Float
  pub float_sub : Float → Float → Float
  pub float_mul : Float → Float → Float
  pub float_div : Float → Float → Float
  pub log2 : Float → Float
  pub float_ge : Float → Float → Bool
  pub nfkc : Text → Text
  pub lower : Text → Text
  -- the category is `Cf`
  pub is_format : ℕ → Bool
  pub isprintable : ℕ → Bool
  pub isupper : ℕ → Bool
  pub islower : ℕ → Bool
  pub isdigit : ℕ → Bool
  pub isalnum : ℕ → Bool

-- How a UTF-8 sequence goes on after its first byte: the bytes to come, the bits so far, and the
-- range of the next byte.
record Lead : Type 0 where
  need : ℕ
  bits : ℕ
  low : ℕ
  high : ℕ

lead : ℕ → Option Lead
lead a =
    if ltb a 0x80
    then some (record { need = 0; bits = a; low = 0; high = 0 })
    else if leb 0xc2 a && leb a 0xdf
    then some (record { need = 1; bits = a - 0xc0; low = 0x80; high = 0xbf })
    else if a == 0xe0
    then some (record { need = 2; bits = 0; low = 0xa0; high = 0xbf })
    else if a == 0xed
    then some (record { need = 2; bits = 0xd; low = 0x80; high = 0x9f })
    else if leb 0xe1 a && leb a 0xef
    then some (record { need = 2; bits = a - 0xe0; low = 0x80; high = 0xbf })
    else if a == 0xf0
    then some (record { need = 3; bits = 0; low = 0x90; high = 0xbf })
    else if leb 0xf1 a && leb a 0xf3
    then some (record { need = 3; bits = a - 0xf0; low = 0x80; high = 0xbf })
    else if a == 0xf4
    then some (record { need = 3; bits = 4; low = 0x80; high = 0x8f })
    else none

-- A finished code point goes in front of the rest.
emit : ℕ → ℕ → Option Text → Option Text
emit zero c rest = elim rest [ none ↦ none | some s ↦ some (c ∷ s) ]
emit (suc n) c rest = rest

decode_from : ℕ → ℕ → ℕ → ℕ → Bytes → Option Text
unfolding emit lead
decode_from zero bits low high [] = some []
decode_from (suc n) bits low high [] = none
decode_from zero bits low high (a ∷ s) = elim (lead a) [
  | none ↦ none
  | some l ↦ emit l.need l.bits (decode_from l.need l.bits l.low l.high s)
]
decode_from (suc n) bits low high (b ∷ s) =
    let c = bits * 64 + (b - 0x80) in
    let rest = emit n c (decode_from n c 0x80 0xbf s) in
    if leb low b && leb b high then rest else none

-- `raw.decode("utf-8")`, where `none` is a `UnicodeDecodeError`
unfoldable pub utf8_decode : Bytes → Option Text
unfolding decode_from
utf8_decode raw = decode_from 0 0 0 0 raw

decode_from-ascii :
    (bits low high : ℕ) (s : Text) → IsAscii s → decode_from zero bits low high s ≡ some s
unfolding decode_from lead emit
decode_from-ascii bits low high [] h = refl
decode_from-ascii bits low high (c ∷ s) h = ground (arith, decode_from-ascii c 0 0 s h.1)

-- ASCII bytes decode to themselves.
pub utf8_decode-ascii : (s : Text) → IsAscii s → utf8_decode s ≡ some s
utf8_decode-ascii s h = unfold utf8_decode in decode_from-ascii 0 0 0 s h

-- Under `re.IGNORECASE` a character of a text pattern stands for all that fold to it.
abbrev pub fold_case : ℕ → ℕ
fold_case c =
    if leb b'A' c && leb c b'Z'
    then c + 32
    else if c == 0x130 || c == 0x131
    then b'i'
    else if c == 0x17f
    then b's'
    else if c == 0x212a
    then b'k'
    else c

-- `str.isspace`, and `\s` in a text pattern
abbrev pub is_space : ℕ → Bool
is_space c =
    (leb 9 c && leb c 13)
    || ((leb 28 c && leb c 32)
        || (c == 0x85
            || (c == 0xa0
                || (c == 0x1680
                    || ((leb 0x2000 c && leb c 0x200a)
                        || (c == 0x2028
                            || (c == 0x2029 || (c == 0x202f || (c == 0x205f || c == 0x3000)))))))))
