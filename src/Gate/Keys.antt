-- ===== src/Gate/Keys.antt =====
-- `_valid_key_shape` of store/gate.py: the key-name allowlist.
use knokeep.Prelude.{
  ℕ, ◌-◌, Text, codes, text_eq, Bool, true, false, not, ◌||◌, ◌&&◌, List, [], ◌∷◌, ◌++◌, take, drop,
  length, leb, ltb, ◌==◌, all, if◌then◌else◌,
}
use mathlib.Core.List.{map, reverse}
use knokeep.Gate.Platform.{is_space}
use knokeep.Gate.Patterns.{is_alnum, is_digit, is_lower, one_of}
use knokeep.Gate.Regex.{is_empty}

abbrev pub max_key_len : ℕ
max_key_len = 1024

abbrev pub max_segment_len : ℕ
max_segment_len = 255

-- `[A-Za-z0-9._/-]`
abbrev pub key_char : ℕ → Bool
key_char c = is_alnum c || one_of (codes "._/-") c

unfoldable pub starts_with : Text → Text → Bool
starts_with [] s = true
starts_with (c ∷ p) [] = false
starts_with (c ∷ p) (d ∷ s) = (c == d) && starts_with p s

-- `needle in s`
unfoldable pub contains : Text → Text → Bool
unfolding starts_with
contains needle [] = starts_with needle []
contains needle (c ∷ s) = starts_with needle (c ∷ s) || contains needle s

last_in : (ℕ → Bool) → Text → Bool
last_in p [] = false
last_in p (c ∷ []) = p c
last_in p (c ∷ d ∷ s) = last_in p (d ∷ s)

-- `s.endswith(c)` for one character
unfoldable pub ends_with_char : ℕ → Text → Bool
unfolding last_in
ends_with_char c s = last_in (λ d. c == d) s

abbrev head_in : (ℕ → Bool) → Text → Bool
head_in p [] = false
head_in p (c ∷ s) = p c

-- `key != key.strip()`
unfoldable pub has_outer_space : Text → Bool
unfolding last_in
has_outer_space s = head_in is_space s || last_in is_space s

-- `s.split(c)`: the pieces between the separators, at least one.
unfoldable pub split_onto : ℕ → Text → Text → List Text
split_onto c piece [] = reverse piece ∷ []
split_onto c piece (d ∷ s) =
    let cut = reverse piece ∷ split_onto c [] s in
    let longer = split_onto c (d ∷ piece) s in if c == d then cut else longer

unfoldable pub split : ℕ → Text → List Text
unfolding split_onto
split c s = split_onto c [] s

-- `s.split(c, 1)[0]`
unfoldable pub before_char : ℕ → Text → Text
before_char c [] = []
before_char c (d ∷ s) = let rest = before_char c s in if c == d then [] else d ∷ rest

-- `s.upper()`, for the ASCII texts that it is applied to
unfoldable pub ascii_upper : Text → Text
ascii_upper s = map (λ c. if is_lower c then c - 32 else c) s

abbrev numbered : Text → List Text
numbered base = map (λ d. base ++ (d ∷ [])) (codes "123456789")

unfoldable pub ntfs_reserved : List Text
ntfs_reserved =
    codes "CON"
    ∷ codes "PRN"
    ∷ codes "AUX"
    ∷ codes "NUL"
    ∷ (numbered (codes "COM") ++ numbered (codes "LPT"))

member : Text → List Text → Bool
member x [] = false
member x (y ∷ ys) = text_eq y x || member x ys

-- `_RESERVED_KEY_RE`: `.knokeep-fence/`, 64 lower-case hexadecimal digits, `.fence`.
abbrev pub is_hex : ℕ → Bool
is_hex c = is_digit c || (leb b'a' c && leb c b'f')

unfoldable pub is_reserved_key : Text → Bool
unfolding starts_with
is_reserved_key key =
    let name = drop 15 key in
    starts_with (codes ".knokeep-fence/") key
    && (length name == 70 && (all is_hex (take 64 name) && text_eq (drop 64 name) (codes ".fence")))

-- One round of the loop over the segments.
unfoldable pub valid_segment : Text → Bool
unfolding ends_with_char before_char ascii_upper ntfs_reserved member
valid_segment segment = not (
    is_empty segment
    || (ltb max_segment_len (length segment)
        || ((text_eq segment (codes ".") || text_eq segment (codes ".."))
            || ((ends_with_char b'.' segment || ends_with_char b' ' segment)
                || member (ascii_upper (before_char b'.' segment)) ntfs_reserved))))

unfoldable pub valid_key_shape : Text → Bool
unfolding contains ends_with_char has_outer_space is_reserved_key split valid_segment
valid_key_shape key =
    not (
      is_empty key
      || (ltb max_key_len (length key)
          || (has_outer_space key
              || (not (all key_char key)
                  || ((contains (codes "//") key
                        || (head_in (λ c. c == b'/') key || ends_with_char b'/' key))
                      || is_reserved_key key)))))
    && all valid_segment (split b'/' key)
