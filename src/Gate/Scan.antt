-- ===== src/Gate/Scan.antt =====
-- `secret_scan` of store/gate.py. It returns labels, never what it matched.
use knokeep.Prelude.{
  ℕ, suc, ◌+◌, ◌-◌, ◌*◌, Text, Bytes, codes, text_eq, Bool, true, false, not, ◌||◌, ◌&&◌, Option,
  none, some, List, [], ◌∷◌, ◌++◌, take, length, leb, ltb, ◌==◌, any, all, if◌then◌else◌,
  utf8_encode,
}
use knokeep.Gate.Platform.{Platform, utf8_decode}
use knokeep.Gate.Regex.{Match, is_empty, matches, match_start, find_all, group_text, matched_text}
use knokeep.Gate.Patterns.{
  is_upper, is_lower, is_digit, Pattern, all_prefix_patterns, pem_re, cred_uri_re, token_re,
}
use knokeep.Gate.Assignments.{
  assign_re, placeholder_re, env_ref_re, getenv_re, getenv_literal_re, bearer_re,
}

abbrev pub max_scan_bytes : ℕ
max_scan_bytes = 8 * 1024 * 1024

-- `counts` of `_shannon_entropy`
count_char : ℕ → List (ℕ × ℕ) → List (ℕ × ℕ)
count_char c [] = (c, 1) ∷ []
count_char c ((d, n) ∷ counts) =
    if d == c then (d, n + 1) ∷ counts else (d, n) ∷ count_char c counts

char_counts : List (ℕ × ℕ) → Text → List (ℕ × ℕ)
unfolding count_char
char_counts counts [] = counts
char_counts counts (c ∷ s) = char_counts (count_char c counts) s

-- `_looks_like_plain_hex`
unfoldable pub looks_like_plain_hex : Text → Bool
looks_like_plain_hex tok =
    not (is_empty tok)
    && all (λ c. is_digit c || ((leb b'a' c && leb c b'f') || (leb b'A' c && leb c b'F'))) tok

-- `text.replace(c, "")` for one character
remove_char : ℕ → Text → Text
remove_char c [] = []
remove_char c (d ∷ s) = let rest = remove_char c s in if d == c then rest else d ∷ rest

drop_format : (ℕ → Bool) → Text → Text
drop_format f [] = []
drop_format f (c ∷ s) = let rest = drop_format f s in if f c then rest else c ∷ rest

-- the index of a character in a text
find_char : ℕ → Text → Option ℕ
find_char c [] = none
find_char c (d ∷ s) =
    let later = find_char c s in
    if d == c then some 0 else elim later [ none ↦ none | some i ↦ some (suc i) ]

unfoldable pub contains_label : Text → List Text → Bool
contains_label l [] = false
contains_label l (x ∷ seen) = text_eq x l || contains_label l seen

-- The loops that keep the first of equal labels, in order.
unfoldable pub dedupe_onto : List Text → List Text → List Text
unfolding contains_label
dedupe_onto seen [] = seen
dedupe_onto seen (l ∷ labels) =
    dedupe_onto (if contains_label l seen then seen else seen ++ (l ∷ [])) labels

unfoldable pub dedupe : List Text → List Text
unfolding dedupe_onto
dedupe labels = dedupe_onto [] labels

-- One pass of the byte patterns over one view.
unfoldable pub pattern_labels : List Pattern → Bytes → List Text
pattern_labels [] view = []
pattern_labels (pat ∷ pats) view =
    let rest = pattern_labels pats view in if matches pat.re view then pat.label ∷ rest else rest

unfoldable pub view_labels : Bytes → List Text
unfolding pattern_labels
view_labels view =
    pattern_labels all_prefix_patterns view
    ++ ((if matches pem_re view then codes "PEM private key" ∷ [] else [])
        ++ (if matches cred_uri_re view then codes "credential URI" ∷ [] else []))

unfoldable pub views_labels : List Bytes → List Text
unfolding view_labels
views_labels [] = []
views_labels (v ∷ views) = view_labels v ++ views_labels views

module _ (p : Platform) where
  entropy_sum : p.Float → p.Float → List (ℕ × ℕ) → p.Float
  entropy_sum n acc [] = acc
  entropy_sum n acc ((c, k) ∷ counts) =
      let q = p.float_div (p.float k) n in
      entropy_sum n (p.float_sub acc (p.float_mul q (p.log2 q))) counts

  shannon_entropy : Text → p.Float
  unfolding entropy_sum char_counts
  shannon_entropy [] = p.float 0
  shannon_entropy s = entropy_sum (p.float (length s)) (p.float 0) (char_counts [] s)

  -- tenths, as 3.5 and 3.3 are written
  abbrev entropy_ge : Text → ℕ → Bool
  entropy_ge s tenths = p.float_ge (shannon_entropy s) (p.float_div (p.float tenths) (p.float 10))

  unfoldable pub normalize_text : Text → Text
  unfolding drop_format
  normalize_text s = drop_format p.is_format (p.nfkc s)

  -- `_normalize_bytes`
  normalize_bytes : Bytes → Option Bytes
  normalize_bytes raw = elim (utf8_decode raw) [
    | none ↦ none
    | some s ↦ let nb = utf8_encode (normalize_text s) in if text_eq nb raw then none else some nb
  ]

  unfoldable pub value_is_credential_like : Text → Bool → Bool
  unfolding shannon_entropy
  value_is_credential_like val quoted =
      let mixed = any p.isupper val && any p.islower val in
      let has_digit = any p.isdigit val in
      if is_empty val || (match_start (placeholder_re p) val || match_start (env_ref_re p) val)
      then false
      else if any (λ pat. matches pat.re (utf8_encode val)) all_prefix_patterns
      then true
      else if leb 12 (length val)
          && (entropy_ge val 35 && ((mixed || has_digit) && not (looks_like_plain_hex val)))
      then true
      else quoted && (leb 8 (length val) && (entropy_ge val 33 && (mixed || has_digit)))

  -- The text of this getenv call: up to its closing bracket, or 256 characters more.
  getenv_segment : Match → Text
  unfolding find_char
  getenv_segment m =
      let width = length m.from.after - length m.to.after in
      take (elim (find_char b')' m.to.after) [ some i ↦ width + i + 1 | none ↦ width + 256 ])
        m.from.after

  abbrev or_empty : Option Text → Text
  or_empty none = []
  or_empty (some t) = t

  assignment_label : Match → Text
  unfolding remove_char
  assignment_label m =
      codes "secret assignment ("
      ++ (remove_char b' ' (p.lower (or_empty (group_text 1 m))) ++ codes ")")

  abbrev is_some : Option Text → Bool
  is_some none = false
  is_some (some t) = true

  abbrev or_else : Option Text → Option Text → Option Text
  or_else none o = o
  or_else (some t) o = some t

  -- One round of `_scan_assignments`: `some` is the label with which the loop breaks.
  assignment_round : Match → Option Text
  unfolding getenv_segment assignment_label
  assignment_round m =
      let qv = or_else (group_text 2 m) (group_text 3 m) in
      let quoted = is_some qv in
      let val = or_empty (if quoted then qv else group_text 4 m) in
      if not quoted && matches (getenv_re p) val
      then (if matches getenv_literal_re (getenv_segment m)
          then some (codes "secret assignment (getenv-fallback)")
          else none)
      else if value_is_credential_like val quoted
      then some (assignment_label m)
      else none

  scan_matches : List Match → List Text
  unfolding assignment_round
  scan_matches [] = []
  scan_matches (m ∷ ms) =
      let rest = scan_matches ms in elim (assignment_round m) [ some l ↦ l ∷ [] | none ↦ rest ]

  unfoldable pub scan_assignments : Text → List Text
  unfolding scan_matches
  scan_assignments s = scan_matches (find_all assign_re s)

  unfoldable pub scan_normalized_text : Text → List Text
  unfolding scan_assignments
  scan_normalized_text s =
      (if matches bearer_re s then codes "authorization header token" ∷ [] else [])
      ++ scan_assignments s

  -- A long token counts if it is no plain hex, has both cases, and its entropy is high.
  entropy_token : Text → Bool
  unfolding shannon_entropy
  entropy_token tok =
      not (looks_like_plain_hex tok)
      && (any is_upper tok && (any is_lower tok && entropy_ge tok 35))

  entropy_labels : Bytes → List Text
  unfolding entropy_token
  entropy_labels raw =
      if any (λ m. entropy_token (matched_text m)) (find_all token_re raw)
      then codes "high-entropy token" ∷ []
      else []

  unfoldable pub scan_views : Bytes → List Bytes
  unfolding normalize_bytes remove_char
  scan_views raw =
      raw
      ∷ (elim (normalize_bytes raw) [ none ↦ [] | some nb ↦ nb ∷ [] ]
          ++ (if any (λ c. c == 0) raw then remove_char 0 raw ∷ [] else []))

  text_labels : Bytes → List Text
  text_labels raw = elim (utf8_decode raw) [
    | none ↦ []
    | some s ↦ scan_normalized_text (normalize_text s)
  ]

  unfoldable pub all_labels : Bytes → List Text
  unfolding entropy_labels text_labels
  all_labels raw = views_labels (scan_views raw) ++ (entropy_labels raw ++ text_labels raw)

  -- `none` is the `ValueError` of an input that is too long.
  unfoldable pub secret_scan : Bytes → Option (List Text)
  secret_scan raw = if ltb max_scan_bytes (length raw) then none else some (dedupe (all_labels raw))
