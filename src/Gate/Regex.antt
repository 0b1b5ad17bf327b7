-- ===== src/Gate/Regex.antt =====
-- The part of Python's `re` that store/gate.py uses: a backtracking matcher whose results come in
-- the order in which `re` tries them. Repetition is greedy and over one character class, as in
-- every pattern of the source.
use knokeep.Prelude.{
  ℕ, zero, suc, ◌-◌, Text, Bool, true, false, not, ◌||◌, ◌&&◌, Option, none, some, List, [], ◌∷◌,
  ◌++◌, take, drop, length, ◌==◌, if◌then◌else◌,
}
use mathlib.Core.List.{flat_map}

pub data Re : Type 0 where
  eps : Re
  -- one character of a class
  cls : (ℕ → Bool) → Re
  -- `[..]{lo,}` and `[..]{lo,hi}`
  at_least : (ℕ → Bool) → ℕ → Re
  between : (ℕ → Bool) → ℕ → ℕ → Re
  seq : Re → Re → Re
  alt : Re → Re → Re
  -- a capture group
  group : ℕ → Re → Re
  -- `^`, `$`, `(?<![..])`, `(?!..)` and `\b`
  start_anchor : Re
  end_anchor : Re
  not_behind : (ℕ → Bool) → Re
  not_ahead : Re → Re
  word_end : (ℕ → Bool) → Re

-- Where a match stands: what is before it, reversed, what is after it, and the groups.
pub record Pos : Type 0 where
  pub before : Text
  pub after : Text
  pub groups : List (ℕ × Text)

abbrev pub is_empty {ℓ} : {A : Type ℓ} → List A → Bool
is_empty [] = true
is_empty (x ∷ xs) = false

abbrev pub head_in : (ℕ → Bool) → Text → Bool
head_in p [] = false
head_in p (c ∷ s) = p c

one : (ℕ → Bool) → Text → Pos → List Pos
one p [] pos = []
one p (c ∷ s) pos = if p c then record pos { before = c ∷ pos.before; after = s } ∷ [] else []

-- Every prefix of characters of the class, the longest first, with at least `lo` and at most `hi`
-- of them.
unfoldable pub run_class : (ℕ → Bool) → ℕ → Option ℕ → Text → Pos → List Pos
run_class p zero hi [] pos = pos ∷ []
run_class p (suc lo) hi [] pos = []
run_class p lo (some zero) (c ∷ s) pos = if lo == 0 then pos ∷ [] else []
run_class p lo none (c ∷ s) pos =
    let longer = run_class p (lo - 1) none s (record pos { before = c ∷ pos.before; after = s }) in
    let shorter = if lo == 0 then pos ∷ [] else [] in if p c then longer ++ shorter else shorter
run_class p lo (some (suc hi)) (c ∷ s) pos =
    let longer =
      run_class p (lo - 1) (some hi) s (record pos { before = c ∷ pos.before; after = s }) in
    let shorter = if lo == 0 then pos ∷ [] else [] in if p c then longer ++ shorter else shorter

-- The text between two positions of one match.
unfoldable pub between_text : Pos → Pos → Text
between_text from to = take (length from.after - length to.after) from.after

unfoldable pub close_group : ℕ → Pos → List Pos → List Pos
close_group n from [] = []
close_group n from (to ∷ rest) =
    record to { groups = (n, between_text from to) ∷ to.groups } ∷ close_group n from rest

unfoldable pub keep_if : Bool → Pos → List Pos
keep_if b pos = if b then pos ∷ [] else []

unfoldable pub run : Re → Pos → List Pos
unfolding one close_group keep_if
run eps pos = pos ∷ []
run (cls p) pos = one p pos.after pos
run (at_least p lo) pos = run_class p lo none pos.after pos
run (between p lo hi) pos = run_class p lo (some hi) pos.after pos
run (seq a b) pos = flat_map (run b) (run a pos)
run (alt a b) pos = run a pos ++ run b pos
run (group n a) pos = close_group n pos (run a pos)
run start_anchor pos = keep_if (is_empty pos.before) pos
run end_anchor pos =
    keep_if
      (is_empty pos.after || (head_in (λ c. c == 10) pos.after && is_empty (drop 1 pos.after))) pos
run (not_behind p) pos = keep_if (not (head_in p pos.before)) pos
run (not_ahead a) pos = keep_if (is_empty (run a pos)) pos
run (word_end p) pos = keep_if (not (head_in p pos.after)) pos

abbrev pub at_start : Text → Pos
at_start s = record { before = []; after = s; groups = [] }

-- A match, from its first position to its last.
pub record Match : Type 0 where
  pub from : Pos
  pub to : Pos

unfoldable pub first : Pos → List Pos → Option Match
first from [] = none
first from (to ∷ rest) = some (record { from = from; to = to })

-- `pattern.search`: the first position that has a match.
unfoldable pub search_from : Re → Text → Text → Option Match
unfolding first
search_from r before [] =
    let pos : Pos = record { before = before; after = []; groups = [] } in first pos (run r pos)
search_from r before (c ∷ s) =
    let later = search_from r (c ∷ before) s in
    let pos : Pos = record { before = before; after = c ∷ s; groups = [] } in
    elim (first pos (run r pos)) [ some m ↦ some m | none ↦ later ]

unfoldable pub search_re : Re → Text → Option Match
unfolding search_from
search_re r s = search_from r [] s

unfoldable pub matches : Re → Text → Bool
unfolding search_re
matches r s = elim (search_re r s) [ some m ↦ true | none ↦ false ]

-- `pattern.match(s)` as a test
unfoldable pub match_start : Re → Text → Bool
match_start r s = not (is_empty (run r (at_start s)))

-- `pattern.finditer`: the matches from left to right that do not overlap. `skip` counts the
-- characters of the last match that are still to pass. No pattern of the source matches nothing.
find_from : Re → ℕ → Text → Text → List Match
unfolding first
find_from r skip before [] = []
find_from r (suc skip) before (c ∷ s) = find_from r skip (c ∷ before) s
find_from r zero before (c ∷ s) =
    let pos : Pos = record { before = before; after = c ∷ s; groups = [] } in
    elim (first pos (run r pos)) [
      | some m ↦ m ∷ find_from r (length (c ∷ s) - length m.to.after - 1) (c ∷ before) s
      | none ↦ find_from r 0 (c ∷ before) s
    ]

unfoldable pub find_all : Re → Text → List Match
unfolding find_from
find_all r s = find_from r 0 [] s

unfoldable pub matched_text : Match → Text
unfolding between_text
matched_text m = between_text m.from m.to

lookup_group : ℕ → List (ℕ × Text) → Option Text
lookup_group n [] = none
lookup_group n ((k, t) ∷ rest) = if k == n then some t else lookup_group n rest

-- `m.group(n)`
unfoldable pub group_text : ℕ → Match → Option Text
unfolding lookup_group
group_text n m = lookup_group n m.to.groups
