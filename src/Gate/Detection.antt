-- ===== src/Gate/Detection.antt =====
-- The scanner of store/gate.py finds a known kind of token wherever it stands.
use knokeep.Prelude.{
  ℕ, zero, suc, ◌-◌, ◌≤◌, Text, Bytes, ◌≡◌, ◌≢◌, refl, Bool, true, none, some, List, [], ◌∷◌, ◌++◌,
  length, all, arith, ◌==◌, Bool-cases, ◌⊎◌, inl, inr, ap,
}
use knokeep.Gate.Regex.{Re, at_least, Pos, run, run_class, search_re, matches, search_from, first}
use knokeep.Gate.Patterns.{lit, Pattern, all_prefix_patterns}
use mathlib.Core.List.{flat_map}
use knokeep.Gate.Platform.{Platform}
use knokeep.Gate.Scan.{
  secret_scan, dedupe, dedupe_onto, contains_label, pattern_labels, view_labels, views_labels,
  scan_views, all_labels,
}

-- A pattern that matches at a place of a text is found by a search.
search_from-after :
    (r : Re) (pre before s : Text)
    → ((b : Text) → run r (record { before = b; after = s; groups = [] }) ≢ [])
    → search_from r before (pre ++ s) ≢ none
unfolding search_from first
search_from-after r [] before [] h = ground (arith, h before)
search_from-after r [] before (c ∷ s) h = ground (arith, h before)
search_from-after r (d ∷ pre) before s h = ground (arith, search_from-after r pre (d ∷ before) s h)

matches-after :
    (r : Re) (pre s : Text)
    → ((b : Text) → run r (record { before = b; after = s; groups = [] }) ≢ [])
    → matches r (pre ++ s) ≡ true
unfolding matches search_re
matches-after r pre s h = ground (arith, search_from-after r pre [] s h)

append-ne_left : {A : Type 0} (xs ys : List A) → xs ≢ [] → xs ++ ys ≢ []
append-ne_left [] ys h = λ e. h refl
append-ne_left (x ∷ xs) ys h = λ e. cc

append-ne_right : {A : Type 0} (xs : List A) (y : A) (ys : List A) → xs ++ (y ∷ ys) ≢ []
append-ne_right [] y ys = λ e. cc
append-ne_right (x ∷ xs) y ys = λ e. cc

run_class-zero : (p : ℕ → Bool) (s : Text) (pos : Pos) → run_class p 0 none s pos ≢ []
unfolding run_class
run_class-zero p [] pos = λ e. cc
run_class-zero p (c ∷ s) pos = elim (Bool-cases (p c)) [
  | inl y ↦ rw y (append-ne_right _ pos [])
  | inr n ↦ rw n (λ e. cc)
]

run_class-step :
    (p : ℕ → Bool) (lo c : ℕ) (s : Text) (pos : Pos)
    → p c ≡ true
    → run_class p lo none s (record pos { before = c ∷ pos.before; after = s }) ≢ []
    → run_class p (suc lo) none (c ∷ s) pos ≢ []
unfolding run_class
run_class-step p lo c s pos y h = rw y (
    append-ne_left
      (run_class p (suc lo - 1) none s (record pos { before = c ∷ pos.before; after = s })) _
      (rw (less lo) h))
  where
    less : (k : ℕ) → suc k - 1 ≡ k
    less k = omega arith

-- A long enough run of the class matches, whatever follows.
run_class-some :
    (p : ℕ → Bool) (lo : ℕ) (tok post : Text) (pos : Pos)
    → all p tok ≡ true
    → lo ≤ length tok
    → run_class p lo none (tok ++ post) pos ≢ []
run_class-some p zero tok post pos a l = run_class-zero p (tok ++ post) pos
run_class-some p (suc lo) [] post pos a l = absurd (omega arith)
run_class-some p (suc lo) (t ∷ tok) post pos a l =
    run_class-step p lo t (tok ++ post) pos (ground arith)
      (run_class-some p lo tok post _ (ground arith) (omega arith))

run-lit-step :
    (c : ℕ) (w : Text) (r : Re) (b s : Text)
    → run (lit w r) (record { before = c ∷ b; after = w ++ s; groups = [] }) ≢ []
    → run (lit (c ∷ w) r) (record { before = b; after = (c ∷ w) ++ s; groups = [] }) ≢ []
unfolding run flat_map
run-lit-step c w r b s h = rw (eq_self c) (append-ne_left _ [] h)
  where
    eq_self : (d : ℕ) → (d == d) ≡ true
    eq_self d = ground arith

run-lit-some :
    (w : Text) (r : Re) (b s : Text)
    → ((b' : Text) → run r (record { before = b'; after = s; groups = [] }) ≢ [])
    → run (lit w r) (record { before = b; after = w ++ s; groups = [] }) ≢ []
run-lit-some [] r b s h = h b
run-lit-some (c ∷ w) r b s h = run-lit-step c w r b s (run-lit-some w r (c ∷ b) s h)

-- Membership, read off the list.
abbrev pub InList : {A : Type 0} → List A → A → Type 0
InList [] x = ⊥
InList (y ∷ ys) x = (y ≡ x) ⊎ InList ys x

pattern_labels-some :
    (pats : List Pattern) (pat : Pattern) (view : Bytes)
    → InList pats pat
    → matches pat.re view ≡ true
    → pattern_labels pats view ≢ []
unfolding pattern_labels
pattern_labels-some [] pat view m h = absurd m
pattern_labels-some (q ∷ pats) pat view m h = elim m [
  | inl e ↦ λ f. ground (arith, ap (λ x. matches x.re view) e)
  | inr m' ↦ λ f. ground (arith, pattern_labels-some pats pat view m' h)
]

dedupe_onto-some : (labels seen : List Text) → seen ≢ [] → dedupe_onto seen labels ≢ []
unfolding dedupe_onto
dedupe_onto-some [] seen h = h
dedupe_onto-some (l ∷ labels) seen h = elim (Bool-cases (contains_label l seen)) [
  | inl e ↦ rw e (dedupe_onto-some labels seen h)
  | inr e ↦ rw e (dedupe_onto-some labels (seen ++ (l ∷ [])) (append-ne_left seen (l ∷ []) h))
]

dedupe-some : (labels : List Text) → labels ≢ [] → dedupe labels ≢ []
unfolding dedupe dedupe_onto contains_label
dedupe-some [] h = λ e. h refl
dedupe-some (l ∷ labels) h = dedupe_onto-some labels (l ∷ []) (λ e. cc)

view_labels-some :
    (pat : Pattern) (view : Bytes)
    → InList all_prefix_patterns pat
    → matches pat.re view ≡ true
    → view_labels view ≢ []
unfolding view_labels
view_labels-some pat view m h =
    append-ne_left _ _ (pattern_labels-some all_prefix_patterns pat view m h)

all_labels-some : (p : Platform) (raw : Bytes) → view_labels raw ≢ [] → all_labels p raw ≢ []
unfolding all_labels views_labels scan_views
all_labels-some p raw h = append-ne_left _ _ (append-ne_left _ _ h)

-- A body in which any prefix pattern of the form "literal, then at least so many of a class" has
-- a match, at any place and before any text, is never clean to the scanner.
pub secret_scan-token :
    (p : Platform) (pat : Pattern) (word : Text) (q : ℕ → Bool) (count : ℕ)
    (before token after : Bytes)
    → InList all_prefix_patterns pat
    → pat.re ≡ lit word (at_least q count)
    → all q token ≡ true
    → count ≤ length token
    → secret_scan p (before ++ (word ++ (token ++ after))) ≢ some []
secret_scan-token p pat word q count before token after listed shape inside long =
    flagged (before ++ (word ++ (token ++ after))) (
      rw shape (
        matches-after (lit word (at_least q count)) before (word ++ (token ++ after)) (λ b.
          run-lit-some word (at_least q count) b (token ++ after)
            (λ b'. unfold run in run_class-some q count token after _ inside long))))
  where
    flagged : (raw : Bytes) → matches pat.re raw ≡ true → secret_scan p raw ≢ some []
    flagged raw h e =
        dedupe-some (all_labels p raw) (all_labels-some p raw (view_labels-some pat raw listed h))
          (unfold secret_scan in ground (arith, e))
