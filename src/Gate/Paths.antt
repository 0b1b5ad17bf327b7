-- ===== src/Gate/Paths.antt =====
-- The keys that `_valid_key_shape` of store/gate.py lets pass, by their segments between slashes, which
-- store/local.py takes as the parts of a path.
use knokeep.Prelude.{
  Text, codes, text_eq_iff, ◌≡◌, ◌≢◌, ap, Bool, true, false, ◌&&◌, List, [], ◌∷◌, length, all,
  arith, ◌≤◌, inl, inr,
}
use knokeep.Gate.Regex.{is_empty}
use knokeep.Gate.Detection.{InList}
use knokeep.Gate.Keys.{split, valid_segment, valid_key_shape, max_segment_len}

both_true : (a b : Bool) → (a && b) ≡ true → b ≡ true
both_true true b h = h
both_true false b h = cc

all-InList :
    (p : Text → Bool) (xs : List Text) (x : Text) → all p xs ≡ true → InList xs x → p x ≡ true
all-InList p [] x h m = absurd m
all-InList p (y ∷ ys) x h (inl e) = rw (← e) (ground (arith, h))
all-InList p (y ∷ ys) x h (inr m) = all-InList p ys x (ground (arith, h)) m

-- A segment that a path may have: no step to the directory itself or out of it.
pub record IsPlain (segment : Text) : Type 0 where
  pub nonempty : segment ≢ []
  pub not_here : segment ≢ codes "."
  pub not_up : segment ≢ codes ".."
  pub bounded : length segment ≤ max_segment_len

valid_segment-IsPlain : (x : Text) → valid_segment x ≡ true → IsPlain x
unfolding valid_segment
valid_segment-IsPlain x h = record {
  nonempty = λ e. ground (arith, h, ap is_empty e);
  not_here = λ e. ground (arith, h, text_eq_iff x (codes "."));
  not_up = λ e. ground (arith, h, text_eq_iff x (codes ".."));
  bounded = ground (arith, h);
}

-- A key of valid shape has no empty segment, none that is `.` or `..`, and none that is too long.
pub valid_key_shape-IsPlain :
    (key segment : Text)
    → valid_key_shape key ≡ true
    → InList (split b'/' key) segment
    → IsPlain segment
unfolding valid_key_shape
valid_key_shape-IsPlain key segment h m =
    valid_segment-IsPlain segment
      (all-InList valid_segment (split b'/' key) segment (both_true _ _ h) m)
