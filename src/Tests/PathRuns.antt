-- ===== src/Tests/PathRuns.antt =====
-- The paths of a key (store/gate.py, store/local.py), and the theorems on them there.
use knokeep.Prelude.{codes, ◌≡◌, refl, Text, true, inl, inr, text_eq}
use knokeep.Gate.Keys.{valid_key_shape, split, split_onto}
use knokeep.Gate.Detection.{InList}
use knokeep.Gate.Paths.{IsPlain, valid_key_shape-IsPlain}

abbrev note : Text
note = codes "notes/a.md"

note_shape : valid_key_shape note ≡ true
unfolding valid_key_shape text_eq
note_shape = refl

note_segment : InList (split b'/' note) (codes "a.md")
unfolding split split_onto
note_segment = inr (inl refl)

valid_key_shape-IsPlain_example : IsPlain (codes "a.md")
valid_key_shape-IsPlain_example =
    valid_key_shape-IsPlain note (codes "a.md") note_shape note_segment
