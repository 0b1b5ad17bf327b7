-- ===== src/Prelude/TextLists.antt =====
-- Lists of texts: membership, and Python's `sorted` and `set`, by code points.
use Prim.Native.Nat.{suc, ◌≤◌}
use mathlib.Core.Path.{◌≡◌, refl, sym, ap, ◌∙◌}
use mathlib.Core.Logic.{◌⊎◌, inl, inr}
use mathlib.Core.Bool.{Bool, true, false, ◌||◌, ◌&&◌}
use mathlib.Core.List.{List, [], ◌∷◌}
use native.Mathlib.Omega.{arith}
use knokeep.Prelude.Tests.{ltb, ◌==◌, if◌then◌else◌, Bool-cases, if_both}
use knokeep.Prelude.Lists.{all, length, Every}
use knokeep.Prelude.Texts.{Text, text_eq, text_eq_iff}

-- `<=` of `str`
unfoldable pub text_leb : Text → Text → Bool
text_leb [] t = true
text_leb (a ∷ s) [] = false
text_leb (a ∷ s) (b ∷ t) = ltb a b || ((a == b) && text_leb s t)

unfoldable pub place : Text → List Text → List Text
place x [] = x ∷ []
place x (y ∷ ys) = let rest = place x ys in if text_leb x y then x ∷ y ∷ ys else y ∷ rest

unfoldable pub sorted : List Text → List Text
unfolding place
sorted [] = []
sorted (x ∷ xs) = place x (sorted xs)

-- `x in xs`
unfoldable pub elem : Text → List Text → Bool
elem x [] = false
elem x (y ∷ ys) = text_eq y x || elem x ys

-- `set(xs) == set(ys)`
unfoldable pub same_set : List Text → List Text → Bool
unfolding elem
same_set xs ys = all (λ x. elem x ys) xs && all (λ y. elem y xs) ys

-- The distinct texts of the first list that are not in the second: `set(xs) - set(ys)`.
unfoldable pub difference : List Text → List Text → List Text
unfolding elem
difference [] ys = []
difference (x ∷ xs) ys =
    let rest = difference xs ys in if elem x ys || elem x xs then rest else x ∷ rest

-- The texts other than one.
unfoldable pub without : Text → List Text → List Text
without x [] = []
without x (y ∷ ys) = let rest = without x ys in if text_eq y x then rest else y ∷ rest

-- One of the list.
abbrev pub Among : List Text → Text → Type 0
Among [] x = ⊥
Among (y ∷ ys) x = (y ≡ x) ⊎ Among ys x

place-Among : (x z : Text) (ys : List Text) → ((x ≡ z) ⊎ Among ys z) → Among (place x ys) z
unfolding place
place-Among x z [] m = m
place-Among x z (y ∷ ys) m = elim (Bool-cases (text_leb x y)) [
  | inl h ↦ rw h m
  | inr h ↦ rw h (elim m [
    | inl e ↦ inr (place-Among x z ys (inl e))
    | inr (inl e) ↦ inl e
    | inr (inr i) ↦ inr (place-Among x z ys (inr i))
  ])
]

place-length : (x : Text) (ys : List Text) → length (place x ys) ≡ suc (length ys)
unfolding place
place-length x [] = refl
place-length x (y ∷ ys) =
    let h = place-length x ys in
    elim (Bool-cases (text_leb x y)) [ inl e ↦ rw e refl | inr e ↦ rw e (omega arith) ]

pub sorted-length : (xs : List Text) → length (sorted xs) ≡ length xs
unfolding sorted
sorted-length [] = refl
sorted-length (x ∷ xs) = let h = sorted-length xs in place-length x (sorted xs) ∙ ap (λ n. suc n) h

pub sorted-Among : (xs : List Text) (z : Text) → Among xs z → Among (sorted xs) z
unfolding sorted
sorted-Among [] z m = m
sorted-Among (x ∷ xs) z (inl e) = place-Among x z (sorted xs) (inl e)
sorted-Among (x ∷ xs) z (inr m) = place-Among x z (sorted xs) (inr (sorted-Among xs z m))

pub without-Among :
    (x z : Text) (ys : List Text) → (z ≡ x → ⊥) → Among ys z → Among (without x ys) z
unfolding without
without-Among x z [] n m = m
without-Among x z (y ∷ ys) n m = elim (Bool-cases (text_eq y x)) [
  | inr h ↦ rw h (elim m [ inl e ↦ inl e | inr i ↦ inr (without-Among x z ys n i) ])
  | inl h ↦ rw h (elim m [
    | inl e ↦ absurd (n (rw (← e) ((text_eq_iff y x).0 h)))
    | inr i ↦ without-Among x z ys n i
  ])
]

-- What is left after `without` is another text.
pub without-other : (x z : Text) (ys : List Text) → Among (without x ys) z → z ≡ x → ⊥
unfolding without
without-other x z [] m = absurd m
without-other x z (y ∷ ys) m = elim (Bool-cases (text_eq y x)) [
  | inl h ↦ without-other x z ys (rw h at m)
  | inr h ↦ λ e. elim (rw h at m) [
    | inl i ↦ ground (arith, text_eq_iff y x)
    | inr i ↦ without-other x z ys i e
  ]
]

place-Every :
    (P : Text → Type 0) (x : Text) (ys : List Text) → P x → Every P ys → Every P (place x ys)
unfolding place
place-Every P x [] h k = (h, tt)
place-Every P x (y ∷ ys) h k =
    if_both (Every P) (text_leb x y) (h, k) (k.0, place-Every P x ys h k.1)

pub sorted-Every : (P : Text → Type 0) (xs : List Text) → Every P xs → Every P (sorted xs)
unfolding sorted
sorted-Every P [] h = tt
sorted-Every P (x ∷ xs) h = place-Every P x (sorted xs) h.0 (sorted-Every P xs h.1)

-- The distinct texts of a list are at most one if and only if all its texts are equal.
abbrev pub AllSame : List Text → Type 0
AllSame xs = (x y : Text) → Among xs x → Among xs y → x ≡ y

elem-Among : (x : Text) (ys : List Text) → elem x ys ≡ true → Among ys x
unfolding elem
elem-Among x [] h = cc
elem-Among x (y ∷ ys) h = elim (Bool-cases (text_eq y x)) [
  | inl e ↦ inl ((text_eq_iff y x).0 e)
  | inr e ↦ inr (elem-Among x ys (rw e at h))
]

Among-elem : (x : Text) (ys : List Text) → Among ys x → elem x ys ≡ true
unfolding elem
Among-elem x [] m = absurd m
Among-elem x (y ∷ ys) (inl e) = rw ((text_eq_iff y x).1 e) refl
Among-elem x (y ∷ ys) (inr m) = let h = Among-elem x ys m in ground arith

difference-Among : (xs : List Text) (x : Text) → Among xs x → Among (difference xs []) x
unfolding difference elem
difference-Among [] x m = m
difference-Among (y ∷ ys) x m = elim (Bool-cases (elem y ys)) [
  | inl h ↦ rw h (elim m [
    | inl e ↦ difference-Among ys x (rw e at (elem-Among y ys h))
    | inr i ↦ difference-Among ys x i
  ])
  | inr h ↦ rw h (elim m [ inl e ↦ inl e | inr i ↦ inr (difference-Among ys x i) ])
]

one-AllSame : (xs : List Text) → length xs ≤ 1 → AllSame xs
one-AllSame [] h x y m n = absurd m
one-AllSame (z ∷ []) h x y (inl e) (inl e') = sym e ∙ e'
one-AllSame (z ∷ []) h x y (inl e) (inr n) = absurd n
one-AllSame (z ∷ []) h x y (inr m) n = absurd m
one-AllSame (z ∷ w ∷ zs) h x y m n = absurd (ground arith)

pub distinct-AllSame : (xs : List Text) → length (difference xs []) ≤ 1 → AllSame xs
distinct-AllSame xs h x y m n =
    one-AllSame (difference xs []) h x y (difference-Among xs x m) (difference-Among xs y n)

pub AllSame-distinct : (xs : List Text) → AllSame xs → length (difference xs []) ≤ 1
unfolding difference elem
AllSame-distinct [] s = omega arith
AllSame-distinct (x ∷ []) s = omega arith
AllSame-distinct (x ∷ y ∷ ys) s =
    let same : elem x (y ∷ ys) ≡ true =
      Among-elem x (y ∷ ys) (inl (s y x (inr (inl refl)) (inl refl))) in
    rw same (AllSame-distinct (y ∷ ys) (λ a b m n. s a b (inr m) (inr n)))
