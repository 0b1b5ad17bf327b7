-- ===== src/Local/Reader.antt =====
-- A file that is read from its start, as store/local.py reads its journal: a short read ends it.
use knokeep.Prelude.{
  ℕ, zero, suc, ◌-◌, Bytes, ◌≡◌, refl, ◌∙◌, ap, Option, none, some, [], ◌∷◌, ◌++◌, arith, ◌<◌, ◌≤◌,
  ◌⊎◌, inl, inr, take, length, length-append,
}

abbrev pub Reader {ℓ} : Type ℓ → Type ℓ
Reader A = Bytes → Option (A × Bytes)

-- `f.read(n)`, where `none` is fewer than `n` bytes
unfoldable pub read_exact : ℕ → Reader Bytes
read_exact zero s = some ([], s)
read_exact (suc n) [] = none
read_exact (suc n) (c ∷ s) = elim (read_exact n s) [
  | none ↦ none
  | some (front, rest) ↦ some (c ∷ front, rest)
]

abbrev pub continue {ℓ ℓ'} :
    {A : Type ℓ} {B : Type ℓ'} → (A → Reader B) → Option (A × Bytes) → Option (B × Bytes)
continue f none = none
continue f (some (a, rest)) = f a rest

unfoldable pub and_then {ℓ ℓ'} : {A : Type ℓ} {B : Type ℓ'} → Reader A → (A → Reader B) → Reader B
and_then r f s = continue f (r s)

unfoldable pub give {ℓ} : {A : Type ℓ} → A → Reader A
give a s = some (a, s)

unfoldable pub stop {ℓ} : {A : Type ℓ} → Reader A
stop s = none

-- The reader takes exactly these bytes, whatever follows, for this value, and fails on every torn
-- prefix of them.
pub record Reads {ℓ} {A : Type ℓ} (r : Reader A) (bytes : Bytes) (a : A) : Type ℓ where
  pub whole : (rest : Bytes) → r (bytes ++ rest) ≡ some (a, rest)
  pub torn : (n : ℕ) → n < length bytes → r (take n bytes) ≡ none

read_exact-whole :
    (bytes rest : Bytes) → read_exact (length bytes) (bytes ++ rest) ≡ some (bytes, rest)
unfolding read_exact
read_exact-whole [] rest = refl
read_exact-whole (c ∷ bytes) rest = rw (read_exact-whole bytes rest) refl

read_exact-torn :
    (n : ℕ) (bytes : Bytes) → n < length bytes → read_exact (length bytes) (take n bytes) ≡ none
unfolding read_exact
read_exact-torn n [] h = absurd (omega arith)
read_exact-torn zero (c ∷ bytes) h = refl
read_exact-torn (suc n) (c ∷ bytes) h = rw (read_exact-torn n bytes (omega arith)) refl

pub read_exact-Reads : (n : ℕ) (bytes : Bytes) → length bytes ≡ n → Reads (read_exact n) bytes bytes
read_exact-Reads n bytes e =
    rw (← e) (record { whole = read_exact-whole bytes; torn = λ k. read_exact-torn k bytes })

pub give-Reads {ℓ} : {A : Type ℓ} (a : A) → Reads (give a) [] a
give-Reads a = record { whole = λ rest. unfold give in refl; torn = λ n h. absurd (omega arith) }

pub append_assoc : (xs ys zs : Bytes) → (xs ++ ys) ++ zs ≡ xs ++ (ys ++ zs)
append_assoc [] ys zs = refl
append_assoc (x ∷ xs) ys zs = ap (λ t. x ∷ t) (append_assoc xs ys zs)

take-within : (n : ℕ) (xs ys : Bytes) → n < length xs → take n (xs ++ ys) ≡ take n xs
take-within n [] ys h = absurd (omega arith)
take-within zero (x ∷ xs) ys h = refl
take-within (suc n) (x ∷ xs) ys h = ap (λ t. x ∷ t) (take-within n xs ys (omega arith))

take-past :
    (n : ℕ) (xs ys : Bytes) → length xs ≤ n → take n (xs ++ ys) ≡ xs ++ take (n - length xs) ys
take-past n [] ys h = ap (λ k. take k ys) (omega arith)
take-past zero (x ∷ xs) ys h = absurd (omega arith)
take-past (suc n) (x ∷ xs) ys h =
    ap (λ t. x ∷ t) (take-past n xs ys (omega arith) ∙ ap (λ k. xs ++ take k ys) (omega arith))

le_or_lt : (n m : ℕ) → (n < m) ⊎ (m ≤ n)
le_or_lt n m = ground arith

-- One reader after another takes the bytes of both.
pub and_then-Reads {ℓ ℓ'} :
    {A : Type ℓ} {B : Type ℓ'} (r : Reader A) (f : A → Reader B) (xs ys : Bytes) (a : A) (b : B)
    → Reads r xs a
    → Reads (f a) ys b
    → Reads (and_then r f) (xs ++ ys) b
and_then-Reads r f xs ys a b one two = record {
  whole = λ rest.
      unfold and_then in
      rw (append_assoc xs ys rest)
        (ap (λ o. continue f o) (one.whole (ys ++ rest)) ∙ two.whole rest);
  torn = λ n h. elim (le_or_lt n (length xs)) [
    | inl short ↦
        unfold and_then in
        rw (take-within n xs ys short) (ap (λ o. continue f o) (one.torn n short))
    | inr past ↦
        unfold and_then in
        rw (take-past n xs ys past) (
          ap (λ o. continue f o) (one.whole (take (n - length xs) ys))
          ∙ two.torn (n - length xs) (omega (arith, length-append xs ys)))
  ];
}
