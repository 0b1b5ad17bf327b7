-- ===== src/Gate/Headers.antt =====
-- The generation header of store/gate.py: what `make_generation_header` writes is read back.
use knokeep.Prelude.{
  ℕ, zero, suc, ◌+◌, ◌*◌, ◌/◌, ◌%◌, ◌≤◌, ◌<◌, Bytes, ◌≡◌, ◌≢◌, refl, ◌∙◌, true, some, [], ◌∷◌, ◌++◌,
  length, all, arith, ltb, Bool-cases, inl, inr, ap,
}
use mathlib.Core.List.{append_assoc}
use knokeep.Gate.Patterns.{is_digit}
use knokeep.Gate.Generation.{
  uint64_max, span_digits, digits_value, strip_prefix, gen_prefix, parse_generation,
  extract_generation, digits_onto, decimal, make_generation_header, canonical,
}

abbrev ten_to : ℕ → ℕ
ten_to zero = 1
ten_to (suc k) = 10 * ten_to k

digits_onto-value :
    (fuel n : ℕ) (tail : Bytes) (acc : ℕ)
    → n < ten_to fuel
    → acc ≡ 0
    → digits_value acc (digits_onto fuel n tail) ≡ digits_value n tail
unfolding digits_onto digits_value
digits_onto-value zero n tail acc h z = ground arith
digits_onto-value (suc fuel) n tail acc h z = elim (Bool-cases (ltb n 10)) [
  | inl e ↦ rw e (ap (λ t. digits_value t tail) (ground arith))
  | inr e ↦ rw e (
      digits_onto-value fuel (n / 10) ((b'0' + n % 10) ∷ tail) acc (omega arith) z
      ∙ ap (λ t. digits_value t tail) (omega arith))
]

digits_onto-digits :
    (fuel n : ℕ) (tail : Bytes)
    → n < ten_to fuel
    → all is_digit tail ≡ true
    → all is_digit (digits_onto fuel n tail) ≡ true
unfolding digits_onto
digits_onto-digits zero n tail h a = a
digits_onto-digits (suc fuel) n tail h a =
    ground (arith, digits_onto-digits fuel (n / 10) ((b'0' + n % 10) ∷ tail))

digits_onto-length :
    (fuel n : ℕ) (tail : Bytes) → length (digits_onto fuel n tail) ≤ fuel + length tail
unfolding digits_onto
digits_onto-length zero n tail = omega arith
digits_onto-length (suc fuel) n tail =
    ground (arith, digits_onto-length fuel (n / 10) ((b'0' + n % 10) ∷ tail))

-- No leading zero but in `0` itself.
abbrev LeadsWell : Bytes → Type 0
LeadsWell [] = ⊥
LeadsWell (c ∷ s) = c ≢ b'0'

digits_onto-LeadsWell :
    (fuel n : ℕ) (tail : Bytes) → 0 < n → n < ten_to fuel → LeadsWell (digits_onto fuel n tail)
unfolding digits_onto
digits_onto-LeadsWell zero n tail p h = absurd (omega arith)
digits_onto-LeadsWell (suc fuel) n tail p h = elim (Bool-cases (ltb n 10)) [
  | inl e ↦ rw e (ground arith)
  | inr e ↦
      rw e
        (digits_onto-LeadsWell fuel (n / 10) ((b'0' + n % 10) ∷ tail) (ground arith) (omega arith))
]

canonical-decimal : (n : ℕ) → n ≤ uint64_max → canonical (decimal n) ≡ true
canonical-decimal zero h = unfold decimal digits_onto in refl
canonical-decimal (suc n) h =
    from_lead (decimal (suc n))
      (unfold decimal in digits_onto-LeadsWell 20 (suc n) [] (omega arith) (omega arith))
      (unfold decimal in digits_onto-length 20 (suc n) [])
  where
    from_lead : (ds : Bytes) → LeadsWell ds → length ds ≤ 20 + 0 → canonical ds ≡ true
    from_lead [] l k = absurd l
    from_lead (c ∷ s) l k = ground arith

span_digits-append :
    (ds rest : Bytes) → all is_digit ds ≡ true → span_digits (ds ++ (10 ∷ rest)) ≡ (ds, 10 ∷ rest)
unfolding span_digits
span_digits-append [] rest h = refl
span_digits-append (d ∷ ds) rest h = ground (arith, span_digits-append ds rest)

strip_prefix-append : (p s : Bytes) → strip_prefix p (p ++ s) ≡ some s
unfolding strip_prefix
strip_prefix-append [] s = refl
strip_prefix-append (c ∷ p) s = ground (arith, strip_prefix-append p s)

decimal-digits : (n : ℕ) → n ≤ uint64_max → all is_digit (decimal n) ≡ true
unfolding decimal
decimal-digits n h = digits_onto-digits 20 n [] (omega arith) refl

decimal-value : (n : ℕ) → n ≤ uint64_max → digits_value 0 (decimal n) ≡ n
unfolding decimal
decimal-value n h = digits_onto-value 20 n [] 0 (omega arith) refl ∙ unfold digits_value in refl

parse_generation-decimal :
    (n : ℕ) (rest : Bytes) → n ≤ uint64_max → parse_generation (decimal n ++ (10 ∷ rest)) ≡ some n
unfolding parse_generation
parse_generation-decimal n rest h =
    rw (span_digits-append (decimal n) rest (decimal-digits n h))
      (rw (canonical-decimal n h) (rw (decimal-value n h) (ground arith)))

extract_generation-eq :
    (raw rest : Bytes)
    → strip_prefix gen_prefix raw ≡ some rest
    → extract_generation raw ≡ parse_generation rest
unfolding extract_generation
extract_generation-eq raw rest e = ground arith

rejoin : (a b : Bytes) → (gen_prefix ++ (a ++ (10 ∷ []))) ++ b ≡ gen_prefix ++ (a ++ (10 ∷ b))
rejoin a b = simp append_assoc

make_generation_header-eq :
    (g : ℕ)
    → g ≤ uint64_max
    → make_generation_header g ≡ some (gen_prefix ++ (decimal g ++ (10 ∷ [])))
unfolding make_generation_header
make_generation_header-eq g h = ground arith

-- A header that `make_generation_header` writes, for a number of 64 bits and in front of any
-- content, is read back as its number.
pub extract_generation-header :
    (g : ℕ) (content : Bytes)
    → g ≤ uint64_max
    → (header : Bytes) × (make_generation_header g ≡ some header)
      × (extract_generation (header ++ content) ≡ some g)
extract_generation-header g content h = (
  gen_prefix ++ (decimal g ++ (10 ∷ [])),
  make_generation_header-eq g h,
  rw (rejoin (decimal g) content) (
      extract_generation-eq (gen_prefix ++ (decimal g ++ (10 ∷ content)))
        (decimal g ++ (10 ∷ content)) (strip_prefix-append gen_prefix (decimal g ++ (10 ∷ content)))
      ∙ parse_generation-decimal g content h),
)
