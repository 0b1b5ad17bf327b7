-- ===== src/Local/Replay.antt =====
-- The journal of store/local.py is read back as it was written, whatever shape its records have,
-- and a torn tail costs only the record that it belongs to.
use knokeep.Prelude.{
  ℕ, zero, suc, ◌+◌, ◌*◌, ◌/◌, ◌%◌, Text, Bytes, text_eq, text_eq_iff, text_eq_refl, ◌≡◌, refl, sym,
  ap, ◌≤◌, ◌<◌, Bool, Bool-cases, true, false, some, Option-cases, List, [], ◌∷◌, ◌++◌, length,
  length-append, arith, inl, inr, utf8_encode, utf8_encode_ascii, IsAscii,
}
use knokeep.Gate.Platform.{utf8_decode, utf8_decode-ascii}
use knokeep.Local.Reader.{Reads, read_exact-Reads, give-Reads, and_then-Reads, append_assoc}
use knokeep.Local.Journal.{
  Entry, journal_v2_magic, be_bytes, be_value, byte_range, pack, record_body, journal_record,
  read_fence, give_entry, read_checked, read_fields, after_header, read_record,
}
use Prim.Native.String.{same}

be_value-snoc :
    (acc : ℕ) (s : Bytes) (c : ℕ) → be_value acc (s ++ (c ∷ [])) ≡ be_value acc s * 256 + c
unfolding be_value
be_value-snoc acc [] c = refl
be_value-snoc acc (d ∷ s) c = be_value-snoc (acc * 256 + d) s c

be_value-be_bytes : (width n : ℕ) → n < byte_range width → be_value 0 (be_bytes width n) ≡ n
unfolding be_bytes
be_value-be_bytes zero n h = unfold be_value in omega arith
be_value-be_bytes (suc width) n h =
    rw (be_value-snoc 0 (be_bytes width (n / 256)) (n % 256))
      (omega (arith, be_value-be_bytes width (n / 256) (omega arith)))

pub length-be_bytes : (width n : ℕ) → length (be_bytes width n) ≡ width
unfolding be_bytes
length-be_bytes zero n = refl
length-be_bytes (suc width) n = omega (
  arith,
  length-append (be_bytes width (n / 256)) ((n % 256) ∷ []),
  length-be_bytes width (n / 256),
)

pack-eq :
    (width n : ℕ) (b : Bytes)
    → pack width n ≡ some b
    → (n < byte_range width) × (be_bytes width n ≡ b)
unfolding pack
pack-eq width n b h = ground (arith, h)

-- What `pack` gives has its width, and is read back as its number.
pub pack-some :
    (width n : ℕ) (b : Bytes) → pack width n ≡ some b → (length b ≡ width) × (be_value 0 b ≡ n)
pack-some width n b h =
    let (fits, same) = pack-eq width n b h in
    rw (← same) (length-be_bytes width n, be_value-be_bytes width n fits)

pub append-nil : (xs : Bytes) → xs ++ [] ≡ xs
append-nil [] = refl
append-nil (x ∷ xs) = ap (λ t. x ∷ t) (append-nil xs)

fields-append :
    (a b c d e f : Bytes) → (a ++ (b ++ (c ++ (d ++ e)))) ++ f ≡ a ++ (b ++ (c ++ (d ++ (e ++ f))))
fields-append a b c d e f = rw (append_assoc a (b ++ (c ++ (d ++ e))) f) (
    rw (append_assoc b (c ++ (d ++ e)) f)
      (rw (append_assoc c (d ++ e) f) (rw (append_assoc d e f) refl)))

record_body-eq :
    (sha256_digest : Bytes → Bytes) (key : Text) (raw fields : Bytes)
    → record_body sha256_digest key raw ≡ some fields
    → (key_len body_len : Bytes) × (pack 4 (length (utf8_encode key)) ≡ some key_len)
      × (pack 8 (length raw) ≡ some body_len)
      × (fields ≡ key_len ++ (utf8_encode key ++ (body_len ++ (raw ++ sha256_digest raw))))
unfolding record_body
record_body-eq sha256_digest key raw fields h =
    elim (Option-cases (pack 4 (length (utf8_encode key)))) [
      | inl e ↦ absurd (ground (arith, e, h))
      | inr (k, e) ↦ elim (Option-cases (pack 8 (length raw))) [
        | inl f ↦ absurd (ground (arith, e, f, h))
        | inr (b, f) ↦ (k, b, e, f, ground (arith, e, f, h))
      ]
    ]

journal_record-eq :
    (sha256_digest : Bytes → Bytes) (e : Entry) (bytes : Bytes)
    → journal_record sha256_digest e ≡ some bytes
    → (fields fence : Bytes) × (record_body sha256_digest e.key e.raw ≡ some fields)
      × (pack 8 e.last_accepted_fence ≡ some fence)
      × (bytes ≡ journal_v2_magic ++ (fields ++ fence))
unfolding journal_record
journal_record-eq sha256_digest e bytes h =
    elim (Option-cases (record_body sha256_digest e.key e.raw)) [
      | inl q ↦ absurd (ground (arith, q, h))
      | inr (fields, q) ↦ elim (Option-cases (pack 8 e.last_accepted_fence)) [
        | inl f ↦ absurd (ground (arith, q, f, h))
        | inr (fence, f) ↦ (fields, fence, q, f, ground (arith, q, f, h))
      ]
    ]

module _ (sha256_digest : Bytes → Bytes)
    (digest_length : (b : Bytes) → length (sha256_digest b) ≡ 32) where
  give_entry-Reads :
      (key : Text) (raw : Bytes) (fence : ℕ)
      → IsAscii key
      → Reads
          (give_entry (utf8_decode (utf8_encode key)) raw fence)
          []
          (record { key = key; raw = raw; last_accepted_fence = fence })
  unfolding give_entry
  give_entry-Reads key raw fence h =
      rw (utf8_encode_ascii key h) (rw (utf8_decode-ascii key h) (give-Reads _))

  read_checked-Reads :
      (is_v2 : Bool) (key : Text) (raw trailer : Bytes) (fence : ℕ)
      → IsAscii key
      → Reads (read_fence is_v2) trailer fence
      → Reads
          (read_checked sha256_digest is_v2 (utf8_encode key) raw (sha256_digest raw))
          trailer
          (record { key = key; raw = raw; last_accepted_fence = fence })
  read_checked-Reads is_v2 key raw trailer fence h r =
      unfold read_checked in
      rw (text_eq_refl (sha256_digest raw)) (
        rw (sym (append-nil trailer))
          (and_then-Reads _ _ trailer [] fence _ r (give_entry-Reads key raw fence h)))

  read_fields-Reads :
      (is_v2 : Bool) (key : Text) (raw key_len body_len trailer : Bytes) (fence : ℕ)
      → IsAscii key
      → be_value 0 key_len ≡ length (utf8_encode key)
      → length body_len ≡ 8
      → be_value 0 body_len ≡ length raw
      → Reads (read_fence is_v2) trailer fence
      → Reads
          (read_fields sha256_digest is_v2 key_len)
          (utf8_encode key ++ (body_len ++ (raw ++ (sha256_digest raw ++ trailer))))
          (record { key = key; raw = raw; last_accepted_fence = fence })
  unfolding read_fields
  read_fields-Reads is_v2 key raw key_len body_len trailer fence h k w b r =
      and_then-Reads _ _ (utf8_encode key) _ (utf8_encode key) _
        (read_exact-Reads (be_value 0 key_len) (utf8_encode key) (sym k))
        (and_then-Reads _ _ body_len _ body_len _ (read_exact-Reads 8 body_len w) (
          and_then-Reads _ _ raw _ raw _ (read_exact-Reads (be_value 0 body_len) raw (sym b)) (
            and_then-Reads _ _ (sha256_digest raw) trailer (sha256_digest raw) _
              (read_exact-Reads 32 (sha256_digest raw) (digest_length raw))
              (read_checked-Reads is_v2 key raw trailer fence h r))))

  fence-Reads :
      (fence : ℕ) (bytes : Bytes) → pack 8 fence ≡ some bytes → Reads (read_fence true) bytes fence
  unfolding read_fence
  fence-Reads fence bytes h = rw (sym (append-nil bytes)) (
      rw (sym (pack-some 8 fence bytes h).1) (
        and_then-Reads _ _ bytes [] bytes _ (read_exact-Reads 8 bytes (pack-some 8 fence bytes h).0)
          (give-Reads (be_value 0 bytes))))

  v2_fields-Reads :
      (e : Entry) (key_len body_len fence : Bytes)
      → IsAscii e.key
      → pack 4 (length (utf8_encode e.key)) ≡ some key_len
      → pack 8 (length e.raw) ≡ some body_len
      → pack 8 e.last_accepted_fence ≡ some fence
      → Reads
          (read_record sha256_digest)
          (journal_v2_magic
            ++ (key_len
                ++ (utf8_encode e.key ++ (body_len ++ (e.raw ++ (sha256_digest e.raw ++ fence))))))
          e
  unfolding read_record after_header
  v2_fields-Reads e key_len body_len fence h k b f =
      and_then-Reads _ _ journal_v2_magic _ journal_v2_magic _
        (read_exact-Reads 4 journal_v2_magic refl)
        (rw (text_eq_refl journal_v2_magic) (
          and_then-Reads _ _ key_len _ key_len _
            (read_exact-Reads 4 key_len (pack-some 4 _ key_len k).0)
            (read_fields-Reads true e.key e.raw key_len body_len fence e.last_accepted_fence h
              (pack-some 4 _ key_len k).1 (pack-some 8 _ body_len b).0 (pack-some 8 _ body_len b).1
              (fence-Reads e.last_accepted_fence fence f))))

  -- The record that `_journal_append` writes is read as its entry.
  pub v2-Reads :
      (e : Entry) (bytes : Bytes)
      → IsAscii e.key
      → journal_record sha256_digest e ≡ some bytes
      → Reads (read_record sha256_digest) bytes e
  v2-Reads e bytes h r =
      let (fields, fence, body, f, same) = journal_record-eq sha256_digest e bytes r in
      let (key_len, body_len, k, b, whole) = record_body-eq sha256_digest e.key e.raw fields body in
      rw same (
        rw whole (
          rw (fields-append key_len (utf8_encode e.key) body_len e.raw (sha256_digest e.raw) fence)
            (v2_fields-Reads e key_len body_len fence h k b f)))

  after_header-short :
      (key_len : Bytes) (n : ℕ)
      → be_value 0 key_len ≡ n
      → n ≤ 1024
      → after_header sha256_digest key_len ≡ read_fields sha256_digest false key_len
  unfolding after_header be_value
  after_header-short key_len n e short = elim (Bool-cases (text_eq key_len journal_v2_magic)) [
    | inl same ↦ absurd (magic_large ((text_eq_iff key_len journal_v2_magic).0 same))
    | inr other ↦ rw other refl
  ]
    where
      magic_large : key_len ≡ journal_v2_magic → ⊥
      magic_large q = omega (arith, ap (λ t. be_value 0 t) q, e, short)

  -- So is a record of the shape from before the fences, with fence 0.
  pub legacy-Reads :
      (key : Text) (raw bytes : Bytes)
      → IsAscii key
      → length (utf8_encode key) ≤ 1024
      → record_body sha256_digest key raw ≡ some bytes
      → Reads
          (read_record sha256_digest)
          bytes
          (record { key = key; raw = raw; last_accepted_fence = 0 })
  legacy-Reads key raw bytes h short r =
      let (key_len, body_len, k, b, whole) = record_body-eq sha256_digest key raw bytes r in
      rw whole (
        rw (sym (append-nil (sha256_digest raw))) (
          unfold read_record in
          and_then-Reads _ _ key_len _ key_len _
            (read_exact-Reads 4 key_len (pack-some 4 _ key_len k).0)
            (rw (after_header-short key_len _ (pack-some 4 _ key_len k).1 short) (
              read_fields-Reads false key raw key_len body_len [] 0 h (pack-some 4 _ key_len k).1
                (pack-some 8 _ body_len b).0 (pack-some 8 _ body_len b).1
                (unfold read_fence in give-Reads 0)))))

-- The entries of a journal and its bytes: records of `_journal_append`, and older ones.
pub data Journaled (sha256_digest : Bytes → Bytes) : List Entry → Bytes → Type 0 where
  empty : Journaled sha256_digest [] []
  current :
      {es : List Entry} {file : Bytes} (e : Entry) (bytes : Bytes)
      → IsAscii e.key
      → journal_record sha256_digest e ≡ some bytes
      → Journaled sha256_digest es file
      → Journaled sha256_digest (e ∷ es) (bytes ++ file)
  legacy :
      {es : List Entry} {file : Bytes} (key : Text) (raw bytes : Bytes)
      → IsAscii key
      → length (utf8_encode key) ≤ 1024
      → record_body sha256_digest key raw ≡ some bytes
      → Journaled sha256_digest es file
      → Journaled sha256_digest
          (record { key = key; raw = raw; last_accepted_fence = 0 } ∷ es)
          (bytes ++ file)
