-- ===== src/Local/Torn.antt =====
-- A whole journal of store/local.py, and a journal whose last append was cut short.
use knokeep.Prelude.{
  ℕ, zero, suc, Bytes, ◌≡◌, refl, ap, ◌∙◌, ◌≤◌, ◌<◌, some, List, [], ◌∷◌, ◌++◌, length,
  length-append, take, arith, IsAscii, sym,
}
use knokeep.Local.Reader.{Reads, append_assoc, and_then, read_exact}
use knokeep.Local.Journal.{
  Entry, journal_record, read_record, records_from, records_after, journal_records,
}
use knokeep.Local.Replay.{append-nil, Journaled, empty, current, legacy, v2-Reads, legacy-Reads}

module _ (sha256_digest : Bytes → Bytes)
    (digest_length : (b : Bytes) → length (sha256_digest b) ≡ 32) where
  records_from-step :
      (e : Entry) (bytes rest : Bytes) (fuel : ℕ)
      → Reads (read_record sha256_digest) bytes e
      → records_from sha256_digest (suc fuel) (bytes ++ rest)
        ≡ e ∷ records_from sha256_digest fuel rest
  unfolding records_from
  records_from-step e bytes rest fuel r =
      ap (λ o. records_after (λ t. records_from sha256_digest fuel t) o) (r.whole rest)

  records_from-torn :
      (e : Entry) (bytes : Bytes) (n fuel : ℕ)
      → Reads (read_record sha256_digest) bytes e
      → n < length bytes
      → records_from sha256_digest fuel (take n bytes) ≡ []
  unfolding records_from
  records_from-torn e bytes n zero r h = refl
  records_from-torn e bytes n (suc fuel) r h =
      ap (λ o. records_after (λ t. records_from sha256_digest fuel t) o) (r.torn n h)

  records_from-Journaled :
      {es : List Entry} {file : Bytes} (torn : Bytes) (fuel : ℕ)
      → Journaled sha256_digest es file
      → ((k : ℕ) → records_from sha256_digest k torn ≡ [])
      → length es ≤ fuel
      → records_from sha256_digest fuel (file ++ torn) ≡ es
  records_from-Journaled torn fuel empty t h = t fuel
  records_from-Journaled torn zero (current e bytes a r j) t h = absurd (omega arith)
  records_from-Journaled torn (suc fuel) (current {es} {file} e bytes a r j) t h =
      rw (append_assoc bytes file torn) (
        records_from-step e bytes (file ++ torn) fuel
          (v2-Reads sha256_digest digest_length e bytes a r)
        ∙ ap (λ t. e ∷ t) (records_from-Journaled torn fuel j t (omega arith)))
  records_from-Journaled torn zero (legacy key raw bytes a l r j) t h = absurd (omega arith)
  records_from-Journaled torn (suc fuel) (legacy {es} {file} key raw bytes a l r j) t h =
      rw (append_assoc bytes file torn) (
        records_from-step _ bytes (file ++ torn) fuel
          (legacy-Reads sha256_digest digest_length key raw bytes a l r)
        ∙ ap (λ t. record { key = key; raw = raw; last_accepted_fence = 0 } ∷ t)
            (records_from-Journaled torn fuel j t (omega arith)))

  Reads-nonempty :
      (e : Entry) (bytes : Bytes) → Reads (read_record sha256_digest) bytes e → 0 < length bytes
  Reads-nonempty e [] r = absurd (unfold read_record and_then read_exact in cc (r.whole []))
  Reads-nonempty e (b ∷ bytes) r = omega arith

  no_records : (k : ℕ) → records_from sha256_digest k [] ≡ []
  unfolding records_from read_record and_then read_exact
  no_records zero = refl
  no_records (suc k) = refl

  length-Journaled :
      {es : List Entry} {file : Bytes} → Journaled sha256_digest es file → length es ≤ length file
  length-Journaled empty = omega arith
  length-Journaled (current {es} {file} e bytes a r j) = omega (
    arith,
    length-append bytes file,
    length-Journaled j,
    Reads-nonempty e bytes (v2-Reads sha256_digest digest_length e bytes a r),
  )
  length-Journaled (legacy {es} {file} key raw bytes a l r j) = omega (
    arith,
    length-append bytes file,
    length-Journaled j,
    Reads-nonempty _ bytes (legacy-Reads sha256_digest digest_length key raw bytes a l r),
  )

  -- With ASCII keys and a digest of 32 bytes: a journal of any records in both shapes, with a last append of which only a part reached the
  -- disk, is replayed as exactly the records before the torn one.
  pub journal_records-torn :
      {es : List Entry} {file : Bytes} (e : Entry) (bytes : Bytes) (n : ℕ)
      → Journaled sha256_digest es file
      → IsAscii e.key
      → journal_record sha256_digest e ≡ some bytes
      → n < length bytes
      → journal_records sha256_digest (file ++ take n bytes) ≡ es
  unfolding journal_records
  journal_records-torn {es} {file} e bytes n j a r h =
      records_from-Journaled (take n bytes) (length (file ++ take n bytes)) j
        (λ k. records_from-torn e bytes n k (v2-Reads sha256_digest digest_length e bytes a r) h)
        (omega (arith, length-append file (take n bytes), length-Journaled j))

  -- A whole journal is replayed as its entries.
  pub journal_records-whole :
      {es : List Entry} {file : Bytes}
      → Journaled sha256_digest es file
      → journal_records sha256_digest file ≡ es
  unfolding journal_records
  journal_records-whole {es} {file} j =
      ap (λ t. records_from sha256_digest (length file) t) (sym (append-nil file))
      ∙ records_from-Journaled [] (length file) j no_records (length-Journaled j)
