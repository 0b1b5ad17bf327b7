-- ===== src/Local/Journal.antt =====
-- The journal of store/local.py: its records in both shapes, and the reader that replays them. A
-- file is its bytes.
use knokeep.Prelude.{
  ℕ, zero, suc, ◌+◌, ◌*◌, ◌/◌, ◌%◌, Text, Bytes, codes, text_eq, Bool, true, false, Option, none,
  some, List, [], ◌∷◌, ◌++◌, ◌>>=◌, length, ltb, if◌then◌else◌, utf8_encode,
}
use knokeep.Gate.Platform.{utf8_decode}
use knokeep.Local.Reader.{Reader, read_exact, and_then, give, stop}

-- What a record holds, as the replay yields it.
pub record Entry : Type 0 where
  pub key : Text
  pub raw : Bytes
  pub last_accepted_fence : ℕ

-- `_JOURNAL_V2_MAGIC`
abbrev pub journal_v2_magic : Bytes
journal_v2_magic = codes "KKJ2"

-- A big-endian number of so many bytes.
unfoldable pub be_bytes : ℕ → ℕ → Bytes
be_bytes zero n = []
be_bytes (suc width) n = be_bytes width (n / 256) ++ ((n % 256) ∷ [])

unfoldable pub be_value : ℕ → Bytes → ℕ
be_value acc [] = acc
be_value acc (c ∷ s) = be_value (acc * 256 + c) s

-- The numbers of so many bytes.
abbrev pub byte_range : ℕ → ℕ
byte_range zero = 1
byte_range (suc width) = 256 * byte_range width

-- `struct.pack`, where `none` is a `struct.error`
unfoldable pub pack : ℕ → ℕ → Option Bytes
pack width n = if ltb n (byte_range width) then some (be_bytes width n) else none

unfoldable pub read_fence : Bool → Reader ℕ
read_fence true = and_then (read_exact 8) (λ fence. give (be_value 0 fence))
read_fence false = give 0

unfoldable pub give_entry : Option Text → Bytes → ℕ → Reader Entry
give_entry none body fence = stop
give_entry (some key) body fence =
    give (record { key = key; raw = body; last_accepted_fence = fence })

-- A torn or corrupt record ends the replay.
abbrev pub records_after : (Bytes → List Entry) → Option (Entry × Bytes) → List Entry
records_after later none = []
records_after later (some (e, rest)) = e ∷ later rest

module _ (sha256_digest : Bytes → Bytes) where
  -- The fields that both shapes share.
  unfoldable pub record_body : Text → Bytes → Option Bytes
  unfolding pack
  record_body key raw = do
    key_len ← pack 4 (length (utf8_encode key))
    body_len ← pack 8 (length raw)
    some (key_len ++ (utf8_encode key ++ (body_len ++ (raw ++ sha256_digest raw))))

  -- The record that `_journal_append` writes.
  unfoldable pub journal_record : Entry → Option Bytes
  unfolding record_body
  journal_record e = do
    fields ← record_body e.key e.raw
    fence ← pack 8 e.last_accepted_fence
    some (journal_v2_magic ++ (fields ++ fence))

  unfoldable pub read_checked : Bool → Bytes → Bytes → Bytes → Reader Entry
  unfolding read_fence give_entry
  read_checked is_v2 key_bytes body digest =
      if text_eq (sha256_digest body) digest
      then and_then (read_fence is_v2) (λ fence. give_entry (utf8_decode key_bytes) body fence)
      else stop

  unfoldable pub read_fields : Bool → Bytes → Reader Entry
  unfolding read_checked
  read_fields is_v2 header = and_then (read_exact (be_value 0 header)) (λ key_bytes.
      and_then (read_exact 8) (λ body_len.
        and_then (read_exact (be_value 0 body_len))
          (λ body. and_then (read_exact 32) (λ digest. read_checked is_v2 key_bytes body digest))))

  unfoldable pub after_header : Bytes → Reader Entry
  unfolding read_fields
  after_header header =
      if text_eq header journal_v2_magic
      then and_then (read_exact 4) (λ key_len. read_fields true key_len)
      else read_fields false header

  -- One round of the loop of `_iter_journal_records`.
  unfoldable pub read_record : Reader Entry
  unfolding after_header
  read_record s = and_then (read_exact 4) after_header s

  unfoldable pub records_from : ℕ → Bytes → List Entry
  records_from zero s = []
  records_from (suc fuel) s = records_after (λ rest. records_from fuel rest) (read_record s)

  -- `_iter_journal_records`: a record takes at least one byte.
  unfoldable pub journal_records : Bytes → List Entry
  unfolding records_from
  journal_records file = records_from (length file) file
