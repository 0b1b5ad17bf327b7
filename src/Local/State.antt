-- ===== src/Local/State.antt =====
-- The files of `LocalBackend` (store/local.py) under its root, and its commit: journal first, then
-- the published file. A published file is found by its key, to whose segments its path is mapped.
use knokeep.Prelude.{
  take, ℕ, Bytes, Text, text_eq, Bool, true, false, not, ◌&&◌, ◌||◌, Option, none, some, List, [],
  ◌∷◌, ◌++◌, any, if◌then◌else◌, Dict, lookup, insert, map,
}
use knokeep.Types.{Env, sha256_hex, Blob, Caps, WriteResult, ok, error, busy}
use knokeep.Gate.Keys.{split}
use knokeep.Local.Journal.{Entry, journal_record}

-- A file under locks/fence-alloc/.
pub record FenceOwner : Type 0 where
  pub token : Text
  pub expiry : ℕ
  pub fence : ℕ

pub record Local : Type 0 where
  pub data_dir : Dict Bytes
  pub journal : Bytes
  -- files under locks/advisory/
  pub advisory : Dict (Text × ℕ)
  pub owners : Dict FenceOwner
  -- `_last_accepted_fence`, in memory
  pub last_accepted : Dict ℕ
  pub case_insensitive : Bool

unfoldable pub capabilities : Caps
capabilities = record {
  atomic = true;
  cas = true;
  lock = true;
  durable = true;
  remote = false;
  fence = true;
}

abbrev pub blob_of : Env → Option Bytes → Option Blob
blob_of env none = none
blob_of env (some raw) = some (record { body = raw; version_hash = sha256_hex env raw })

unfoldable pub read : Env → Text → Local → Option Blob
read env key s = blob_of env (lookup key s.data_dir)

abbrev pub fence_or_zero : Option ℕ → ℕ
fence_or_zero none = 0
fence_or_zero (some n) = n

-- `self._last_accepted_fence.get(key, 0)`
unfoldable pub accepted_at : Text → Local → ℕ
accepted_at key s = fence_or_zero (lookup key s.last_accepted)

-- An entry of a directory that is another name and differs from it by case alone.
abbrev pub aliases : (Text → Text) → Text → List Text → Bool
aliases lower part [] = false
aliases lower part (entry ∷ path) = not (text_eq entry part) && text_eq (lower entry) (lower part)

-- The paths in a subdirectory.
abbrev pub below : Text → List (List Text) → List (List Text)
below part [] = []
below part ([] ∷ paths) = below part paths
below part ((entry ∷ path) ∷ paths) =
    let rest = below part paths in if text_eq entry part then path ∷ rest else rest

unfoldable pub collides : (Text → Text) → List Text → List (List Text) → Bool
collides lower [] paths = false
collides lower (part ∷ parts) paths =
    any (λ path. aliases lower part path) paths || collides lower parts (below part paths)

-- `_check_case_collision`, where `lower` is `str.lower`
unfoldable pub check_case_collision : (Text → Text) → Text → Local → Bool
unfolding collides
check_case_collision lower key s =
    s.case_insensitive && collides lower (split b'/' key) (map (λ f. split b'/' f.0) s.data_dir)

-- What the system does in one `_publish`.
pub data PublishFault : Type 0 where
  no_fault : PublishFault
  -- an `OSError` before the key's name is there: of the directory, the staged file, or the
  -- reservation
  not_prepared : PublishFault
  -- the reservation of a new name finds a file
  name_taken : PublishFault
  -- every attempt of `os.replace` is a `PermissionError`
  always_refused : PublishFault
  -- another `OSError` after the reservation, before the staged file takes the name
  not_replaced : PublishFault
  -- an `OSError` of `_fsync_dir`
  not_synced : PublishFault

-- What the system does in one `_commit`. An `OSError` of `_journal_append` leaves so many bytes of the
-- record in the file, all of them if it is of `os.fsync`.
pub record Faults : Type 0 where
  pub journal : Option ℕ
  pub publication : PublishFault

-- How `_publish` ends: well, with `_ReservationRace` or `_ReplaceBusy`, or with an `OSError`.
pub data Published : Type 0 where
  landed publish_busy publish_failed : Published

-- The reservation of a new name is an empty file.
unfoldable pub named : Text → Bool → Local → Local
named key true s = record s { data_dir = insert key [] s.data_dir }
named key false s = s

unfoldable pub placed : Text → Bytes → Local → Local
placed key raw s = record s { data_dir = insert key raw s.data_dir }

-- `_publish`. Only a create reserves a name.
unfoldable pub publish : Text → Bytes → (create : Bool) → PublishFault → Local → Published × Local
unfolding named placed
publish key raw create no_fault s = (landed, placed key raw s)
publish key raw create not_prepared s = (publish_failed, s)
publish key raw true name_taken s = (publish_busy, s)
publish key raw false name_taken s = (landed, placed key raw s)
publish key raw create always_refused s = (publish_busy, named key create s)
publish key raw create not_replaced s = (publish_failed, named key create s)
publish key raw create not_synced s = (publish_failed, placed key raw s)

-- How `_journal_append` ends: well, with a `struct.error` before the append, or with an `OSError`.
pub data Appended : Type 0 where
  appended not_packed append_failed : Appended

-- How a section under cas.lock ends.
pub data Ended : Type 0 where
  answered : WriteResult → Ended
  fence_lost : Option Text → Ended
  struct_error os_error : Ended

unfoldable pub append_bytes : Option ℕ → Bytes → Local → Appended × Local
append_bytes none bytes s = (appended, record s { journal = s.journal ++ bytes })
append_bytes (some n) bytes s = (append_failed, record s { journal = s.journal ++ take n bytes })

unfoldable pub append_record : Option ℕ → Option Bytes → Local → Appended × Local
unfolding append_bytes
append_record fault none s = (not_packed, s)
append_record fault (some bytes) s = append_bytes fault bytes s

module _ (env : Env) (sha256_digest : Bytes → Bytes) where
  -- `_journal_append`
  unfoldable pub journal_append : Entry → Option ℕ → Local → Appended × Local
  unfolding append_record
  journal_append e fault s = append_record fault (journal_record sha256_digest e) s

  unfoldable pub accept : Entry → Local → Local
  accept e s = record s { last_accepted = insert e.key e.last_accepted_fence s.last_accepted }

  -- The fence is recorded as accepted once `_publish` has ended well; `BUSY` is what `write` makes of
  -- the two exceptions of its own.
  unfoldable pub after_publish : Entry → Published → Local → Ended × Local
  unfolding accept
  after_publish e landed s = (answered (ok (sha256_hex env e.raw)), accept e s)
  after_publish e publish_busy s = (answered (error busy []), s)
  after_publish e publish_failed s = (os_error, s)

  unfoldable pub publish_entry : Entry → Bool → PublishFault → Local → Ended × Local
  unfolding publish after_publish
  publish_entry e create fault s =
      let (published, t) = publish e.key e.raw create fault s in after_publish e published t

  -- The record is in the journal before anything is published.
  unfoldable pub after_append : Entry → Bool → PublishFault → Appended → Local → Ended × Local
  unfolding publish_entry
  after_append e create fault appended s = publish_entry e create fault s
  after_append e create fault not_packed s = (struct_error, s)
  after_append e create fault append_failed s = (os_error, s)

  -- `_commit`, with the `BUSY` that `write` makes of its exceptions and the `OK` that follows it
  unfoldable pub commit : Entry → Bool → Faults → Local → Ended × Local
  unfolding journal_append after_append
  commit e create faults s =
      let (end, t) = journal_append e faults.journal s in
      after_append e create faults.publication end t
