-- ===== src/Local/Ends.antt =====
-- How a call of `LocalBackend.write` (store/local.py) may end, and what the files then hold.
use knokeep.Local.Backend.{
  os_error_raised, struct_error_raised, Outcome, returned, type_error, waiting, Turn, write_scanned,
  locked_write, after_section, settled, settle, expected_of, lease_of, fence_loss_settle_max,
}
use knokeep.Local.Replay.{append-nil}
use knokeep.Local.State.{
  PublishFault, after_publish, always_refused, append_bytes, append_record, name_taken, named,
  no_fault, not_prepared, not_replaced, not_synced, os_error, placed, Local, Faults, Ended,
  answered, fence_lost, struct_error, commit, after_append, journal_append, publish_entry, publish,
  accept, check_case_collision,
}
use knokeep.Prelude.{
  sym, take, ◌⊎◌, ℕ, ◌+◌, Bytes, Text, text_eq, text_eq_iff, text_eq_refl, ◌≡◌, refl, ap, Bool,
  Bool-cases, true, false, not, ◌&&◌, Option, none, some, [], ◌++◌, if◌then◌else◌, lookup, insert,
  lookup-insert, inl, inr,
}
use knokeep.Types.{Env, sha256_hex, ok, stale, exists, error, busy, Lock, OperationContext}
use knokeep.Gate.Marker.{ScannedKey, ScannedBody, verify, scanned_key, scanned_body}
use knokeep.Gate.Generation.{extract_generation}
use knokeep.Local.Journal.{Entry, journal_record}
use knokeep.Local.Write.{
  write_under_cas_lock, checked_section, create_section, fenced_section, update_section, fence_ok,
  generation_behind, hash_of_file,
}

-- What a failed call leaves: the journal has grown by some bytes at its end, and the key's file is of a
-- certain kind; every other file, lock and fence is as it was.
pub record Leaves (Own : Option Bytes → Option Bytes → Type 0) (key : Text) (s t : Local)
    : Type 0 where
  pub written : Bytes
  pub appended : t.journal ≡ s.journal ++ written
  pub own : Own (lookup key s.data_dir) (lookup key t.data_dir)
  pub others : (j : Text) → text_eq key j ≡ false → lookup j t.data_dir ≡ lookup j s.data_dir
  pub locks : (t.advisory ≡ s.advisory) × (t.owners ≡ s.owners)
  pub fences : t.last_accepted ≡ s.last_accepted

-- The file is as it was, or an empty file where there was none.
abbrev pub Refused : Option Bytes → Option Bytes → Type 0
Refused before after = (after ≡ before) ⊎ ((before ≡ none) × (after ≡ some []))

-- Or it has the body of the call.
abbrev pub Failed : Bytes → Option Bytes → Option Bytes → Type 0
Failed raw before after = Refused before after ⊎ (after ≡ some raw)

-- `OK` has the body's hash, and the key's file has it too; `BUSY` does not publish the body; an
-- `OSError` may have; every other end leaves every file as it was.
abbrev pub SectionEnd : Env → Text → Bytes → Local → Ended → Local → Type 0
SectionEnd env key raw s (answered (ok h)) t =
    (h ≡ sha256_hex env raw) × (hash_of_file env (lookup key t.data_dir) ≡ some h)
SectionEnd env key raw s (answered (error busy labels)) t = Leaves Refused key s t
SectionEnd env key raw s (answered (error kind labels)) t = t ≡ s
SectionEnd env key raw s (answered (stale current reason)) t = t ≡ s
SectionEnd env key raw s (answered (exists current)) t = t ≡ s
SectionEnd env key raw s (fence_lost current) t = t ≡ s
SectionEnd env key raw s struct_error t = t ≡ s
SectionEnd env key raw s os_error t = Leaves (Failed raw) key s t

abbrev pub WriteEnd : Env → Text → Bytes → Local → Outcome → Local → Type 0
WriteEnd env key raw s (returned result) t = SectionEnd env key raw s (answered result) t
WriteEnd env key raw s type_error t = t ≡ s
WriteEnd env key raw s struct_error_raised t = t ≡ s
WriteEnd env key raw s os_error_raised t = Leaves (Failed raw) key s t
WriteEnd env key raw s waiting t = t ≡ s

module _ (env : Env) (sha256_digest : Bytes → Bytes) where
  insert-hash :
      (e : Entry) (t : Local)
      → hash_of_file env (lookup e.key (insert e.key e.raw t.data_dir))
        ≡ some (sha256_hex env e.raw)
  insert-hash e t = rw (lookup-insert e.key e.key e.raw t.data_dir) (rw (text_eq_refl e.key) refl)

  same-Leaves :
      (Own : Option Bytes → Option Bytes → Type 0) (key : Text) (bytes : Bytes) (s : Local)
      → Own (lookup key s.data_dir) (lookup key s.data_dir)
      → Leaves Own key s (record s { journal = s.journal ++ bytes })
  same-Leaves Own key bytes s h = record {
    written = bytes;
    appended = refl;
    own = h;
    others = λ j e. refl;
    locks = (refl, refl);
    fences = refl;
  }

  insert-Leaves :
      (Own : Option Bytes → Option Bytes → Type 0) (key : Text) (raw bytes : Bytes) (s : Local)
      → Own (lookup key s.data_dir) (some raw)
      → Leaves Own key s
          (record s { data_dir = insert key raw s.data_dir; journal = s.journal ++ bytes })
  insert-Leaves Own key raw bytes s h = record {
    written = bytes;
    appended = refl;
    own = rw (lookup-insert key key raw s.data_dir) (rw (text_eq_refl key) h);
    others = λ j e. rw (lookup-insert j key raw s.data_dir) (rw e refl);
    locks = (refl, refl);
    fences = refl;
  }

  refl-Leaves : (key : Text) (s : Local) → Leaves Refused key s s
  refl-Leaves key s = record {
    written = [];
    appended = sym (append-nil s.journal);
    own = inl refl;
    others = λ j e. refl;
    locks = (refl, refl);
    fences = refl;
  }

  publish_entry-SectionEnd :
      (e : Entry) (create : Bool) (fault : PublishFault) (s : Local) (bytes : Bytes)
      → (create ≡ true → lookup e.key s.data_dir ≡ none)
      → SectionEnd env e.key e.raw s
          (publish_entry env sha256_digest e create fault
            (record s { journal = s.journal ++ bytes })).0
          (publish_entry env sha256_digest e create fault
            (record s { journal = s.journal ++ bytes })).1
  unfolding publish_entry publish named placed after_publish accept
  publish_entry-SectionEnd e create no_fault s bytes a =
      (refl, insert-hash e (record s { journal = s.journal ++ bytes }))
  publish_entry-SectionEnd e create not_prepared s bytes a =
      same-Leaves (Failed e.raw) e.key bytes s (inl (inl refl))
  publish_entry-SectionEnd e true name_taken s bytes a =
      same-Leaves Refused e.key bytes s (inl refl)
  publish_entry-SectionEnd e false name_taken s bytes a =
      (refl, insert-hash e (record s { journal = s.journal ++ bytes }))
  publish_entry-SectionEnd e true always_refused s bytes a =
      insert-Leaves Refused e.key [] bytes s (inr (a refl, refl))
  publish_entry-SectionEnd e false always_refused s bytes a =
      same-Leaves Refused e.key bytes s (inl refl)
  publish_entry-SectionEnd e true not_replaced s bytes a =
      insert-Leaves (Failed e.raw) e.key [] bytes s (inl (inr (a refl, refl)))
  publish_entry-SectionEnd e false not_replaced s bytes a =
      same-Leaves (Failed e.raw) e.key bytes s (inl (inl refl))
  publish_entry-SectionEnd e create not_synced s bytes a =
      insert-Leaves (Failed e.raw) e.key e.raw bytes s (inr refl)

  -- The commit by what packs the record.
  append_record-SectionEnd :
      (e : Entry) (create : Bool) (faults : Faults) (s : Local) (o : Option Bytes)
      → (create ≡ true → lookup e.key s.data_dir ≡ none)
      → SectionEnd env e.key e.raw s
          (after_append env sha256_digest e create faults.publication
            (append_record faults.journal o s).0
            (append_record faults.journal o s).1).0
          (after_append env sha256_digest e create faults.publication
            (append_record faults.journal o s).0
            (append_record faults.journal o s).1).1
  unfolding append_record append_bytes after_append
  append_record-SectionEnd e create faults s none a = refl
  append_record-SectionEnd e create faults s (some bytes) a = go faults.journal
    where
      go :
          (fault : Option ℕ)
          → SectionEnd env e.key e.raw s
              (after_append env sha256_digest e create faults.publication
                (append_bytes fault bytes s).0
                (append_bytes fault bytes s).1).0
              (after_append env sha256_digest e create faults.publication
                (append_bytes fault bytes s).0
                (append_bytes fault bytes s).1).1
      go none = publish_entry-SectionEnd e create faults.publication s bytes a
      go (some n) = same-Leaves (Failed e.raw) e.key (take n bytes) s (inl (inl refl))

  commit-SectionEnd :
      (e : Entry) (create : Bool) (faults : Faults) (s : Local)
      → (create ≡ true → lookup e.key s.data_dir ≡ none)
      → SectionEnd env e.key e.raw s
          (commit env sha256_digest e create faults s).0
          (commit env sha256_digest e create faults s).1
  unfolding commit journal_append
  commit-SectionEnd e create faults s a =
      append_record-SectionEnd e create faults s (journal_record sha256_digest e) a

  create_section-SectionEnd :
      (key : Text) (raw : Bytes) (faults : Faults) (s : Local) (o : Option Bytes)
      → lookup key s.data_dir ≡ o
      → SectionEnd env key raw s
          (create_section env sha256_digest key raw faults o s).0
          (create_section env sha256_digest key raw faults o s).1
  unfolding create_section
  create_section-SectionEnd key raw faults s none q =
      commit-SectionEnd (record { key = key; raw = raw; last_accepted_fence = 0 }) true faults s
        (λ c. q)
  create_section-SectionEnd key raw faults s (some current) q =
      elim (Bool-cases (text_eq (sha256_hex env current) (sha256_hex env raw))) [
        | inl h ↦ rw h (
          refl,
          rw q (ap (λ t. some t) ((text_eq_iff (sha256_hex env current) (sha256_hex env raw)).0 h)),
        )
        | inr h ↦ rw h refl
      ]

  update_section-SectionEnd :
      (key : Text) (raw : Bytes) (expected : Text) (lease : Lock) (faults : Faults) (s : Local)
      (o : Option Bytes)
      → SectionEnd env key raw s
          (update_section env sha256_digest key raw expected lease faults o s).0
          (update_section env sha256_digest key raw expected lease faults o s).1
  unfolding update_section
  update_section-SectionEnd key raw expected lease faults s none = refl
  update_section-SectionEnd key raw expected lease faults s (some current) =
      elim (Bool-cases (text_eq (sha256_hex env current) expected)) [
        | inr h ↦ rw h refl
        | inl h ↦
            rw h
              (elim (Bool-cases
                (generation_behind (extract_generation raw) (extract_generation current))) [
                  | inl g ↦ rw g refl
                  | inr g ↦ rw g (
                      commit-SectionEnd
                        (record { key = key; raw = raw; last_accepted_fence = lease.fence }) false
                        faults s (λ c. cc))
                ])
      ]

  checked_section-SectionEnd :
      (key : Text) (raw : Bytes) (expected : Option Text) (lease : Option Lock) (faults : Faults)
      (now : ℕ) (s : Local)
      → SectionEnd env key raw s
          (checked_section env sha256_digest key raw expected lease faults now s).0
          (checked_section env sha256_digest key raw expected lease faults now s).1
  unfolding checked_section fenced_section
  checked_section-SectionEnd key raw none lease faults now s =
      create_section-SectionEnd key raw faults s (lookup key s.data_dir) refl
  checked_section-SectionEnd key raw (some expected) none faults now s = refl
  checked_section-SectionEnd key raw (some expected) (some owner) faults now s =
      elim (Bool-cases (fence_ok key owner now s)) [
        | inr h ↦ rw h refl
        | inl h ↦
            rw h (update_section-SectionEnd key raw expected owner faults s (lookup key s.data_dir))
      ]

  section-SectionEnd :
      (lower : Text → Text) (key : Text) (raw : Bytes) (expected : Option Text)
      (lease : Option Lock) (faults : Faults) (now : ℕ) (s : Local)
      → SectionEnd env key raw s
          (write_under_cas_lock env sha256_digest lower key raw expected lease faults now s).0
          (write_under_cas_lock env sha256_digest lower key raw expected lease faults now s).1
  unfolding write_under_cas_lock
  section-SectionEnd lower key raw expected lease faults now s =
      elim (Bool-cases (check_case_collision lower key s)) [
        | inl h ↦ rw h refl
        | inr h ↦ rw h (checked_section-SectionEnd key raw expected lease faults now s)
      ]

  settled-WriteEnd :
      (key : Text) (raw : Bytes) (s t : Local) (o : Option (Option Text))
      → t ≡ s
      → WriteEnd env key raw s (settled o) t
  unfolding settled
  settled-WriteEnd key raw s t none q = q
  settled-WriteEnd key raw s t (some current) q = q

  after_section-WriteEnd :
      (key : Text) (raw : Bytes) (expected : Option Text) (turn : Turn) (s : Local) (x : Ended)
      (t : Local)
      → SectionEnd env key raw s x t
      → WriteEnd env key raw s (after_section env key expected turn x) t
  unfolding after_section
  after_section-WriteEnd key raw expected turn s (answered result) t h = h
  after_section-WriteEnd key raw expected turn s struct_error t h = h
  after_section-WriteEnd key raw expected turn s os_error t h = h
  after_section-WriteEnd key raw none turn s (fence_lost current) t h = h
  after_section-WriteEnd key raw (some expected) turn s (fence_lost current) t h =
      settled-WriteEnd key raw s t
        (settle env key expected (turn.monotonic + fence_loss_settle_max) turn.glimpses) h

  acquired-WriteEnd :
      (key : Text) (raw : Bytes) (s : Local) (acquired : Bool) (o : Outcome × Local)
      → WriteEnd env key raw s o.0 o.1
      → WriteEnd env key raw s
          (if not acquired then (returned (error busy []), s) else o).0
          (if not acquired then (returned (error busy []), s) else o).1
  acquired-WriteEnd key raw s true o h = h
  acquired-WriteEnd key raw s false o h = refl-Leaves key s

  -- However a call of `write` ends: a returned `OK` carries the body's hash and the key's file has
  -- it. After `BUSY` the journal may have grown, and the key's file is as it was, or an empty file
  -- where there was none. After an `OSError` of the journal or of the publication it may also have
  -- the body. Neither accepts a fence, nor changes another key or a lock. Any other result, any other
  -- exception or a wait leaves every file, lock and fence as it was.
  pub write_scanned-WriteEnd :
      (lower : Text → Text) (key : ScannedKey) (body : ScannedBody) (ctx : OperationContext)
      (turn : Turn) (s : Local)
      → WriteEnd env key.key body.body s
          (write_scanned env sha256_digest lower key body ctx turn s).0
          (write_scanned env sha256_digest lower key body ctx turn s).1
  unfolding write_scanned locked_write
  write_scanned-WriteEnd lower key body ctx turn s =
      elim (Bool-cases (verify env (scanned_key key) && verify env (scanned_body body))) [
        | inr v ↦ rw v refl
        | inl v ↦ rw v (
            acquired-WriteEnd key.key body.body s turn.acquired _ (
              after_section-WriteEnd key.key body.body (expected_of ctx.precondition) turn s _ _ (
                section-SectionEnd lower key.key body.body (expected_of ctx.precondition)
                  (lease_of ctx.precondition) turn.faults turn.now s)))
      ]
