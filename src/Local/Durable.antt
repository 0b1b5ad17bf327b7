-- ===== src/Local/Durable.antt =====
-- `LocalBackend` (store/local.py) loses no write that it acknowledged: histories of calls, a crash in
-- the middle of an append, and the replay.
use knokeep.Local.State.{
  after_publish, append_record, no_fault, placed, Local, Faults, Ended, struct_error, FenceOwner,
  commit, publish_entry, accept, publish, journal_append, after_append,
}
use knokeep.Prelude.{
  ℕ, Text, Bytes, text_eq, ◌≡◌, refl, sym, ap, ◌∙◌, ◌<◌, Bool, Bool-cases, true, false, Option,
  none, some, Option-cases, List, [], ◌∷◌, ◌++◌, ◌+◌, arith, inl, inr, IsAscii, lookup, insert,
  lookup-insert, lookup-nil, length, take,
}
use knokeep.Types.{Env, sha256_hex, Lock}
use knokeep.Local.Journal.{Entry, journal_record}
use knokeep.Local.Replay.{Journaled, empty}
use knokeep.Local.Write.{
  write_under_cas_lock, lock, unlock, renew, renew_owner, holds, resume, hash_of_file,
}
use knokeep.Local.Recovery.{last_of, resume-torn}
use knokeep.Local.Commit.{Journaled-append, last_of-append, commit-eq}
use knokeep.Local.Safety.{Permitted, unchanged, created, updated, write-Permitted}

abbrev raw_part : Option (Bytes × ℕ) → Option Bytes
raw_part none = none
raw_part (some (raw, fence)) = some raw

abbrev fence_part : Option (Bytes × ℕ) → Option ℕ
fence_part none = none
fence_part (some (raw, fence)) = some fence

raw_part-some :
    (o : Option (Bytes × ℕ)) (raw : Bytes)
    → raw_part o ≡ some raw
    → (fence : ℕ) × (o ≡ some (raw, fence))
raw_part-some none raw h = cc
raw_part-some (some (body, fence)) raw h = (fence, ground (arith, h))

-- A disk that refuses nothing.
abbrev pub no_faults : Faults
no_faults = record { journal = none; publication = no_fault }

abbrev pub empty_local : Bool → Local
empty_local case_insensitive = record {
  data_dir = [];
  journal = [];
  advisory = [];
  owners = [];
  last_accepted = [];
  case_insensitive = case_insensitive;
}

module _ (env : Env) (sha256_digest : Bytes → Bytes) where
  -- Files and fences are those of the last records.
  pub record IsDurable (s : Local) : Type 0 where
    pub entries : List Entry
    pub journaled : Journaled sha256_digest entries s.journal
    pub stored : (k : Text) → lookup k s.data_dir ≡ raw_part (last_of k entries)
    pub accepted : (k : Text) → lookup k s.last_accepted ≡ fence_part (last_of k entries)

  -- The state after a commit.
  abbrev committed_state : Entry → Bytes → Local → Local
  committed_state e bytes s = record s {
    data_dir = insert e.key e.raw s.data_dir;
    journal = s.journal ++ bytes;
    last_accepted = insert e.key e.last_accepted_fence s.last_accepted;
  }

  committed_state-IsDurable :
      (e : Entry) (s : Local) (bytes : Bytes)
      → IsAscii e.key
      → journal_record sha256_digest e ≡ some bytes
      → IsDurable s
      → IsDurable (committed_state e bytes s)
  committed_state-IsDurable e s bytes a r d = record {
    entries = d.entries ++ (e ∷ []);
    journaled = Journaled-append sha256_digest e bytes a r d.journaled;
    stored = λ k. rw (lookup-insert k e.key e.raw s.data_dir) (
        rw (last_of-append k d.entries e)
          (elim (Bool-cases (text_eq e.key k)) [ inl h ↦ rw h refl | inr h ↦ rw h (d.stored k) ]));
    accepted = λ k. rw (lookup-insert k e.key e.last_accepted_fence s.last_accepted) (
        rw (last_of-append k d.entries e) (elim (Bool-cases (text_eq e.key k)) [
          | inl h ↦ rw h refl
          | inr h ↦ rw h (d.accepted k)
        ]));
  }

  commit-step :
      (e : Entry) (create : Bool) (s : Local) (bytes : Bytes)
      → IsAscii e.key
      → journal_record sha256_digest e ≡ some bytes
      → IsDurable s
      → IsDurable
          (publish_entry env sha256_digest e create no_fault
            (record s { journal = s.journal ++ bytes })).1
  unfolding publish_entry publish placed after_publish accept
  commit-step e true s bytes a r d = committed_state-IsDurable e s bytes a r d
  commit-step e false s bytes a r d = committed_state-IsDurable e s bytes a r d

  commit-none :
      (e : Entry) (create : Bool) (s : Local)
      → journal_record sha256_digest e ≡ none
      → commit env sha256_digest e create no_faults s ≡ (struct_error, s)
  unfolding commit journal_append append_record after_append
  commit-none e create s h =
      ap
        (λ o.
          let (end, t) = append_record none o s in
          after_append env sha256_digest e create no_fault end t)
        h

  commit-IsDurable :
      (e : Entry) (create : Bool) (s : Local)
      → IsAscii e.key
      → IsDurable s
      → IsDurable (commit env sha256_digest e create no_faults s).1
  commit-IsDurable e create s a d = elim (Option-cases (journal_record sha256_digest e)) [
    | inl h ↦ rw (commit-none e create s h) d
    | inr (bytes, h) ↦
        rw (commit-eq env sha256_digest e create no_fault s bytes h)
          (commit-step e create s bytes a h d)
  ]

  Permitted-IsDurable :
      (key : Text) (raw : Bytes) (expected : Option Text) (lease : Option Lock) (now : ℕ)
      (s : Local) (o : Ended × Local)
      → IsAscii key
      → Permitted env sha256_digest key raw expected lease no_faults now s o
      → IsDurable s
      → IsDurable o.1
  Permitted-IsDurable key raw expected lease now s _ a (unchanged x) d = d
  Permitted-IsDurable key raw expected lease now s _ a (created e l) d =
      commit-IsDurable _ true s a d
  Permitted-IsDurable key raw expected lease now s _ a (updated owner current e f l h g) d =
      commit-IsDurable _ false s a d

  -- Calls of a running backend on a disk that refuses nothing.
  pub data LocalStep (s : Local) : Local → Type 0 where
    wrote :
        (lower : Text → Text) (key : Text) (raw : Bytes) (expected : Option Text)
        (lease : Option Lock) (now : ℕ)
        → IsAscii key
        → LocalStep s
            (write_under_cas_lock env sha256_digest lower key raw expected lease no_faults now s).1
    locked : (key : Text) (ttl now : ℕ) (token : Text) → LocalStep s (lock key ttl now token s).1
    unlocked : (l : Lock) (now : ℕ) → LocalStep s (unlock l now s).1
    renewed : (l : Lock) (ttl now : ℕ) → LocalStep s (renew l ttl now s).1

  pub data LocalReach (s : Local) : Local → Type 0 where
    here : LocalReach s s
    next : {t u : Local} → LocalReach s t → LocalStep t u → LocalReach s u

  same-IsDurable :
      (s t : Local)
      → (s.data_dir ≡ t.data_dir) × (s.journal ≡ t.journal) × (s.last_accepted ≡ t.last_accepted)
      → IsDurable s
      → IsDurable t
  same-IsDurable s t (a, b, c) d = record {
    entries = d.entries;
    journaled = rw b at d.journaled;
    stored = λ k. ap (λ x. lookup k x) (sym a) ∙ d.stored k;
    accepted = λ k. ap (λ x. lookup k x) (sym c) ∙ d.accepted k;
  }

  renew_owner-same :
      (l : Lock) (expiry : ℕ) (o : Option FenceOwner) (s : Local)
      → (s.data_dir ≡ (renew_owner l expiry o s).1.data_dir)
        × (s.journal ≡ (renew_owner l expiry o s).1.journal)
        × (s.last_accepted ≡ (renew_owner l expiry o s).1.last_accepted)
  unfolding renew_owner
  renew_owner-same l expiry none s = (refl, refl, refl)
  renew_owner-same l expiry (some owner) s = ground arith

  renew-same :
      (l : Lock) (ttl now : ℕ) (s : Local)
      → (s.data_dir ≡ (renew l ttl now s).1.data_dir)
        × (s.journal ≡ (renew l ttl now s).1.journal)
        × (s.last_accepted ≡ (renew l ttl now s).1.last_accepted)
  unfolding renew
  renew-same l ttl now s = elim (Bool-cases (holds l now (lookup l.key s.advisory))) [
    | inl h ↦ rw h (renew_owner-same l (now + ttl) (lookup l.key s.owners) s)
    | inr h ↦ rw h (refl, refl, refl)
  ]

  LocalStep-IsDurable : {s t : Local} → LocalStep s t → IsDurable s → IsDurable t
  LocalStep-IsDurable {s} (wrote lower key raw expected lease now a) d =
      Permitted-IsDurable key raw expected lease now s _ a
        (write-Permitted env sha256_digest lower key raw expected lease no_faults now s) d
  LocalStep-IsDurable {s} (locked key ttl now token) d =
      same-IsDurable s (lock key ttl now token s).1 (unfold lock in ground arith) d
  LocalStep-IsDurable {s} (unlocked l now) d =
      same-IsDurable s (unlock l now s).1 (unfold unlock in ground arith) d
  LocalStep-IsDurable {s} (renewed l ttl now) d =
      same-IsDurable s (renew l ttl now s).1 (renew-same l ttl now s) d

  LocalReach-IsDurable : {s t : Local} → LocalReach s t → IsDurable s → IsDurable t
  LocalReach-IsDurable here d = d
  LocalReach-IsDurable (next r st) d = LocalStep-IsDurable st (LocalReach-IsDurable r d)

  empty_local-IsDurable : (b : Bool) → IsDurable (empty_local b)
  empty_local-IsDurable b = record {
    entries = [];
    journaled = empty;
    stored = λ k. lookup-nil k;
    accepted = λ k. lookup-nil k;
  }

  -- With ASCII keys and a digest of 32 bytes: from an empty root, after any calls on a disk that
  -- refuses nothing, and then a crash in the middle of another append, whatever the published files have become, the replay gives every
  -- key that was stored its content hash back, and its accepted fence.
  pub resume-durable :
      (b : Bool) (t u : Local) (e : Entry) (bytes : Bytes) (n : ℕ) (k : Text) (raw : Bytes)
      → ((c : Bytes) → length (sha256_digest c) ≡ 32)
      → LocalReach (empty_local b) t
      → lookup k t.data_dir ≡ some raw
      → IsAscii e.key
      → journal_record sha256_digest e ≡ some bytes
      → n < length bytes
      → u.journal ≡ t.journal ++ take n bytes
      → (hash_of_file env (lookup k (resume env sha256_digest u).data_dir)
          ≡ some (sha256_hex env raw))
        × (lookup k (resume env sha256_digest u).last_accepted ≡ lookup k t.last_accepted)
  resume-durable b t u e bytes n k raw l r q a h m j =
      let d : IsDurable t = LocalReach-IsDurable r (empty_local-IsDurable b) in
      let (fence, found) = raw_part-some (last_of k d.entries) raw (sym (d.stored k) ∙ q) in
      let (hash, kept) =
        (resume-torn env sha256_digest u e bytes n k l d.journaled a h m j).0 raw fence found in
      (hash, kept ∙ sym (d.accepted k ∙ ap fence_part found))
