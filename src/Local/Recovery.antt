-- ===== src/Local/Recovery.antt =====
-- `_resume` of store/local.py after a crash: what each key holds then.
use knokeep.Prelude.{
  ℕ, Text, Bytes, text_eq, text_eq_iff, text_eq_refl, ◌≡◌, refl, ap, ◌∙◌, ◌<◌, Bool-cases, true,
  Option, none, some, List, [], ◌∷◌, ◌++◌, length, take, arith, inl, inr, if◌then◌else◌, IsAscii,
  Dict, lookup, insert, lookup-insert, lookup-nil,
}
use knokeep.Types.{Env, sha256_hex}
use knokeep.Local.Journal.{Entry, journal_record, journal_records}
use knokeep.Local.Replay.{Journaled}
use knokeep.Local.Torn.{journal_records-torn}
use knokeep.Local.State.{Local}
use knokeep.Local.Write.{latest_onto, rebuild, rebuild_all, resume, hash_of_file, is_current}

-- The last of two optional values.
abbrev pub later_or {ℓ} : {A : Type ℓ} → Option A → Option A → Option A
later_or none o = o
later_or (some a) o = some a

-- What the last record of a key holds.
abbrev pub last_of : Text → List Entry → Option (Bytes × ℕ)
last_of k [] = none
last_of k (e ∷ es) =
    later_or (last_of k es) (if text_eq e.key k then some (e.raw, e.last_accepted_fence) else none)

later_or-none {ℓ} : {A : Type ℓ} (o : Option A) → later_or o none ≡ o
later_or-none none = refl
later_or-none (some a) = refl

abbrev Unique {ℓ} : {V : Type ℓ} → Dict V → Type ℓ
Unique [] = Unit
Unique ((k, v) ∷ d) = (lookup k d ≡ none) × Unique d

latest_onto-lookup :
    (k : Text) (es : List Entry) (d : Dict (Bytes × ℕ))
    → lookup k (latest_onto d es) ≡ later_or (last_of k es) (lookup k d)
unfolding latest_onto
latest_onto-lookup k [] d = refl
latest_onto-lookup k (e ∷ es) d =
    rw (latest_onto-lookup k es (insert e.key (e.raw, e.last_accepted_fence) d))
      (rw (lookup-insert k e.key (e.raw, e.last_accepted_fence) d) (go (last_of k es)))
  where
    go :
        (o : Option (Bytes × ℕ))
        → later_or o (if text_eq e.key k then some (e.raw, e.last_accepted_fence) else lookup k d)
          ≡ later_or
              (later_or o (if text_eq e.key k then some (e.raw, e.last_accepted_fence) else none))
              (lookup k d)
    go none = elim (Bool-cases (text_eq e.key k)) [ inl h ↦ rw h refl | inr h ↦ rw h refl ]
    go (some v) = refl

insert-Unique : (k : Text) (v : Bytes × ℕ) (d : Dict (Bytes × ℕ)) → Unique d → Unique (insert k v d)
unfolding insert lookup
insert-Unique k v [] u = ground arith
insert-Unique k v ((j, w) ∷ d) u = elim (Bool-cases (text_eq j k)) [
  | inl h ↦ rw h u
  | inr h ↦ rw h (
      rw (lookup-insert j k v d)
        (ground (arith, text_eq_iff j k, text_eq_iff k j, u, h), insert-Unique k v d u.1))
]

latest_onto-Unique : (es : List Entry) (d : Dict (Bytes × ℕ)) → Unique d → Unique (latest_onto d es)
unfolding latest_onto
latest_onto-Unique [] d u = u
latest_onto-Unique (e ∷ es) d u =
    latest_onto-Unique es (insert e.key (e.raw, e.last_accepted_fence) d)
      (insert-Unique e.key (e.raw, e.last_accepted_fence) d u)

module _ (env : Env) (sha256_digest : Bytes → Bytes) where
  -- A key that is not in the dict keeps its file and its fence.
  rebuild_all-other :
      (k : Text) (d : Dict (Bytes × ℕ)) (s : Local)
      → lookup k d ≡ none
      → (lookup k (rebuild_all env sha256_digest d s).data_dir ≡ lookup k s.data_dir)
        × (lookup k (rebuild_all env sha256_digest d s).last_accepted ≡ lookup k s.last_accepted)
  unfolding rebuild_all lookup
  rebuild_all-other k [] s h = (refl, refl)
  rebuild_all-other k ((j, (raw, fence)) ∷ d) s h =
      let (a, b) =
        rebuild_all-other k d (rebuild env sha256_digest j raw fence s) (ground (arith, h)) in
      (
        a ∙ unfold rebuild in ground (arith, h, lookup-insert k j raw s.data_dir),
        b ∙ unfold rebuild in ground (arith, h, lookup-insert k j fence s.last_accepted),
      )

  is_current-hash :
      (raw : Bytes) (o : Option Bytes)
      → is_current env sha256_digest raw o ≡ true
      → hash_of_file env o ≡ some (sha256_hex env raw)
  unfolding is_current
  is_current-hash raw none h = cc
  is_current-hash raw (some current) h =
      ap (λ t. some t) ((text_eq_iff (sha256_hex env current) (sha256_hex env raw)).0 h)

  rebuild-hash :
      (k : Text) (raw : Bytes) (fence : ℕ) (s : Local)
      → hash_of_file env (lookup k (rebuild env sha256_digest k raw fence s).data_dir)
        ≡ some (sha256_hex env raw)
  unfolding rebuild
  rebuild-hash k raw fence s =
      elim (Bool-cases (is_current env sha256_digest raw (lookup k s.data_dir))) [
        | inl h ↦ rw h (is_current-hash raw (lookup k s.data_dir) h)
        | inr h ↦ rw h (rw (lookup-insert k k raw s.data_dir) (rw (text_eq_refl k) refl))
      ]

  rebuild-fence :
      (k : Text) (raw : Bytes) (fence : ℕ) (s : Local)
      → lookup k (rebuild env sha256_digest k raw fence s).last_accepted ≡ some fence
  unfolding rebuild
  rebuild-fence k raw fence s =
      rw (lookup-insert k k fence s.last_accepted) (rw (text_eq_refl k) refl)

  -- The file has this content hash, and the fence is the accepted one.
  abbrev pub IsRebuilt : Text → Bytes → ℕ → Local → Type 0
  IsRebuilt k raw fence t =
      (hash_of_file env (lookup k t.data_dir) ≡ some (sha256_hex env raw))
      × (lookup k t.last_accepted ≡ some fence)

  rebuild_all-head :
      (k : Text) (raw : Bytes) (fence : ℕ) (d : Dict (Bytes × ℕ)) (s : Local)
      → lookup k d ≡ none
      → IsRebuilt k raw fence
          (rebuild_all env sha256_digest d (rebuild env sha256_digest k raw fence s))
  rebuild_all-head k raw fence d s h =
      let (a, b) = rebuild_all-other k d (rebuild env sha256_digest k raw fence s) h in
      (ap (λ o. hash_of_file env o) a ∙ rebuild-hash k raw fence s, b ∙ rebuild-fence k raw fence s)

  rebuild_all-IsRebuilt :
      (k : Text) (raw : Bytes) (fence : ℕ) (d : Dict (Bytes × ℕ)) (s : Local)
      → Unique d
      → lookup k d ≡ some (raw, fence)
      → IsRebuilt k raw fence (rebuild_all env sha256_digest d s)
  unfolding rebuild_all lookup
  rebuild_all-IsRebuilt k raw fence [] s u h = absurd (ground arith)
  rebuild_all-IsRebuilt k raw fence ((j, (body, f)) ∷ d) s u h = elim (Bool-cases (text_eq j k)) [
    | inl e ↦ rw ((text_eq_iff j k).0 e) (
        rw (head_raw e) (
          rw (head_fence e) (rebuild_all-head k raw fence d s (rw ((text_eq_iff j k).0 e) at u.0))))
    | inr e ↦
        rebuild_all-IsRebuilt k raw fence d (rebuild env sha256_digest j body f s) u.1
          (ground (arith, h, e))
  ]
    where
      head_raw : text_eq j k ≡ true → body ≡ raw
      head_raw e = ground (arith, h, e)

      head_fence : text_eq j k ≡ true → f ≡ fence
      head_fence e = ground (arith, h, e)

  -- What `_resume` leaves, by the records that it reads.
  abbrev pub IsResumed : Text → List Entry → Local → Local → Type 0
  IsResumed k es s t =
      ((raw : Bytes) (fence : ℕ) → last_of k es ≡ some (raw, fence) → IsRebuilt k raw fence t)
      × (last_of k es ≡ none → lookup k t.data_dir ≡ lookup k s.data_dir)

  latest-last_of :
      (k : Text) (es : List Entry) {o : Option (Bytes × ℕ)}
      → last_of k es ≡ o
      → lookup k (latest_onto [] es) ≡ o
  latest-last_of k es found =
      latest_onto-lookup k es []
      ∙ (ap (λ o. later_or (last_of k es) o) (lookup-nil k)
          ∙ (later_or-none (last_of k es) ∙ found))

  pub resume-IsResumed :
      (s : Local) (es : List Entry) (k : Text)
      → journal_records sha256_digest s.journal ≡ es
      → IsResumed k es s (resume env sha256_digest s)
  unfolding resume
  resume-IsResumed s es k h = rw h (
    λ raw fence found.
        rebuild_all-IsRebuilt k raw fence (latest_onto [] es) s (latest_onto-Unique es [] tt)
          (latest-last_of k es found),
    λ missing. (rebuild_all-other k (latest_onto [] es) s (latest-last_of k es missing)).0,
  )

  -- With ASCII keys and a digest of 32 bytes: after a crash in the middle of an append, and whatever has become of the published files, the
  -- replay gives each key that the journal names the content hash and the accepted fence of its
  -- last whole record, and leaves the file of every other key alone.
  pub resume-torn :
      {es : List Entry} {file : Bytes} (s : Local) (e : Entry) (bytes : Bytes) (n : ℕ) (k : Text)
      → ((b : Bytes) → length (sha256_digest b) ≡ 32)
      → Journaled sha256_digest es file
      → IsAscii e.key
      → journal_record sha256_digest e ≡ some bytes
      → n < length bytes
      → s.journal ≡ file ++ take n bytes
      → IsResumed k es s (resume env sha256_digest s)
  resume-torn {es} s e bytes n k l j a r h q = resume-IsResumed s es k (
      ap (λ t. journal_records sha256_digest t) q
      ∙ journal_records-torn sha256_digest l e bytes n j a r h)
