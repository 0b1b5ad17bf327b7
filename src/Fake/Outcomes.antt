-- ===== src/Fake/Outcomes.antt =====
-- What the results of `FakeBackend.write` (store/fake.py) promise a caller.
use knokeep.Prelude.{
  ℕ, ◌+◌, Bytes, Text, text_eq, text_eq_iff, ◌≡◌, refl, ◌⊎◌, inl, inr, Option, none, some, arith,
  lookup, lookup-insert, if◌then◌else◌, Bool-cases, ltb, List, ◌-◌, ◌&&◌, ap, ◌∙◌, text_eq_refl,
}
use knokeep.Types.{
  Env, sha256_hex, WriteResult, ok, stale, exists, error, timeout_after_commit, conflict_unknown,
  committed, definitely_not_committed, commit_class, OperationContext, Precondition,
}
use knokeep.Gate.Marker.{scanned_key, scanned_body, ScannedKey, ScannedBody, verify}
use knokeep.Fake.State.{Fake, hash_of}
use knokeep.Fake.Write.{
  commit, attempt, write_section, Section, done, fence_lost, Outcome, returned, connection_error,
  type_error, waiting, write_scanned, after_section, settled, Schedule, Moment,
  fence_loss_settle_max,
}
use knokeep.Fake.Effect.{SameData, Permits, SectionSpec, accepts, write_section-SectionSpec}

-- What a call of `write` may leave behind, for each way in which it ends.
abbrev pub WriteSpec : Text → Bytes → Text → Precondition → ℕ → Fake → Outcome → Fake → Type 0
WriteSpec k raw h pre now s (returned (stale current reason)) t = (t ≡ s) × ¬ (Permits k pre now s)
WriteSpec k raw h pre now s (returned r) t = SectionSpec k raw h pre now s (done r) t
WriteSpec k raw h pre now s connection_error t = SameData t s
WriteSpec k raw h pre now s type_error t = t ≡ s
WriteSpec k raw h pre now s waiting t = (t ≡ s) × ¬ (Permits k pre now s)

module _ (k : Text) (raw : Bytes) (h : Text) (pre : Precondition) (now : ℕ) (s : Fake) where
  settled-WriteSpec :
      (o : Option (Option Text)) (t : Fake)
      → (t ≡ s) × ¬ (Permits k pre now s)
      → WriteSpec k raw h pre now s (settled o) t
  unfolding settled
  settled-WriteSpec none t f = f
  settled-WriteSpec (some c) t f = f

  after_section-WriteSpec :
      (deadline : ℕ) (moments : List Moment) (sec : Section) (t : Fake)
      → SectionSpec k raw h pre now s sec t
      → WriteSpec k raw h pre now s (after_section k pre deadline moments sec) t
  unfolding after_section
  after_section-WriteSpec deadline moments (done (ok new)) t f = f
  after_section-WriteSpec deadline moments (done (stale c reason)) t f = (f.0, f.3)
  after_section-WriteSpec deadline moments (done (exists c)) t f = f
  after_section-WriteSpec deadline moments (done (error kind labels)) t f = f
  after_section-WriteSpec deadline moments fence_lost t f = settled-WriteSpec _ t f

  attempt-WriteSpec :
      (moments : List Moment) (monotonic : ℕ)
      → let time : Schedule = record { now = now; monotonic = monotonic; moments = moments } in
        WriteSpec k raw h pre now s (attempt k raw h pre time s).0 (attempt k raw h pre time s).1
  unfolding attempt
  attempt-WriteSpec moments monotonic =
      after_section-WriteSpec (monotonic + fence_loss_settle_max) moments
        (write_section k raw h pre now s).0 (write_section k raw h pre now s).1
        (write_section-SectionSpec k raw h pre now s)

pub of_eq : {s t : Fake} → s ≡ t → SameData s t
of_eq e = record {
  store = ap (λ u. u.store) e;
  locks = ap (λ u. u.locks) e;
  fence = ap (λ u. u.fence) e;
}

abbrev pub dropped : Fake → Fake
dropped s = record s { faults = record s.faults { network = s.faults.network - 1 } }

module _ (env : Env) where
  pub write_scanned-cases :
      (key : ScannedKey) (body : ScannedBody) (ctx : OperationContext) (time : Schedule) (s : Fake)
      → (write_scanned env key body ctx time s ≡ (type_error, s))
        ⊎ ((write_scanned env key body ctx time s ≡ (connection_error, dropped s))
            ⊎ (write_scanned env key body ctx time s
                ≡ attempt key.key body.body (sha256_hex env body.body) ctx.precondition time s))
  unfolding write_scanned
  write_scanned-cases key body ctx time s =
      elim (Bool-cases (verify env (scanned_key key) && verify env (scanned_body body))) [
        | inl v ↦ elim (Bool-cases (ltb 0 s.faults.network)) [
          | inl d ↦ inr (inl (ground arith))
          | inr d ↦ inr (inr (ground arith))
        ]
        | inr v ↦ inl (ground arith)
      ]

  -- Whatever the call meets, it leaves what its outcome allows and nothing else.
  pub write_scanned-WriteSpec :
      (key : ScannedKey) (body : ScannedBody) (ctx : OperationContext) (time : Schedule) (s : Fake)
      → WriteSpec key.key body.body
          (sha256_hex env body.body)
          ctx.precondition
          time.now
          s
          (write_scanned env key body ctx time s).0
          (write_scanned env key body ctx time s).1
  write_scanned-WriteSpec key body ctx time s = elim (write_scanned-cases key body ctx time s) [
    | inl e ↦ rw e refl
    | inr (inl e) ↦ rw e (record { store = refl; locks = refl; fence = refl })
    | inr (inr e) ↦ rw e (
        attempt-WriteSpec key.key body.body (sha256_hex env body.body) ctx.precondition time.now s
          time.moments time.monotonic)
  ]

module _ (k : Text) (raw : Bytes) (h : Text) (pre : Precondition) (now : ℕ) (s : Fake) where
  refused-SameData :
      (r : WriteResult) (t : Fake)
      → commit_class r ≡ definitely_not_committed
      → WriteSpec k raw h pre now s (returned r) t
      → SameData t s
  unfolding commit_class
  refused-SameData (ok new) t c f = cc
  refused-SameData (stale x reason) t c f = of_eq f.0
  refused-SameData (exists x) t c f = of_eq f.0
  refused-SameData (error timeout_after_commit labels) t c f = cc
  refused-SameData (error conflict_unknown labels) t c f = cc
  refused-SameData (error kind labels) t c f = elim f [ ]

  committed-store :
      (t : Fake)
      → SameData t (commit k raw h (accepts pre) s)
      → (j : Text) → lookup j t.store ≡ (if text_eq k j then some (raw, h) else lookup j s.store)
  committed-store t f j = rw (f.store) (lookup-insert j k (raw, h) s.store)

  ok-hash_of :
      (r : WriteResult) (t : Fake)
      → commit_class r ≡ committed
      → WriteSpec k raw h pre now s (returned r) t
      → (r ≡ ok h) × (hash_of (lookup k t.store) ≡ some h)
  unfolding commit_class
  ok-hash_of (ok new) t c (e, inl (p, f)) =
      (ap ok e, rw (committed-store t f k) (rw text_eq_refl refl))
  ok-hash_of (ok new) t c (e, inr (q, p, f)) = (ap ok e, rw q f)
  ok-hash_of (stale x reason) t c f = cc
  ok-hash_of (exists x) t c f = cc
  ok-hash_of (error timeout_after_commit labels) t c f = cc
  ok-hash_of (error conflict_unknown labels) t c f = cc
  ok-hash_of (error kind labels) t c f = elim f [ ]

  abbrev Kept : Text → Fake → Type 0
  Kept j t =
      (lookup j t.store ≡ lookup j s.store)
      ⊎ ((k ≡ j) × Permits k pre now s × (lookup j t.store ≡ some (raw, h)))

  same-Kept : (j : Text) (t : Fake) → SameData t s → Kept j t
  same-Kept j t f = inl (ap (λ d. lookup j d) f.store)

  committed-Kept :
      (j : Text) (t : Fake)
      → Permits k pre now s
      → SameData t (commit k raw h (accepts pre) s)
      → Kept j t
  committed-Kept j t p f = elim (Bool-cases (text_eq k j)) [
    | inl e ↦ inr ((text_eq_iff k j).0 e, p, committed-store t f j ∙ rw e refl)
    | inr e ↦ inl (committed-store t f j ∙ rw e refl)
  ]

  WriteSpec-no_clobber :
      (j : Text) (o : Outcome) (t : Fake) → WriteSpec k raw h pre now s o t → Kept j t
  WriteSpec-no_clobber j (returned (ok new)) t (e, inl (p, f)) = committed-Kept j t p f
  WriteSpec-no_clobber j (returned (ok new)) t (e, inr (q, p, f)) = same-Kept j t (of_eq q)
  WriteSpec-no_clobber j (returned (stale x reason)) t f = same-Kept j t (of_eq f.0)
  WriteSpec-no_clobber j (returned (exists x)) t f = same-Kept j t (of_eq f.0)
  WriteSpec-no_clobber j (returned (error timeout_after_commit labels)) t f =
      committed-Kept j t f.0 f.1
  WriteSpec-no_clobber j (returned (error conflict_unknown labels)) t f = same-Kept j t f.1
  WriteSpec-no_clobber j (returned (error kind labels)) t f = elim f [ ]
  WriteSpec-no_clobber j connection_error t f = same-Kept j t f
  WriteSpec-no_clobber j type_error t f = same-Kept j t (of_eq f)
  WriteSpec-no_clobber j waiting t f = same-Kept j t (of_eq f.0)

-- A result that says "definitely not committed" leaves every body, lock and fence as it was.
pub write-not_committed :
    (env : Env) (key : ScannedKey) (body : ScannedBody) (ctx : OperationContext) (time : Schedule)
    (s : Fake) (r : WriteResult)
    → (write_scanned env key body ctx time s).0 ≡ returned r
    → commit_class r ≡ definitely_not_committed
    → SameData (write_scanned env key body ctx time s).1 s
write-not_committed env key body ctx time s r e c =
    refused-SameData key.key body.body (sha256_hex env body.body) ctx.precondition time.now s r
      (write_scanned env key body ctx time s).1 c
      (rw e at (write_scanned-WriteSpec env key body ctx time s))

-- A returned `OK` carries the body's hash, and the key then holds a body with that hash.
pub write-committed :
    (env : Env) (key : ScannedKey) (body : ScannedBody) (ctx : OperationContext) (time : Schedule)
    (s : Fake) (r : WriteResult)
    → (write_scanned env key body ctx time s).0 ≡ returned r
    → commit_class r ≡ committed
    → (r ≡ ok (sha256_hex env body.body))
      × (hash_of (lookup key.key (write_scanned env key body ctx time s).1.store)
          ≡ some (sha256_hex env body.body))
write-committed env key body ctx time s r e c =
    ok-hash_of key.key body.body (sha256_hex env body.body) ctx.precondition time.now s r
      (write_scanned env key body ctx time s).1 c
      (rw e at (write_scanned-WriteSpec env key body ctx time s))

-- Whatever the outcome, a key's body changes only if it is the written key and the precondition
-- held: it was absent, or the lease owned the fence and the hash was the expected one.
pub write-no_clobber :
    (env : Env) (key : ScannedKey) (body : ScannedBody) (ctx : OperationContext) (time : Schedule)
    (s : Fake) (j : Text)
    → let t = (write_scanned env key body ctx time s).1 in
      (lookup j t.store ≡ lookup j s.store)
      ⊎ ((key.key ≡ j)
          × Permits key.key ctx.precondition time.now s
          × (lookup j t.store ≡ some (body.body, sha256_hex env body.body)))
write-no_clobber env key body ctx time s j =
    WriteSpec-no_clobber key.key body.body (sha256_hex env body.body) ctx.precondition time.now s j
      (write_scanned env key body ctx time s).0 (write_scanned env key body ctx time s).1
      (write_scanned-WriteSpec env key body ctx time s)
