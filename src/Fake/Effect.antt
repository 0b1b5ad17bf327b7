-- ===== src/Fake/Effect.antt =====
-- What one call of `FakeBackend.write` (store/fake.py) can change, on every branch.
use knokeep.Prelude.{
  ℕ, Bytes, Text, text_eq, text_eq_iff, ◌≡◌, refl, ◌⊎◌, inl, inr, true, Option, none, some, [], ◌≢◌,
  arith, lookup, Bool-cases, ltb, ◌-◌,
}
use knokeep.Types.{
  ok, stale, exists, error, timeout_after_commit, conflict_unknown, Lock, Precondition, create_only,
  overwrite,
}
use knokeep.Fake.State.{Fake, fence_at, hash_of}
use knokeep.Fake.Write.{
  commit, fence_ok, finish, create_section, update_section, write_section, Section, done,
  fence_lost,
}

-- The stored bodies, the locks and the fences are those of before; fault counters may differ.
pub record SameData (s t : Fake) : Type 0 where
  pub store : s.store ≡ t.store
  pub locks : s.locks ≡ t.locks
  pub fence : s.fence ≡ t.fence

-- When a write of `k` may change its body: an absent key for a create-only write, and for an
-- update the lease that owns the fence and the hash that the caller expects.
abbrev pub Permits : Text → Precondition → ℕ → Fake → Type 0
Permits k create_only now s = lookup k s.store ≡ none
Permits k (overwrite none lease) now s = lookup k s.store ≡ none
Permits k (overwrite (some expected) lease) now s =
    (fence_ok k lease now s ≡ true) × (hash_of (lookup k s.store) ≡ some expected)

-- The write asks for an absent key.
abbrev pub Creates : Precondition → Type 0
Creates create_only = Unit
Creates (overwrite none lease) = Unit
Creates (overwrite (some expected) lease) = ⊥

-- The fence that a permitted write leaves as accepted.
abbrev pub accepts : Precondition → ℕ
accepts create_only = 0
accepts (overwrite none lease) = 0
accepts (overwrite (some expected) none) = 0
accepts (overwrite (some expected) (some lease)) = lease.fence

-- Every end of the critical section, with the change of the data that it allows, from `s` to `t`.
abbrev pub SectionSpec : Text → Bytes → Text → Precondition → ℕ → Fake → Section → Fake → Type 0
SectionSpec k raw new_hash pre now s (done (ok h)) t =
    (h ≡ new_hash)
    × ((Permits k pre now s × SameData t (commit k raw new_hash (accepts pre) s))
        ⊎ ((t ≡ s) × Creates pre × (hash_of (lookup k s.store) ≡ some new_hash)))
SectionSpec k raw new_hash pre now s (done (stale current reason)) t =
    (t ≡ s) × (current ≡ hash_of (lookup k s.store)) × (reason ≡ none) × ¬ (Permits k pre now s)
SectionSpec k raw new_hash pre now s (done (exists current)) t =
    (t ≡ s) × (some current ≡ hash_of (lookup k s.store)) × Creates pre × (current ≢ new_hash)
SectionSpec k raw new_hash pre now s (done (error timeout_after_commit labels)) t =
    Permits k pre now s × SameData t (commit k raw new_hash (accepts pre) s)
SectionSpec k raw new_hash pre now s (done (error conflict_unknown labels)) t =
    Permits k pre now s × SameData t s
SectionSpec k raw new_hash pre now s (done (error kind labels)) t = ⊥
SectionSpec k raw new_hash pre now s fence_lost t = (t ≡ s) × ¬ (Permits k pre now s)

abbrev lost_ack : Fake → Fake
lost_ack s = record s { faults = record s.faults { timeout = s.faults.timeout - 1 } }

abbrev unclear : Fake → Fake
unclear s = record s { faults = record s.faults { conflict = s.faults.conflict - 1 } }

-- The three ends of a write whose preconditions hold.
finish-cases :
    (f : Fake → Fake) (h : Text) (s : Fake)
    → (finish f h s ≡ (done (error timeout_after_commit []), f (lost_ack s)))
      ⊎ ((finish f h s ≡ (done (error conflict_unknown []), unclear s))
          ⊎ (finish f h s ≡ (done (ok h), f s)))
unfolding finish
finish-cases f h s = elim (Bool-cases (ltb 0 s.faults.timeout)) [
  | inl e ↦ inl (ground arith)
  | inr e ↦ elim (Bool-cases (ltb 0 s.faults.conflict)) [
    | inl c ↦ inr (inl (ground arith))
    | inr c ↦ inr (inr (ground arith))
  ]
]

module _ (k : Text) (raw : Bytes) (new_hash : Text) where
  finish-SectionSpec :
      (pre : Precondition) (now : ℕ) (s : Fake)
      → Permits k pre now s
      → SectionSpec k raw new_hash pre now s
          (finish (commit k raw new_hash (accepts pre)) new_hash s).0
          (finish (commit k raw new_hash (accepts pre)) new_hash s).1
  unfolding fence_at
  finish-SectionSpec pre now s permitted =
      elim (finish-cases (commit k raw new_hash (accepts pre)) new_hash s) [
        | inl e ↦ rw e (permitted, record { store = refl; locks = refl; fence = refl })
        | inr (inl e) ↦ rw e (permitted, record { store = refl; locks = refl; fence = refl })
        | inr (inr e) ↦
            rw e (refl, inl (permitted, record { store = refl; locks = refl; fence = refl }))
      ]

  present-SectionSpec :
      (pre : Precondition) (now : ℕ) (s : Fake) (body : Bytes) (current : Text)
      → Creates pre
      → lookup k s.store ≡ some (body, current)
      → SectionSpec k raw new_hash pre now s
          (create_section k raw new_hash (some (body, current)) s).0
          s
  unfolding create_section
  present-SectionSpec pre now s body current c e = elim (Bool-cases (text_eq current new_hash)) [
    | inl same ↦ rw same (refl, inr (refl, c, ground (arith, text_eq_iff current new_hash)))
    | inr other ↦ rw other (refl, ground arith, c, ground (arith, text_eq_iff current new_hash))
  ]

  create_section-SectionSpec :
      (pre : Precondition) (now : ℕ) (s : Fake) (o : Option (Bytes × Text))
      → Creates pre
      → lookup k s.store ≡ o
      → SectionSpec k raw new_hash pre now s
          (create_section k raw new_hash o s).0
          (create_section k raw new_hash o s).1
  unfolding create_section
  create_section-SectionSpec create_only now s none c e = finish-SectionSpec create_only now s e
  create_section-SectionSpec (overwrite none lease) now s none c e =
      finish-SectionSpec (overwrite none lease) now s e
  create_section-SectionSpec (overwrite (some x) lease) now s none c e = elim c [ ]
  create_section-SectionSpec pre now s (some (body, current)) c e =
      present-SectionSpec pre now s body current c e

  update_section-SectionSpec :
      (expected : Text) (lease : Lock) (now : ℕ) (s : Fake) (o : Option (Bytes × Text))
      → fence_ok k (some lease) now s ≡ true
      → lookup k s.store ≡ o
      → SectionSpec k raw new_hash
          (overwrite (some expected) (some lease))
          now
          s
          (update_section k raw new_hash expected (some lease) o s).0
          (update_section k raw new_hash expected (some lease) o s).1
  unfolding update_section
  update_section-SectionSpec expected lease now s none f e =
      (refl, ground arith, refl, λ p. ground arith)
  update_section-SectionSpec expected lease now s (some (body, current)) f e =
      elim (Bool-cases (text_eq current expected)) [
        | inl same ↦ rw same (
            finish-SectionSpec (overwrite (some expected) (some lease)) now s
              (f, ground (arith, text_eq_iff current expected)))
        | inr other ↦
            rw other (refl, ground arith, refl, λ p. ground (arith, text_eq_iff current expected))
      ]

  -- Every end of the critical section: `OK` and `TIMEOUT_AFTER_COMMIT` commit the body and its
  -- fence where the precondition permits it (or `OK` repeats a create); every other end changes
  -- no data, and `STALE`, `EXISTS` and a lost fence come only where the precondition fails.
  pub write_section-SectionSpec :
      (pre : Precondition) (now : ℕ) (s : Fake)
      → SectionSpec k raw new_hash pre now s
          (write_section k raw new_hash pre now s).0
          (write_section k raw new_hash pre now s).1
  unfolding write_section
  write_section-SectionSpec create_only now s =
      create_section-SectionSpec create_only now s (lookup k s.store) tt refl
  write_section-SectionSpec (overwrite none lease) now s =
      create_section-SectionSpec (overwrite none lease) now s (lookup k s.store) tt refl
  write_section-SectionSpec (overwrite (some expected) none) now s =
      unfold fence_ok in (refl, λ p. ground arith)
  write_section-SectionSpec (overwrite (some expected) (some lease)) now s =
      elim (Bool-cases (fence_ok k (some lease) now s)) [
        | inl f ↦ rw f (update_section-SectionSpec expected lease now s (lookup k s.store) f refl)
        | inr f ↦ rw f (refl, λ p. ground arith)
      ]
