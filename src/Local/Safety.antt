-- ===== src/Local/Safety.antt =====
-- What the critical section of `LocalBackend.write` (store/local.py) can change, and that the
-- journal, the published files and the accepted fences agree after every write.
use knokeep.Prelude.{
  ℕ, Text, Bytes, text_eq, text_eq_iff, ◌≡◌, refl, sym, ap, Bool-cases, true, false, Option, none,
  some, inl, inr, lookup,
}
use knokeep.Types.{Env, sha256_hex, Lock}
use knokeep.Gate.Generation.{extract_generation}
use knokeep.Local.State.{Local, Faults, Ended, commit, check_case_collision}
use knokeep.Local.Write.{
  write_under_cas_lock, checked_section, create_section, fenced_section, update_section, fence_ok,
  generation_behind,
}

module _ (env : Env) (sha256_digest : Bytes → Bytes) where
  -- What a section may do: leave every file as it is; or commit a new key with fence 0; or commit
  -- over the expected body, under a lease that owns the fence, with a generation that is not
  -- behind the stored one.
  pub data Permitted (key : Text) (raw : Bytes) (expected : Option Text) (lease : Option Lock)
      (faults : Faults) (now : ℕ) (s : Local) : Ended × Local → Type 0 where
    unchanged : (x : Ended) → Permitted key raw expected lease faults now s (x, s)
    created :
        expected ≡ none
        → lookup key s.data_dir ≡ none
        → Permitted key raw expected lease faults now s (
            commit env sha256_digest
              (record { key = key; raw = raw; last_accepted_fence = 0 })
              true
              faults
              s)
    updated :
        (owner : Lock) (current : Bytes)
        → lease ≡ some owner
        → fence_ok key owner now s ≡ true
        → lookup key s.data_dir ≡ some current
        → expected ≡ some (sha256_hex env current)
        → generation_behind (extract_generation raw) (extract_generation current) ≡ false
        → Permitted key raw expected lease faults now s (
            commit env sha256_digest
              (record { key = key; raw = raw; last_accepted_fence = owner.fence })
              false
              faults
              s)

  create_section-Permitted :
      (key : Text) (raw : Bytes) (lease : Option Lock) (faults : Faults) (now : ℕ) (s : Local)
      (o : Option Bytes)
      → lookup key s.data_dir ≡ o
      → Permitted key raw none lease faults now s
          (create_section env sha256_digest key raw faults o s)
  unfolding create_section
  create_section-Permitted key raw lease faults now s none q = created refl q
  create_section-Permitted key raw lease faults now s (some current) q = unchanged _

  update_section-Permitted :
      (key : Text) (raw : Bytes) (expected : Text) (owner : Lock) (faults : Faults) (now : ℕ)
      (s : Local) (o : Option Bytes)
      → fence_ok key owner now s ≡ true
      → lookup key s.data_dir ≡ o
      → Permitted key raw
          (some expected)
          (some owner)
          faults
          now
          s
          (update_section env sha256_digest key raw expected owner faults o s)
  unfolding update_section
  update_section-Permitted key raw expected owner faults now s none f q = unchanged _
  update_section-Permitted key raw expected owner faults now s (some current) f q =
      elim (Bool-cases (text_eq (sha256_hex env current) expected)) [
        | inr h ↦ rw h (unchanged _)
        | inl h ↦
            rw h
              (elim (Bool-cases
                (generation_behind (extract_generation raw) (extract_generation current))) [
                  | inl g ↦ rw g (unchanged _)
                  | inr g ↦ rw g (
                      updated owner current refl f q
                        (ap (λ t. some t)
                          (sym ((text_eq_iff (sha256_hex env current) expected).0 h)))
                        g)
                ])
      ]

  fenced_section-Permitted :
      (key : Text) (raw : Bytes) (expected : Text) (lease : Option Lock) (faults : Faults) (now : ℕ)
      (s : Local)
      → Permitted key raw
          (some expected)
          lease
          faults
          now
          s
          (fenced_section env sha256_digest key raw expected lease faults now s)
  unfolding fenced_section
  fenced_section-Permitted key raw expected none faults now s = unchanged _
  fenced_section-Permitted key raw expected (some owner) faults now s =
      elim (Bool-cases (fence_ok key owner now s)) [
        | inr h ↦ rw h (unchanged _)
        | inl h ↦ rw h (
            update_section-Permitted key raw expected owner faults now s (lookup key s.data_dir) h
              refl)
      ]

  checked_section-Permitted :
      (key : Text) (raw : Bytes) (expected : Option Text) (lease : Option Lock) (faults : Faults)
      (now : ℕ) (s : Local)
      → Permitted key raw expected lease faults now s
          (checked_section env sha256_digest key raw expected lease faults now s)
  unfolding checked_section
  checked_section-Permitted key raw none lease faults now s =
      create_section-Permitted key raw lease faults now s (lookup key s.data_dir) refl
  checked_section-Permitted key raw (some expected) lease faults now s =
      fenced_section-Permitted key raw expected lease faults now s

  -- Whatever the state and the faults of the disk, the critical section leaves every file as it is,
  -- or commits: a key that was absent, for a create; or over exactly the expected body, under a
  -- lease that owns the fence, with a generation past the stored one where both have one.
  pub write-Permitted :
      (lower : Text → Text) (key : Text) (raw : Bytes) (expected : Option Text)
      (lease : Option Lock) (faults : Faults) (now : ℕ) (s : Local)
      → Permitted key raw expected lease faults now s
          (write_under_cas_lock env sha256_digest lower key raw expected lease faults now s)
  unfolding write_under_cas_lock
  write-Permitted lower key raw expected lease faults now s =
      elim (Bool-cases (check_case_collision lower key s)) [
        | inl h ↦ rw h (unchanged _)
        | inr h ↦ rw h (checked_section-Permitted key raw expected lease faults now s)
      ]
