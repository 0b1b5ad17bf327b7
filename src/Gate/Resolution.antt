-- ===== src/Gate/Resolution.antt =====
-- `reconcile` of store/gate.py never reports an outcome that the store does not show.
use knokeep.Gate.Reconcile.{with_expected, with_intended, run_retry, decide, reconcile}
use knokeep.Prelude.{
  Text, ◌≡◌, ◌≢◌, refl, true, Option, none, some, arith, Option-cases, Bool-cases, inl, inr,
  text_eq, text_eq_iff,
}
use knokeep.Types.{Blob, WriteResult, ok, conflict_unknown}
use knokeep.Gate.Objects.{Obj, str_obj}
use knokeep.Gate.Persist.{error_of, hash_of_obj, is_valid_hash_text}

module _ {S : Type 0} (read : S → Option (Option Blob))
    (retry : Option (S → Option WriteResult × S)) where
  -- The retry ran, from the same state, and gave this.
  abbrev pub FromRetry : S → WriteResult → S → Type 0
  FromRetry s r t =
      (again : (S → Option WriteResult × S)) × (retry ≡ some again) × (again s ≡ (some r, t))

  -- The key now holds this hash.
  abbrev pub Shows : S → Text → Type 0
  Shows s h = (b : Blob) × (read s ≡ some (some b)) × (b.version_hash ≡ h)

  -- What a result of `reconcile` rests on: the write is in the store; or the store shows the hash
  -- of before, and this is what the retry gave; or nothing is claimed.
  pub data Resolved (intended : Text) (expected : Option Text) (s : S)
      : WriteResult → S → Type 0 where
    landed : Shows s intended → Resolved intended expected s (ok intended) s
    retried :
        {r : WriteResult} {t : S} (e : Text)
        → expected ≡ some e
        → Shows s e
        → e ≢ intended
        → FromRetry s r t
        → Resolved intended expected s r t
    unresolved : {t : S} → Resolved intended expected s (error_of conflict_unknown) t

  run_retry-Resolved :
      (intended : Text) (expected : Option Text) (s : S) (e : Text)
      → expected ≡ some e
      → Shows s e
      → e ≢ intended
      → (o : Option (S → Option WriteResult × S)) → retry ≡ o
      → Resolved intended expected s (run_retry read retry o s).0 (run_retry read retry o s).1
  unfolding run_retry
  run_retry-Resolved intended expected s e x b n none q = unresolved
  run_retry-Resolved intended expected s e x b n (some again) q = elim (Option-cases (again s).0) [
    | inl f ↦ rw f unresolved
    | inr (r, f) ↦ rw f (retried e x b n (again, q, both_of f))
  ]
    where
      both_of : {r : WriteResult} → (again s).0 ≡ some r → again s ≡ (some r, (again s).1)
      both_of f = λ i. (f i, (again s).1)

  decide-Resolved :
      (intended : Text) (expected : Option Text) (s : S) (o : Option (Option Blob))
      → read s ≡ o
      → Resolved intended expected s
          (decide read retry intended expected o s).0
          (decide read retry intended expected o s).1
  unfolding decide
  decide-Resolved intended expected s none q = unresolved
  decide-Resolved intended none s (some none) q = unresolved
  decide-Resolved intended (some e) s (some none) q = unresolved
  decide-Resolved intended none s (some (some b)) q =
      elim (Bool-cases (text_eq b.version_hash intended)) [
        | inl y ↦ rw y (landed (b, q, (text_eq_iff b.version_hash intended).0 y))
        | inr n ↦ rw n unresolved
      ]
  decide-Resolved intended (some e) s (some (some b)) q =
      elim (Bool-cases (text_eq b.version_hash intended)) [
        | inl y ↦ rw y (landed (b, q, (text_eq_iff b.version_hash intended).0 y))
        | inr n ↦ rw n (elim (Bool-cases (text_eq b.version_hash e)) [
          | inl y ↦ rw y (
              run_retry-Resolved intended (some e) s e refl
                (b, q, (text_eq_iff b.version_hash e).0 y)
                (λ p. ground (
                  arith,
                  text_eq_iff b.version_hash e,
                  text_eq_iff b.version_hash intended,
                  n,
                  y,
                  p,
                ))
                retry refl)
          | inr m ↦ rw m unresolved
        ])
      ]

  -- With well-formed hashes every result of `reconcile` is resolved: `OK` only where the store
  -- shows the write, and any other claim only as the real result of the retry, run where the store
  -- shows the value of before.
  pub reconcile-Resolved :
      (intended : Text) (expected : Option Text) (expected_hash : Obj) (s : S)
      → is_valid_hash_text intended ≡ true
      → hash_of_obj expected_hash ≡ some expected
      → Resolved intended expected s
          (reconcile read retry (str_obj intended) expected_hash s).0
          (reconcile read retry (str_obj intended) expected_hash s).1
  unfolding reconcile
  reconcile-Resolved intended expected expected_hash s v e =
      rw (v, hash_of_obj) (rw e (decide-Resolved intended expected s (read s) refl))

-- Without a retry, nothing is written.
module _ {S : Type 0} (read : S → Option (Option Blob)) where
  decide-unchanged :
      (intended : Text) (expected : Option Text) (o : Option (Option Blob)) (s : S)
      → (decide read none intended expected o s).1 ≡ s
  unfolding decide run_retry
  decide-unchanged intended expected none s = refl
  decide-unchanged intended expected (some b) s = ground arith

  with_expected-unchanged :
      (intended : Text) (expected : Option (Option Text)) (s : S)
      → (with_expected read none intended expected s).1 ≡ s
  unfolding with_expected
  with_expected-unchanged intended none s = refl
  with_expected-unchanged intended (some e) s = decide-unchanged intended e _ s

  with_intended-unchanged :
      (o : Option (Option Text)) (expected_hash : Obj) (s : S)
      → (with_intended read none o expected_hash s).1 ≡ s
  unfolding with_intended
  with_intended-unchanged none e s = refl
  with_intended-unchanged (some none) e s = refl
  with_intended-unchanged (some (some h)) e s = with_expected-unchanged h _ s

  pub reconcile-unchanged :
      (intended_new_hash expected_hash : Obj) (s : S)
      → (reconcile read none intended_new_hash expected_hash s).1 ≡ s
  unfolding reconcile
  reconcile-unchanged intended_new_hash expected_hash s = with_intended-unchanged _ expected_hash s
