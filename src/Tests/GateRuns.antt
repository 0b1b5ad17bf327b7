-- ===== src/Tests/GateRuns.antt =====
-- The gate (store/gate.py) at concrete arguments, and its theorems there.
use knokeep.Prelude.{
  ◌≡◌, ◌≢◌, refl, some, lookup, codes, inl, inr, arith, [], ◌∷◌, utf8_encode, insert, ◌++◌, Bytes,
}
use knokeep.Types.{sha256_hex, ok, error, commit_class, secret_blocked, definitely_not_committed}
use knokeep.Gate.Objects.{Obj, CtxObj, str_obj, bytes_obj}
use knokeep.Gate.Marker.{make_scanned_key, make_scanned_body, verify, compute_marker}
use knokeep.Gate.Persist.{
  Gated, validate_doc_type, validate_body, persist, sent, refused, validate_write, validate_key,
  validate_content, state_doc_types, is_acceptable_text,
}
use knokeep.Fake.State.{no_fence, fence_at, Fake, init}
use knokeep.Fake.Write.{Outcome, write_scanned, returned}
use knokeep.Gate.Patterns.{lit, upper_or_digit, all_prefix_patterns}
use knokeep.Gate.Regex.{at_least}
use knokeep.Door.History.{IsStorable, store-IsStorable, here, next, persisted}
use knokeep.Gate.Keys.{valid_key_shape}
use knokeep.Gate.Scan.{secret_scan}
use knokeep.Gate.Generation.{extract_generation, make_generation_header}
use knokeep.Gate.Door.{Passed, persist-sent, persist-refused}
use knokeep.Gate.Headers.{extract_generation-header}
use knokeep.Gate.Detection.{secret_scan-token}
use knokeep.Tests.Scans.{scan}
use knokeep.Tests.Samples.{env, platform, key, nonce, old_body, create_obj, at_time, hash_of_length}

scan_clean : scan old_body ≡ some []
unfolding scan
scan_clean = refl

scan_key : scan (utf8_encode key) ≡ some []
unfolding scan
scan_key = refl

scan_token : scan (codes "key AKIAABCDEFGHIJKL.") ≡ some (codes "AWS access key" ∷ [])
unfolding scan
scan_token = refl

scan_assignment :
    scan (codes "password: 'sk_live_0123456789'")
    ≡ some (codes "stripe-style live key" ∷ codes "secret assignment (password)" ∷ [])
unfolding scan
scan_assignment = refl

scan_plain : scan (codes "token: see README") ≡ some []
unfolding scan
scan_plain = refl

-- A create-only write through the gate, and one whose body holds a token.
abbrev stored : Fake
stored = record init {
  store = (key, (old_body, hash_of_length 2)) ∷ [];
  fence = (key, no_fence) ∷ [];
}

-- One name for all that a run of `persist` on the fake backend goes through.
run_persist : Obj → Obj → CtxObj → Fake → Gated Outcome × Fake
unfolding scan persist validate_write validate_doc_type validate_key validate_body validate_content
    is_acceptable_text state_doc_types valid_key_shape make_scanned_key make_scanned_body
    write_scanned verify compute_marker fence_at sha256_hex lookup insert extract_generation
run_persist k raw ctx s =
    persist platform env (λ k b c s. write_scanned env k b c (at_time 100) s) nonce k raw ctx
      (str_obj (codes "journal")) s

sent_run :
    persist platform env
      (λ k b c s. write_scanned env k b c (at_time 100) s)
      nonce
      (str_obj key)
      (bytes_obj old_body)
      create_obj
      (str_obj (codes "journal"))
      init
    ≡ (sent (returned (ok (hash_of_length 2))), stored)
unfolding run_persist
sent_run = refl

refused_run :
    persist platform env
      (λ k b c s. write_scanned env k b c (at_time 100) s)
      nonce
      (str_obj key)
      (bytes_obj (codes "AKIAABCDEFGHIJKL"))
      create_obj
      (str_obj (codes "journal"))
      init
    ≡ (refused (error secret_blocked (codes "AWS access key" ∷ [])), init)
unfolding run_persist
refused_run = refl

persist-sent_example :
    Passed platform env
      (λ k b c s. write_scanned env k b c (at_time 100) s)
      nonce
      (str_obj key)
      (bytes_obj old_body)
      create_obj
      (str_obj (codes "journal"))
      init
      (returned (ok (hash_of_length 2)))
      stored
persist-sent_example =
    persist-sent platform env (λ k b c s. write_scanned env k b c (at_time 100) s) nonce
      (str_obj key) (bytes_obj old_body) create_obj (str_obj (codes "journal")) init
      (returned (ok (hash_of_length 2))) stored sent_run

persist-refused_example :
    (init ≡ init)
    × (commit_class (error secret_blocked (codes "AWS access key" ∷ [])) ≡ definitely_not_committed)
persist-refused_example =
    persist-refused platform env (λ k b c s. write_scanned env k b c (at_time 100) s) nonce
      (str_obj key) (bytes_obj (codes "AKIAABCDEFGHIJKL")) create_obj (str_obj (codes "journal"))
      init (error secret_blocked (codes "AWS access key" ∷ [])) init refused_run

abbrev after_persist : Fake
after_persist =
    (persist platform env (λ k b c s. write_scanned env k b c (at_time 100) s) nonce (str_obj key)
      (bytes_obj old_body) create_obj (str_obj (codes "journal")) init).1

stored_run : lookup key after_persist.store ≡ some (old_body, hash_of_length 2)
unfolding run_persist
stored_run = refl

store-IsStorable_example : IsStorable platform key old_body
store-IsStorable_example =
    store-IsStorable platform env {t = after_persist} key old_body (hash_of_length 2)
      (next here (
        persisted (at_time 100) nonce (str_obj key) (bytes_obj old_body) create_obj
          (str_obj (codes "journal"))))
      stored_run

secret_scan-token_example :
    secret_scan platform (codes "id " ++ (codes "AKIA" ++ (codes "ABCDEFGHIJKL" ++ codes "!")))
    ≢ some []
secret_scan-token_example =
    secret_scan-token platform
      (record {
        re = lit (codes "AKIA") (at_least upper_or_digit 12);
        label = codes "AWS access key";
      })
      (codes "AKIA") upper_or_digit 12 (codes "id ") (codes "ABCDEFGHIJKL") (codes "!")
      (unfold all_prefix_patterns in inr (inr (inr (inr (inr (inr (inr (inl refl)))))))) refl refl
      (omega arith)

extract_generation-header_example :
    (header : Bytes) × (make_generation_header 42 ≡ some header)
    × (extract_generation (header ++ codes "x") ≡ some 42)
extract_generation-header_example = extract_generation-header 42 (codes "x") (omega arith)
