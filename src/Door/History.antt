-- ===== src/Door/History.antt =====
-- Nothing that the gate refuses is ever stored in a `FakeBackend`: by induction over the calls.
use knokeep.Prelude.{
  ℕ, Text, Bytes, ◌≡◌, refl, true, some, [], arith, inl, inr, ap, lookup, lookup-nil, utf8_encode,
  sym, ◌∙◌,
}
use knokeep.Types.{Env, Lock}
use knokeep.Gate.Marker.{make_scanned_key, make_scanned_body}
use knokeep.Gate.Platform.{Platform}
use knokeep.Gate.Scan.{secret_scan}
use knokeep.Gate.Keys.{valid_key_shape}
use knokeep.Gate.Objects.{Obj, CtxObj}
use knokeep.Gate.Persist.{Gated, refused, sent, persist}
use knokeep.Gate.Door.{Passed, persist-sent, persist-refused}
use knokeep.Fake.State.{
  Fake, init, inject_network_failure, inject_timeout_after_commit, inject_conflict_unknown,
  set_latency,
}
use knokeep.Fake.Write.{Outcome, Schedule, write_scanned}
use knokeep.Fake.Lease.{lock, unlock, renew}
use knokeep.Fake.Outcomes.{write-no_clobber}

-- A stored key and body have the shape of a key and are clean to the scanner.
abbrev pub IsStorable : Platform → Text → Bytes → Type 0
IsStorable p key body =
    (valid_key_shape key ≡ true)
    × (secret_scan p (utf8_encode key) ≡ some [])
    × (secret_scan p body ≡ some [])

abbrev pub AllClean : Platform → Fake → Type 0
AllClean p s =
    (key : Text) (body : Bytes) (h : Text)
    → lookup key s.store ≡ some (body, h)
    → IsStorable p key body

module _ (p : Platform) (env : Env) where
  abbrev persisted_to : Schedule → Bytes → Obj → Obj → CtxObj → Obj → Fake → Gated Outcome × Fake
  persisted_to time = persist p env (λ key body ctx s. write_scanned env key body ctx time s)

  -- Calls of the whole program: every write goes through `persist`, on any objects.
  pub data DoorStep (s : Fake) : Fake → Type 0 where
    persisted :
        (time : Schedule) (nonce : Bytes) (key raw : Obj) (ctx : CtxObj) (doc_type : Obj)
        → DoorStep s (persisted_to time nonce key raw ctx doc_type s).1
    locked : (key : Text) (ttl now : ℕ) (token : Text) → DoorStep s (lock key ttl now token s).1
    unlocked : (l : Lock) (now : ℕ) → DoorStep s (unlock l now s).1
    renewed : (l : Lock) (ttl now : ℕ) → DoorStep s (renew l ttl now s).1
    network_injected : (n : ℕ) → DoorStep s (inject_network_failure n s)
    timeout_injected : (n : ℕ) → DoorStep s (inject_timeout_after_commit n s)
    conflict_injected : (n : ℕ) → DoorStep s (inject_conflict_unknown n s)
    latency_set : (n : ℕ) → DoorStep s (set_latency n s)

  pub data DoorReach (s : Fake) : Fake → Type 0 where
    here : DoorReach s s
    next : {t u : Fake} → DoorReach s t → DoorStep t u → DoorReach s u

  eq-AllClean : (s t : Fake) → s.store ≡ t.store → AllClean p s → AllClean p t
  eq-AllClean s t e a key body h q = a key body h (rw e q)

  IsStorable-eq :
      (k j : Text) (b body : Bytes) → k ≡ j → b ≡ body → IsStorable p k b → IsStorable p j body
  IsStorable-eq k j b body e f c = rw (← e) (rw (← f) c)

  Passed-AllClean :
      (time : Schedule) (nonce : Bytes) (key raw : Obj) (ctx : CtxObj) (doc_type : Obj) (s : Fake)
      (o : Outcome) (t : Fake)
      → Passed p env (λ k b c s. write_scanned env k b c time s) nonce key raw ctx doc_type s o t
      → AllClean p s
      → AllClean p t
  unfolding make_scanned_key make_scanned_body
  Passed-AllClean time nonce key raw ctx doc_type s o t f a j body h q =
      elim (rw f.called at (
        write-no_clobber env (make_scanned_key env f.name nonce)
          (make_scanned_body env f.body nonce) f.ctx time s j)) [
            | inl same ↦ a j body h (sym same ∙ q)
            | inr (is_name, permitted, now) ↦
                IsStorable-eq f.name j f.body body is_name (ground (arith, now, q))
                  (f.clean.shaped, f.clean.key_scanned, f.clean.body_scanned)
          ]

  persisted-AllClean :
      (time : Schedule) (nonce : Bytes) (key raw : Obj) (ctx : CtxObj) (doc_type : Obj) (s : Fake)
      (g : Gated Outcome) (t : Fake)
      → persisted_to time nonce key raw ctx doc_type s ≡ (g, t)
      → AllClean p s
      → AllClean p t
  persisted-AllClean time nonce key raw ctx doc_type s (refused r) t e a =
      eq-AllClean s t
        (ap (λ u. u.store) (sym (persist-refused p env _ nonce key raw ctx doc_type s r t e).0)) a
  persisted-AllClean time nonce key raw ctx doc_type s (sent o) t e a =
      Passed-AllClean time nonce key raw ctx doc_type s o t
        (persist-sent p env _ nonce key raw ctx doc_type s o t e) a

  DoorStep-AllClean : {s t : Fake} → DoorStep s t → AllClean p s → AllClean p t
  DoorStep-AllClean {s} (persisted time nonce key raw ctx doc_type) a =
      persisted-AllClean time nonce key raw ctx doc_type s
        (persisted_to time nonce key raw ctx doc_type s).0
        (persisted_to time nonce key raw ctx doc_type s).1 refl a
  DoorStep-AllClean {s} (locked key ttl now token) a =
      eq-AllClean s (lock key ttl now token s).1 (unfold lock in ground arith) a
  DoorStep-AllClean {s} (unlocked l now) a =
      eq-AllClean s (unlock l now s).1 (unfold unlock in ground arith) a
  DoorStep-AllClean {s} (renewed l ttl now) a =
      eq-AllClean s (renew l ttl now s).1 (unfold renew in ground arith) a
  DoorStep-AllClean {s} (network_injected n) a =
      eq-AllClean s (inject_network_failure n s) (unfold inject_network_failure in refl) a
  DoorStep-AllClean {s} (timeout_injected n) a =
      eq-AllClean s (inject_timeout_after_commit n s) (unfold inject_timeout_after_commit in refl) a
  DoorStep-AllClean {s} (conflict_injected n) a =
      eq-AllClean s (inject_conflict_unknown n s) (unfold inject_conflict_unknown in refl) a
  DoorStep-AllClean {s} (latency_set n) a =
      eq-AllClean s (set_latency n s) (unfold set_latency in refl) a

  init-AllClean : AllClean p init
  init-AllClean key body h q = absurd (cc (lookup-nil {V = Bytes × Text} key))

  DoorReach-AllClean : {t : Fake} → DoorReach init t → AllClean p t
  DoorReach-AllClean here = init-AllClean
  DoorReach-AllClean (next r st) = DoorStep-AllClean st (DoorReach-AllClean r)

  -- After any calls, whatever objects `persist` was given, every stored key has the shape of a
  -- key, and the scanner finds nothing in any stored key or body.
  pub store-IsStorable :
      {t : Fake} (key : Text) (body : Bytes) (h : Text)
      → DoorReach init t
      → lookup key t.store ≡ some (body, h)
      → IsStorable p key body
  store-IsStorable key body h r q = DoorReach-AllClean r key body h q
