-- ===== src/Server/Writes.antt =====
-- What the tool `knokeep_write` (mcp/server.py) may do to a backend.
use knokeep.Gate.Admission.{IsClean, validate_write-none}
use knokeep.Gate.Door.{persist-refused, persist-sent}
use knokeep.Gate.Objects.{CtxObj, Obj, bytes_obj, create_only_obj, str_obj}
use knokeep.Gate.Persist.{Gated, bytes_of, persist, refused, sent, validate_write}
use knokeep.Gate.Platform.{Platform}
use knokeep.Migrate.Lease.{overwriting}
use knokeep.Migrate.LeaseDoc.{JsonLib}
use knokeep.Migrate.Store.{IsTarget, LockAnswer, Target, View, lock_busy, lock_raised, locked}
use knokeep.Migrate.Views.{persist-Moved_fresh}
use knokeep.Prelude.{Bytes, Dict, Option, Text, inl, inr, none, refl, some, sym, ◌∙◌, ◌≡◌, ◌⊎◌}
use knokeep.Server.Handle.{Arg, ToolEnd}
use knokeep.Server.WriteTool.{
  Asked, ResultDict, asked, knokeep_write, persist_asked, under_lease, update_valid, write_asked,
  write_lease_ttl, write_or_reject,
}
use knokeep.Types.{Env, WriteResult, sha256_hex}

module _ (p : Platform) (env : Env) (b64decode : Text → Option Bytes)
    (dumps : ResultDict → Option Text) {S : Type 0} (target : Target S) where
  -- The state in which an operation id and a nonce are drawn.
  abbrev pub drawn : S → S
  drawn s = (target.nonce (target.uuid s).1).1

  -- The backend is as it was, or only an operation id and a nonce were drawn, or the call asked for a
  -- key, a body and a document type that may be stored.
  abbrev pub Admitted : Option (Option Asked) → S → S → Type 0
  Admitted o s t =
      (t ≡ s)
      ⊎ (t ≡ drawn s)
      ⊎ ((a : Asked) × (o ≡ some (some a)) × IsClean p a.key a.raw a.doc_type)

  validate_write-IsClean :
      (a : Asked) (expected : Obj)
      → validate_write p (str_obj a.key) (bytes_obj a.raw) (str_obj a.doc_type) expected ≡ none
      → IsClean p a.key a.raw a.doc_type
  validate_write-IsClean a expected h =
      let (k, b, d, ke, be, de, clean) = validate_write-none p _ _ _ expected h in
      let same_key : a.key ≡ k = cc in
      let same_body : a.raw ≡ b = unfold bytes_of in cc in
      let same_doc : a.doc_type ≡ d = cc in rw (same_key, same_body, same_doc) clean

  persist-IsClean :
      (nonce : Bytes) (a : Asked) (ctx : CtxObj) (s : S) (o : Gated (Option WriteResult) × S)
      → persist p env target.write nonce
          (str_obj a.key)
          (bytes_obj a.raw)
          ctx
          (str_obj a.doc_type)
          s
        ≡ o
      → (o.1 ≡ s) ⊎ IsClean p a.key a.raw a.doc_type
  persist-IsClean nonce a ctx s (refused r, t) e =
      inl (persist-refused p env target.write nonce _ _ _ _ s r t e).0
  persist-IsClean nonce a ctx s (sent o, t) e =
      let h = persist-sent p env target.write nonce _ _ _ _ s o t e in
      let same_key : a.key ≡ h.name = (let k = h.key_is in cc) in
      let same_body : a.raw ≡ h.body = (let b = h.raw_is in unfold bytes_of in cc) in
      let same_doc : a.doc_type ≡ h.doc = (let d = h.doc_is in cc) in
      inr (rw (same_key, same_body, same_doc) h.clean)

  update_valid-Admitted :
      (a : Asked) (expected : Text) (s : S) (v : Option WriteResult)
      → validate_write p (str_obj a.key) (bytes_obj a.raw) (str_obj a.doc_type) (str_obj expected)
        ≡ v
      → Admitted (some (some a)) s (update_valid p env b64decode dumps target a expected v s).1
  unfolding update_valid
  update_valid-Admitted a expected s (some r) h = inl refl
  update_valid-Admitted a expected s none h =
      inr (inr (a, refl, validate_write-IsClean a (str_obj expected) h))

  write_asked-Admitted :
      (a : Asked) (expected : Option Text) (s : S)
      → Admitted (some (some a)) s (write_asked p env b64decode dumps target a expected s).1
  unfolding write_asked persist_asked
  write_asked-Admitted a none s =
      elim (persist-IsClean (target.nonce (target.uuid s).1).0 a _ (drawn s) _ refl) [
        | inl e ↦ inr (inl e)
        | inr clean ↦ inr (inr (a, refl, clean))
      ]
  write_asked-Admitted a (some expected) s = update_valid-Admitted a expected s _ refl

  write_or_reject-Admitted :
      (o : Option (Option Asked)) (s : S)
      → Admitted o s (write_or_reject p env b64decode dumps target o s).1
  unfolding write_or_reject
  write_or_reject-Admitted none s = inl refl
  write_or_reject-Admitted (some none) s = inl refl
  write_or_reject-Admitted (some (some a)) s = write_asked-Admitted a a.expected_hash s

  -- Whatever the arguments, the tool touches the backend, by a write or by a lease, only if they name
  -- a key, a body and a document type that may be stored: the key of valid shape, both without a
  -- secret to the scanner. Otherwise at most an operation id and a nonce are drawn.
  pub knokeep_write-Admitted :
      (args : Dict Arg) (s : S)
      → Admitted
          (asked p env b64decode dumps target args)
          s
          (knokeep_write p env b64decode dumps target args s).1
  unfolding knokeep_write
  knokeep_write-Admitted args s =
      write_or_reject-Admitted (asked p env b64decode dumps target args) s

  module _ (json : JsonLib) (view : View S) (laws : IsTarget env target view) where
    -- What is held under `j` is what it was, or the call asked for this key: then it holds the body,
    -- and was absent if no hash was given.
    abbrev Kept : Option (Option Asked) → S → Text → ToolEnd × S → Type 0
    Kept asked_for s j out =
        (view j out.1 ≡ view j s)
        ⊎ ((a : Asked) × (asked_for ≡ some (some a))
            × (a.key ≡ j)
            × (a.expected_hash ≡ none → view j s ≡ none)
            × (view j out.1 ≡ some (record { body = a.raw; version_hash = sha256_hex env a.raw })))

    under_lease-Kept :
        (a : Asked) (expected : Text) (answer : LockAnswer) (s : S) (j : Text)
        → a.expected_hash ≡ some expected
        → Kept (some (some a)) s j (under_lease p env b64decode dumps target a expected answer s)
    unfolding under_lease persist_asked
    under_lease-Kept a expected lock_busy s j h = inl refl
    under_lease-Kept a expected lock_raised s j h = inl refl
    under_lease-Kept a expected (locked lease) s j h =
        elim (persist-Moved_fresh p env json target view laws a.key a.raw
          (overwriting expected lease) (str_obj a.doc_type) s j) [
            | inl e ↦ inl (laws.unlocks lease _ j ∙ e)
            | inr (e, absent, now) ↦ inr (a, refl, e, (λ n. cc), laws.unlocks lease _ j ∙ now)
          ]

    update_valid-Kept :
        (a : Asked) (expected : Text) (v : Option WriteResult) (s : S) (j : Text)
        → a.expected_hash ≡ some expected
        → Kept (some (some a)) s j (update_valid p env b64decode dumps target a expected v s)
    unfolding update_valid
    update_valid-Kept a expected (some r) s j h = inl refl
    update_valid-Kept a expected none s j h =
        let same = laws.locks a.key write_lease_ttl s j in
        elim (under_lease-Kept a expected _ (target.lock a.key write_lease_ttl s).1 j h) [
          | inl e ↦ inl (e ∙ same)
          | inr (b, q, e, absent, now) ↦ inr (b, q, e, (λ n. sym same ∙ absent n), now)
        ]

    write_asked-Kept :
        (a : Asked) (expected : Option Text) (s : S) (j : Text)
        → a.expected_hash ≡ expected
        → Kept (some (some a)) s j (write_asked p env b64decode dumps target a expected s)
    unfolding write_asked persist_asked
    write_asked-Kept a none s j h =
        elim (persist-Moved_fresh p env json target view laws a.key a.raw create_only_obj
          (str_obj a.doc_type) s j) [
            | inl e ↦ inl e
            | inr (e, absent, now) ↦ inr (a, refl, e, (λ n. absent refl), now)
          ]
    write_asked-Kept a (some expected) s j h = update_valid-Kept a expected _ s j h

    write_or_reject-Kept :
        (o : Option (Option Asked)) (s : S) (j : Text)
        → Kept o s j (write_or_reject p env b64decode dumps target o s)
    unfolding write_or_reject
    write_or_reject-Kept none s j = inl refl
    write_or_reject-Kept (some none) s j = inl refl
    write_or_reject-Kept (some (some a)) s j = write_asked-Kept a a.expected_hash s j refl

    -- On a backend that keeps the store contract, as `IsTarget` states it, and without a call of
    -- another writer in between: a key's value changes only if the arguments are accepted and name
    -- this key. Then it is exactly the body that they give, and without an expected hash the key was
    -- absent.
    pub knokeep_write-Kept :
        (args : Dict Arg) (s : S) (j : Text)
        → (view j (knokeep_write p env b64decode dumps target args s).1 ≡ view j s)
          ⊎ ((a : Asked) × (asked p env b64decode dumps target args ≡ some (some a))
              × (a.key ≡ j)
              × (a.expected_hash ≡ none → view j s ≡ none)
              × (view j (knokeep_write p env b64decode dumps target args s).1
                  ≡ some (record { body = a.raw; version_hash = sha256_hex env a.raw })))
    unfolding knokeep_write
    knokeep_write-Kept args s j = write_or_reject-Kept (asked p env b64decode dumps target args) s j
