-- ===== src/Gate/Door.antt =====
-- `persist` of store/gate.py as the one write door: what the adapter is called with, and that a
-- refusal comes before any I/O.
use knokeep.Prelude.{
  Text, Bytes, ◌≡◌, refl, Option, none, some, arith, Option-cases, inl, inr, ◌≤◌, text_eq_iff, ℕ,
}
use knokeep.Types.{
  Env, WriteResult, definitely_not_committed, commit_class, OperationContext, Precondition,
  create_only, overwrite, Lock,
}
use knokeep.Gate.Marker.{ScannedKey, ScannedBody, make_scanned_key, make_scanned_body}
use knokeep.Gate.Platform.{Platform}
use knokeep.Prelude.Int.{pos, negsuc}
use knokeep.Gate.Objects.{
  Obj, none_obj, str_obj, int_obj, lock_obj, create_only_obj, other_precondition, overwrite_obj,
  CtxObj, not_a_context, context,
}
use knokeep.Gate.Persist.{
  validate_write, hash_of_obj, bytes_of, well_formed_lease, expiry_of, fence_of, lock_of, max_fence,
  refused, sent, submit, persist_overwrite, persist, hash_or_none,
}
use knokeep.Gate.Admission.{IsClean, validate_write-none, validate_write-class}

-- The context that the adapter gets is the caller's, with the expected hash and the lease checked.
abbrev pub Carries : Obj → CtxObj → OperationContext → Type 0
Carries key not_a_context c = ⊥
Carries key (context auth other_precondition op) c = ⊥
Carries key (context auth create_only_obj op) c =
    c ≡ record { auth = auth; precondition = create_only; operation_id = op }
Carries key (context auth (overwrite_obj expected lease) op) c =
    (l : Lock) × (well_formed_lease lease key ≡ some l)
    × (c ≡ record {
      auth = auth;
      precondition = overwrite (hash_or_none (hash_of_obj expected)) (some l);
      operation_id = op;
    })

-- For an update, the lease is for this key, and its fence is in the storable range.
abbrev pub IsTypedContext : Text → Precondition → Type 0
IsTypedContext key create_only = Unit
IsTypedContext key (overwrite h none) = ⊥
IsTypedContext key (overwrite h (some lease)) = (lease.key ≡ key) × (lease.fence ≤ max_fence)

lock_of-key :
    (key k token : Text) (x f : Option ℕ) (l : Lock)
    → ((n : ℕ) → f ≡ some n → n ≤ max_fence)
    → lock_of key k token x f ≡ some l
    → (l.key ≡ key) × (l.fence ≤ max_fence)
unfolding lock_of
lock_of-key key k token (some x) (some f) l b h = ground (arith, text_eq_iff k key, b f)
lock_of-key key k token none f l b h = cc
lock_of-key key k token (some x) none l b h = cc

fence_of-le : (o : Obj) (n : ℕ) → fence_of o ≡ some n → n ≤ max_fence
unfolding fence_of
fence_of-le (int_obj (pos m)) n h = ground arith
fence_of-le (int_obj (negsuc m)) n h = cc
fence_of-le _ n h = cc

well_formed_lease-key :
    (lease : Obj) (key : Text) (l : Lock)
    → well_formed_lease lease (str_obj key) ≡ some l
    → (l.key ≡ key) × (l.fence ≤ max_fence)
unfolding well_formed_lease
well_formed_lease-key (lock_obj (str_obj k) (str_obj token) expiry fence) key l h =
    lock_of-key key k token (expiry_of expiry) (fence_of fence) l (fence_of-le fence) h
well_formed_lease-key _ key l h = ground arith

module _ (p : Platform) (env : Env) {O S : Type 0}
    (backend_write : ScannedKey → ScannedBody → OperationContext → S → O × S) where
  -- The adapter was called once, on a clean key and body sealed under one nonce.
  pub record Passed (nonce : Bytes) (key raw : Obj) (given : CtxObj) (doc_type : Obj) (s : S)
      (o : O) (t : S) : Type 0 where
    pub name : Text
    pub body : Bytes
    pub doc : Text
    pub ctx : OperationContext
    pub key_is : key ≡ str_obj name
    pub raw_is : bytes_of raw ≡ some body
    pub doc_is : doc_type ≡ str_obj doc
    pub clean : IsClean p name body doc
    pub carried : Carries key given ctx
    pub typed : IsTypedContext name ctx.precondition
    pub called :
        backend_write (make_scanned_key env name nonce) (make_scanned_body env body nonce) ctx s
        ≡ (o, t)

  submit-sent :
      (nonce : Bytes) (key raw doc_type expected_hash : Obj) (given : CtxObj)
      (ctx : OperationContext) (s : S) (o : O) (t : S)
      → Carries key given ctx
      → ((k : Text) → key ≡ str_obj k → IsTypedContext k ctx.precondition)
      → submit p env backend_write nonce key raw doc_type expected_hash ctx s ≡ (sent o, t)
      → Passed nonce key raw given doc_type s o t
  submit-sent nonce key raw doc_type expected_hash given ctx s o t carried typed h =
      elim (Option-cases (validate_write p key raw doc_type expected_hash)) [
        | inl e ↦
            let (k, b, d, ke, be, de, c) = validate_write-none p key raw doc_type expected_hash e in
            record {
              name = k;
              body = b;
              doc = d;
              ctx = ctx;
              key_is = ke;
              raw_is = be;
              doc_is = de;
              clean = c;
              carried = carried;
              typed = typed k ke;
              called = unfold submit in ground (arith, h, e, ke, be);
            }
        | inr (r, e) ↦ absurd (unfold submit in ground (arith, h, e))
      ]

  submit-refused :
      (nonce : Bytes) (key raw doc_type expected_hash : Obj) (ctx : OperationContext) (s : S)
      (r : WriteResult) (t : S)
      → submit p env backend_write nonce key raw doc_type expected_hash ctx s ≡ (refused r, t)
      → (t ≡ s) × (commit_class r ≡ definitely_not_committed)
  unfolding submit
  submit-refused nonce key raw doc_type expected_hash ctx s r t h =
      ground (arith, validate_write-class p key raw doc_type expected_hash r)

  -- Whatever objects it is given, `persist` calls the adapter only with a key and a body that
  -- passed every check and the scan, sealed under one nonce, and for an update with a lease for
  -- this very key.
  pub persist-sent :
      (nonce : Bytes) (key raw : Obj) (ctx : CtxObj) (doc_type : Obj) (s : S) (o : O) (t : S)
      → persist p env backend_write nonce key raw ctx doc_type s ≡ (sent o, t)
      → Passed nonce key raw ctx doc_type s o t
  persist-sent nonce key raw not_a_context doc_type s o t h =
      absurd (unfold persist in ground arith)
  persist-sent nonce key raw (context auth other_precondition op) doc_type s o t h =
      absurd (unfold persist in ground arith)
  persist-sent nonce key raw (context auth create_only_obj op) doc_type s o t h =
      submit-sent nonce key raw doc_type none_obj (context auth create_only_obj op)
        (record { auth = auth; precondition = create_only; operation_id = op }) s o t refl
        (λ k e. tt) (unfold persist in ground (arith, h))
  persist-sent nonce key raw (context auth (overwrite_obj expected lease) op) doc_type s o t h =
      elim (Option-cases (well_formed_lease lease key)) [
        | inl e ↦ absurd (unfold persist persist_overwrite in ground (arith, h, e))
        | inr (l, e) ↦
            submit-sent nonce key raw doc_type expected
              (context auth (overwrite_obj expected lease) op)
              (record {
                auth = auth;
                precondition = overwrite (hash_or_none (hash_of_obj expected)) (some l);
                operation_id = op;
              })
              s o t (l, e, refl) (λ k ke. well_formed_lease-key lease k l (rw ke at e))
              (unfold persist persist_overwrite in ground (arith, h, e))
      ]

  -- A refusal leaves the backend as it was, and says "definitely not committed".
  pub persist-refused :
      (nonce : Bytes) (key raw : Obj) (ctx : CtxObj) (doc_type : Obj) (s : S) (r : WriteResult)
      (t : S)
      → persist p env backend_write nonce key raw ctx doc_type s ≡ (refused r, t)
      → (t ≡ s) × (commit_class r ≡ definitely_not_committed)
  persist-refused nonce key raw not_a_context doc_type s r t h =
      unfold persist commit_class in ground (arith, h)
  persist-refused nonce key raw (context auth other_precondition op) doc_type s r t h =
      unfold persist commit_class in ground (arith, h)
  persist-refused nonce key raw (context auth create_only_obj op) doc_type s r t h =
      submit-refused nonce key raw doc_type none_obj
        (record { auth = auth; precondition = create_only; operation_id = op }) s r t
        (unfold persist in ground (arith, h))
  persist-refused nonce key raw (context auth (overwrite_obj expected lease) op) doc_type s r t h =
      elim (Option-cases (well_formed_lease lease key)) [
        | inl e ↦ unfold persist persist_overwrite commit_class in ground (arith, h, e)
        | inr (l, e) ↦
            submit-refused nonce key raw doc_type expected
              (record {
                auth = auth;
                precondition = overwrite (hash_or_none (hash_of_obj expected)) (some l);
                operation_id = op;
              })
              s r t (unfold persist persist_overwrite in ground (arith, h, e))
      ]
