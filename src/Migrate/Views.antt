-- ===== src/Migrate/Views.antt =====
-- What one call through the write door does to the data that a target holds (migrate/migrate.py).
use knokeep.Migrate.Keeping.{Steady}
use knokeep.Migrate.Lease.{control_key, gate_persist, system_state}
use knokeep.Prelude.{refl, sym, ◌∙◌, inr, Bytes, Option, Text, ap, inl, none, some, ◌≡◌, ◌⊎◌}
use knokeep.Types.{default_auth, OperationContext, AuthContext, Blob, Env, WriteResult, sha256_hex}
use knokeep.Gate.Door.{Carries, persist-refused, persist-sent}
use knokeep.Gate.Marker.{make_scanned_body, make_scanned_key}
use knokeep.Gate.Objects.{Obj, PreconditionObj, bytes_obj, context, create_only_obj, str_obj}
use knokeep.Gate.Persist.{bytes_of, Gated, persist, refused, sent}
use knokeep.Migrate.Store.{Creates, IsTarget, Target, View}
use knokeep.Gate.Platform.{Platform}
use knokeep.Migrate.LeaseDoc.{JsonLib}

module _ (p : Platform) (env : Env) (json : JsonLib) {S : Type 0} (target : Target S)
    (view : View S) (laws : IsTarget env target view) where
  abbrev stored : Bytes → Option Blob
  stored body = some (record { body = body; version_hash = sha256_hex env body })

  -- What is held under `j` is what it was, or the call was for this key, and a create only if the
  -- key was absent.
  abbrev pub Moved : Text → Bytes → PreconditionObj → (s t : S) → Text → Type 0
  Moved key body pre s t j =
      (view j t ≡ view j s)
      ⊎ ((key ≡ j) × (pre ≡ create_only_obj → view j s ≡ none) × (view j t ≡ stored body))

  carried-Creates :
      (key : Obj) (auth : AuthContext) (op : Text) (c : OperationContext)
      → Carries key (context auth create_only_obj op) c
      → Creates c.precondition
  carried-Creates key auth op c h = rw h tt

  called-Moved :
      (nonce : Bytes) (key : Text) (body : Bytes) (auth : AuthContext) (pre : PreconditionObj)
      (op : Text) (c : OperationContext) (s : S) (o : Option WriteResult) (t : S) (j : Text)
      → Carries (str_obj key) (context auth pre op) c
      → target.write (make_scanned_key env key nonce) (make_scanned_body env body nonce) c s
        ≡ (o, t)
      → Moved key body pre s t j
  unfolding make_scanned_key make_scanned_body
  called-Moved nonce key body auth pre op c s o t j carried called =
      elim (rw called at
        (laws.writes (make_scanned_key env key nonce) (make_scanned_body env body nonce) c s j)) [
          | inl same ↦ inl same
          | inr (e, absent, now) ↦
              inr
                (e, (λ q. absent (carried-Creates (str_obj key) auth op c (rw q at carried))), now)
        ]

  persist-Moved :
      (nonce : Bytes) (key : Text) (body : Bytes) (auth : AuthContext) (pre : PreconditionObj)
      (op : Text) (doc : Obj) (s : S) (j : Text) (o : Gated (Option WriteResult) × S)
      → persist p env target.write nonce (str_obj key) (bytes_obj body) (context auth pre op) doc s
        ≡ o
      → Moved key body pre s o.1 j
  persist-Moved nonce key body auth pre op doc s j (refused r, t) e =
      inl (ap (λ u. view j u) (persist-refused p env target.write nonce _ _ _ _ s r t e).0)
  persist-Moved nonce key body auth pre op doc s j (sent o, t) e =
      let h =
        persist-sent p env target.write nonce (str_obj key) (bytes_obj body) (context auth pre op)
          doc s o t e in
      let same_key : key ≡ h.name = (let k = h.key_is in cc) in
      let same_body : body ≡ h.body = (let b = h.raw_is in unfold bytes_of in cc) in
      called-Moved nonce key body auth pre op h.ctx s o t j h.carried
        (rw (same_key, same_body) h.called)

  -- With a fresh nonce and a fresh operation id.
  pub persist-Moved_fresh :
      (key : Text) (body : Bytes) (pre : PreconditionObj) (doc : Obj) (s : S) (j : Text)
      → Moved key body pre s
          (persist p env target.write
            (target.nonce (target.uuid s).1).0
            (str_obj key)
            (bytes_obj body)
            (context default_auth pre (target.uuid s).0)
            doc
            (target.nonce (target.uuid s).1).1).1
          j
  persist-Moved_fresh key body pre doc s j =
      let s1 = (target.uuid s).1 in
      let s2 = (target.nonce s1).1 in
      let same : view j s2 ≡ view j s = laws.nonces s1 j ∙ laws.uuids s j in
      elim (persist-Moved (target.nonce s1).0 key body default_auth pre (target.uuid s).0 doc s2 j _
        refl) [
          | inl e ↦ inl (e ∙ same)
          | inr (e, absent, now) ↦ inr (e, (λ q. sym same ∙ absent q), now)
        ]

  pub gate_persist-Moved :
      (key : Text) (body : Bytes) (pre : PreconditionObj) (s : S) (j : Text)
      → Moved key body pre s (gate_persist p env json target key body pre s).1 j
  unfolding gate_persist
  gate_persist-Moved key body pre s j = persist-Moved_fresh key body pre system_state s j

  -- Between the two states, nothing but the control key changed.
  abbrev pub Unmoved : S → S → Type 0
  Unmoved s t = (j : Text) → (j ≡ control_key → ⊥) → view j t ≡ view j s

  -- A predicate on the data alone is kept by every call on the lease.
  pub data-Steady :
      (I : S → Type 0) → ((s t : S) → Unmoved s t → I s → I t) → Steady p env json target I
  data-Steady I stable = record {
    locks = (λ k ttl s i. stable s _ (λ j n. laws.locks k ttl s j) i);
    unlocks = (λ l s i. stable s _ (λ j n. laws.unlocks l s j) i);
    renews = (λ l ttl s i. stable s _ (λ j n. laws.renews l ttl s j) i);
    walls = (λ s i. stable s _ (λ j n. laws.walls s j) i);
    monotonics = (λ s i. stable s _ (λ j n. laws.monotonics s j) i);
    uuids = (λ s i. stable s _ (λ j n. laws.uuids s j) i);
    controls = (λ body pre s i.
        stable s _
          (λ j n. elim (gate_persist-Moved control_key body pre s j) [
            | inl e ↦ e
            | inr (e, absent, now) ↦ absurd (n (sym e))
          ])
          i);
  }

  -- Every data key holds what it held, or was absent and now holds the value of the source.
  abbrev pub Kept : (Text → Option (Option Blob)) → S → S → Type 0
  Kept held s t =
      (j : Text)
      → (j ≡ control_key → ⊥)
      → (view j t ≡ view j s)
        ⊎ ((view j s ≡ none) × (b : Blob) × (held j ≡ some (some b)) × (view j t ≡ stored b.body))

  -- The target holds a value with the blob's hash under the key.
  abbrev pub Found : Text → Blob → S → Type 0
  Found key blob t = (b : Blob) × (view key t ≡ some b) × (b.version_hash ≡ blob.version_hash)

  pub Kept-Steady :
      (held : Text → Option (Option Blob)) (s : S) → Steady p env json target (Kept held s)
  Kept-Steady held s = data-Steady (Kept held s) (λ t u same k j n. elim (k j n) [
    | inl e ↦ inl (same j n ∙ e)
    | inr (absent, b, e, now) ↦ inr (absent, b, e, same j n ∙ now)
  ])

  pub Found-Steady :
      (key : Text) (blob : Blob)
      → (key ≡ control_key → ⊥)
      → Steady p env json target (Found key blob)
  Found-Steady key blob n =
      data-Steady (Found key blob) (λ t u same f. (f.0, same key n ∙ f.1, f.2))

  pub Kept-create :
      (held : Text → Option (Option Blob)) (s t : S) (key : Text) (blob : Blob)
      → held key ≡ some (some blob)
      → Kept held s t
      → Kept held s (gate_persist p env json target key blob.body create_only_obj t).1
  Kept-create held s t key blob h k j n =
      elim (gate_persist-Moved key blob.body create_only_obj t j) [
        | inl e ↦ elim (k j n) [
          | inl e' ↦ inl (e ∙ e')
          | inr (absent, b, r, now) ↦ inr (absent, b, r, e ∙ now)
        ]
        | inr (e, absent, now) ↦ elim (k j n) [
          | inl e' ↦ inr (sym e' ∙ absent refl, blob, rw (← e) h, now)
          | inr (absent', b, r, now') ↦ (let a = absent refl in cc)
        ]
      ]

  pub Found-create :
      (key k : Text) (blob b : Blob) (t : S)
      → Found key blob t
      → Found key blob (gate_persist p env json target k b.body create_only_obj t).1
  Found-create key k blob b t f = elim (gate_persist-Moved k b.body create_only_obj t key) [
    | inl e ↦ (f.0, e ∙ f.1, f.2)
    | inr (e, absent, now) ↦ (let a = absent refl in let g = f.1 in cc)
  ]
