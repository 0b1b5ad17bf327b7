-- ===== src/Server/Lifecycle.antt =====
-- What the handshake of `KnoKeepServer` (mcp/server.py) guards, and which messages get a reply.
use knokeep.Prelude.{
  ◌∙◌, if_cases, some, Bool, Bool-cases, Dict, List, Option, Text, [], codes, false, if_both, inl,
  inr, none, refl, text_eq, true, ◌&&◌, ◌||◌, ◌∷◌, ◌≡◌, ◌⊎◌,
}
use knokeep.Server.Handle.{
  bad_id, new_session, null_id, serve, Request, checked, failed, handle, invalid_request, no_params,
  params, reply_to, with_id, with_method, with_params, Arg, MessageId, Message, Params, Reply,
  RequestId, Session, ToolEnd, acknowledged, bad_params, call_tools, dispatch, good_id, is_text,
  no_id, not_an_object, object,
}

abbrev id_accepted : RequestId → Bool
id_accepted no_id = true
id_accepted (good_id id) = true
id_accepted _ = false

abbrev pub params_accepted : Params → Bool
params_accepted bad_params = false
params_accepted _ = true

abbrev pub reaches : (accepted : Bool) → Request → Text → Bool
reaches accepted r name =
    accepted
    && (is_text r.jsonrpc (codes "2.0") && (params_accepted r.members && is_text r.method name))

-- The message passes every check up to its method, which is this one.
abbrev pub calls : Text → Message → Bool
calls name not_an_object = false
calls name (object r) = reaches (id_accepted r.id) r name

abbrev pub initializes : Message → Bool
initializes m = calls (codes "initialize") m

abbrev pub acknowledges : Message → Bool
acknowledges m = calls (codes "notifications/initialized") m || calls (codes "initialized") m

-- An `initialize` request, and after it a notification that it is acknowledged.
abbrev pub Acknowledged : List Message → Type 0
Acknowledged [] = ⊥
Acknowledged (m ∷ ms) = (acknowledges m ≡ true) ⊎ Acknowledged ms

abbrev pub Handshake : List Message → Type 0
Handshake [] = ⊥
Handshake (m ∷ ms) = ((initializes m ≡ true) × Acknowledged ms) ⊎ Handshake ms

module _ {S : Type 0} (tools : Text → Option (Dict Arg → S → ToolEnd × S)) where
  -- One message to a session that is not initialized: the state is kept, and the session moves only by
  -- the two messages of the handshake.
  record Guarded (init ack : Bool) (session : Session) (s : S) (out : Option Reply × Session × S)
      : Type 0 where
    state_kept : out.2 ≡ s
    by_ack : out.1.initialized ≡ true → (session.awaiting_initialized_ack ≡ true) × (ack ≡ true)
    by_init :
        out.1.awaiting_initialized_ack ≡ true
        → (session.awaiting_initialized_ack ≡ true) ⊎ (init ≡ true)

  module _ (session : Session) (fresh : session.initialized ≡ false) (s : S) where
    stays-Guarded :
        (init ack : Bool) (reply : Option Reply) → Guarded init ack session s (reply, session, s)
    stays-Guarded init ack reply = record {
      state_kept = refl;
      by_ack = (λ h. cc);
      by_init = (λ h. inl h);
    }

    acknowledged-Guarded :
        (init : Bool) (reply : Option Reply)
        → Guarded init true session s (reply, acknowledged tools session, s)
    unfolding acknowledged
    acknowledged-Guarded init reply =
        if_cases (λ (next : Session). Guarded init true session s (reply, next, s))
          session.awaiting_initialized_ack
          (λ e. record { state_kept = refl; by_ack = (λ h. (e, refl)); by_init = (λ h. cc) })
          (λ e. stays-Guarded init true reply)

    call_tools-Guarded :
        (id : Option MessageId) (members : Params) (init ack : Bool)
        → Guarded init ack session s (call_tools tools id members session s)
    unfolding call_tools
    call_tools-Guarded id members init ack =
        if_cases (Guarded init ack session s) session.initialized (λ e. cc)
          (λ e. stays-Guarded init ack (reply_to id (failed invalid_request)))

    dispatch-Guarded :
        (method : Text) (id : Option MessageId) (members : Params)
        → Guarded
            (text_eq method (codes "initialize"))
            (text_eq method (codes "notifications/initialized")
              || text_eq method (codes "initialized"))
            session
            s
            (dispatch tools method id members session s)
    unfolding dispatch
    dispatch-Guarded method id members = elim (Bool-cases (text_eq method (codes "initialize"))) [
      | inl e ↦ rw e (record { state_kept = refl; by_ack = (λ h. cc); by_init = (λ h. inr refl) })
      | inr e ↦
          elim (Bool-cases (
            text_eq method (codes "notifications/initialized")
            || text_eq method (codes "initialized"))) [
              | inl a ↦ rw (e, a) (acknowledged-Guarded false none)
              | inr a ↦
                  rw (e, a)
                    (if_both (Guarded false false session s) (text_eq method (codes "ping"))
                      (stays-Guarded false false _)
                      (if_both (Guarded false false session s) (text_eq method (codes "tools/list"))
                        (stays-Guarded false false _)
                        (if_both (Guarded false false session s)
                          (text_eq method (codes "tools/call"))
                          (call_tools-Guarded id members false false)
                          (stays-Guarded false false _))))
            ]
    ]

    with_params-Guarded :
        (method : Text) (id : Option MessageId) (members : Params)
        → Guarded
            (params_accepted members && text_eq method (codes "initialize"))
            ((params_accepted members && text_eq method (codes "notifications/initialized"))
              || (params_accepted members && text_eq method (codes "initialized")))
            session
            s
            (with_params tools method id members session s)
    unfolding with_params
    with_params-Guarded method id bad_params = stays-Guarded false false _
    with_params-Guarded method id no_params = dispatch-Guarded method id no_params
    with_params-Guarded method id (params name args) = dispatch-Guarded method id (params name args)

    with_method-Guarded :
        (method : Option Text) (id : Option MessageId) (members : Params)
        → Guarded
            (params_accepted members && is_text method (codes "initialize"))
            ((params_accepted members && is_text method (codes "notifications/initialized"))
              || (params_accepted members && is_text method (codes "initialized")))
            session
            s
            (with_method tools method id members session s)
    unfolding with_method
    with_method-Guarded none id members = stays-Guarded _ _ _
    with_method-Guarded (some method) id members = with_params-Guarded method id members

    with_id-Guarded :
        (id : Option MessageId) (r : Request)
        → Guarded
            (reaches true r (codes "initialize"))
            (reaches true r (codes "notifications/initialized")
              || reaches true r (codes "initialized"))
            session
            s
            (with_id tools id r session s)
    unfolding with_id
    with_id-Guarded id r = elim (Bool-cases (is_text r.jsonrpc (codes "2.0"))) [
      | inl e ↦ rw e (with_method-Guarded r.method id r.members)
      | inr e ↦ rw e (stays-Guarded false false _)
    ]

    checked-Guarded :
        (good : RequestId) (r : Request)
        → Guarded
            (reaches (id_accepted good) r (codes "initialize"))
            (reaches (id_accepted good) r (codes "notifications/initialized")
              || reaches (id_accepted good) r (codes "initialized"))
            session
            s
            (checked tools good r session s)
    unfolding checked
    checked-Guarded no_id r = with_id-Guarded none r
    checked-Guarded null_id r = stays-Guarded false false _
    checked-Guarded bad_id r = stays-Guarded false false _
    checked-Guarded (good_id id) r = with_id-Guarded (some id) r

    handle-Guarded :
        (m : Message)
        → Guarded (initializes m) (acknowledges m) session s (handle tools m session s)
    unfolding handle
    handle-Guarded not_an_object = stays-Guarded false false _
    handle-Guarded (object r) = checked-Guarded r.id r

  -- What may have happened to the state once some messages are served.
  abbrev Served : List Message → Session → (s t : S) → Type 0
  Served ms session s t =
      (t ≡ s) ⊎ (((session.awaiting_initialized_ack ≡ true) × Acknowledged ms) ⊎ Handshake ms)

  serve-Served :
      (ms : List Message) (session : Session) (s : S)
      → session.initialized ≡ false
      → Served ms session s (serve tools ms session s).2
  unfolding serve
  serve-Served [] session s fresh = inl refl
  serve-Served (m ∷ ms) session s fresh =
      let out = handle tools m session s in
      let g = handle-Guarded session fresh s m in
      elim (Bool-cases out.1.initialized) [
        | inl e ↦ inr (inl ((g.by_ack e).0, inl (g.by_ack e).1))
        | inr e ↦ elim (serve-Served ms out.1 out.2 e) [
          | inl same ↦ inl (same ∙ g.state_kept)
          | inr (inl (waits, acked)) ↦ elim (g.by_init waits) [
            | inl before ↦ inr (inl (before, inr acked))
            | inr now ↦ inr (inr (inl (now, acked)))
          ]
          | inr (inr shake) ↦ inr (inr (inr shake))
        ]
      ]

  -- Whatever messages a new connection sends, in whatever order, no tool touches the state unless an
  -- `initialize` message was accepted and, after it, the notification that acknowledges it.
  pub serve-Handshake :
      (ms : List Message) (s : S) → ((serve tools ms new_session s).2 ≡ s) ⊎ Handshake ms
  serve-Handshake ms s = elim (serve-Served ms new_session s refl) [
    | inl same ↦ inl same
    | inr (inl (waits, acked)) ↦ cc
    | inr (inr shake) ↦ inr shake
  ]
