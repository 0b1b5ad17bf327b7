-- ===== src/Fake/Settle.antt =====
-- `_settle_current_hash_after_fence_loss` (store/fake.py): what the wait returns, and that it ends.
use knokeep.Prelude.{
  ℕ, Text, text_eq_iff, ◌≡◌, ◌≢◌, ◌⊎◌, inl, inr, true, Option, none, some, List, [], ◌∷◌, arith,
  lookup, Option-cases, ◌≤◌, ◌↔◌,
}
use knokeep.Fake.State.{fence_at, hash_of, opt_eq}
use knokeep.Fake.Write.{settle, settle_round, Moment}

-- The race is over at a moment: the hash has moved, no fenced write can land any more, or the
-- bound on the wait has passed.
abbrev pub IsSettled : Text → Text → ℕ → Moment → Type 0
IsSettled key expected deadline m =
    (hash_of (lookup key m.state.store) ≢ some expected)
    ⊎ ((fence_at key m.state).owner_fence ≤ (fence_at key m.state).last_accepted_fence)
    ⊎ ((fence_at key m.state).owner_expiry ≤ m.now)
    ⊎ (deadline ≤ m.monotonic)

-- The waits go on to a moment past the deadline.
abbrev pub PassesDeadline : ℕ → List Moment → Type 0
PassesDeadline deadline [] = ⊥
PassesDeadline deadline (m ∷ later) = (deadline ≤ m.monotonic) ⊎ PassesDeadline deadline later

-- The first moment of the list at which the race is over shows this hash.
abbrev pub FirstSettled : Text → Text → ℕ → List Moment → Option Text → Type 0
FirstSettled key expected deadline [] current = ⊥
FirstSettled key expected deadline (m ∷ later) current =
    (IsSettled key expected deadline m × (hash_of (lookup key m.state.store) ≡ current))
    ⊎ ((¬ (IsSettled key expected deadline m)) × FirstSettled key expected deadline later current)

pub opt_eq_iff : (a b : Option Text) → (opt_eq a b ≡ true) ↔ (a ≡ b)
opt_eq_iff none none = ground arith
opt_eq_iff none (some b) = ground arith
opt_eq_iff (some a) none = ground arith
opt_eq_iff (some a) (some b) = ground (arith, text_eq_iff a b)

module _ (key expected : Text) (deadline : ℕ) where
  settle_round-some :
      (m : Moment) (current : Option Text)
      → settle_round key expected deadline m ≡ some current
      → IsSettled key expected deadline m × (hash_of (lookup key m.state.store) ≡ current)
  unfolding settle_round
  settle_round-some m current h =
      ground (arith, opt_eq_iff (hash_of (lookup key m.state.store)) (some expected))

  settle_round-none :
      (m : Moment)
      → settle_round key expected deadline m ≡ none
      → ¬ (IsSettled key expected deadline m)
  unfolding settle_round
  settle_round-none m h =
      ground (arith, opt_eq_iff (hash_of (lookup key m.state.store)) (some expected))

  settle-FirstSettled :
      (moments : List Moment) (current : Option Text)
      → settle key expected deadline moments ≡ some current
      → FirstSettled key expected deadline moments current
  unfolding settle
  settle-FirstSettled [] current h = cc
  settle-FirstSettled (m ∷ later) current h =
      elim (Option-cases (settle_round key expected deadline m)) [
        | inl e ↦ inr (settle_round-none m e, settle-FirstSettled later current (ground arith))
        | inr (c, e) ↦ inl (settle_round-some m current (ground arith))
      ]

  settle-some :
      (moments : List Moment)
      → PassesDeadline deadline moments
      → (current : Option Text) × (settle key expected deadline moments ≡ some current)
  unfolding settle
  settle-some [] p = absurd p
  settle-some (m ∷ later) p = elim (Option-cases (settle_round key expected deadline m)) [
    | inl e ↦ elim p [
      | inl now ↦ absurd (settle_round-none m e (inr (inr (inr now))))
      | inr then_later ↦ let (c, f) = settle-some later then_later in (c, ground arith)
    ]
    | inr (c, e) ↦ (c, ground arith)
  ]

  -- A wait that is woken past its deadline has ended, and it returns the hash of the first moment
  -- at which the race was over: the hash had moved, no fenced write was pending, or time was up.
  pub settle_total :
      (moments : List Moment)
      → PassesDeadline deadline moments
      → (current : Option Text) × (settle key expected deadline moments ≡ some current)
        × FirstSettled key expected deadline moments current
  settle_total moments p =
      let (c, e) = settle-some moments p in (c, e, settle-FirstSettled moments c e)
