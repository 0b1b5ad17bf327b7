-- ===== src/Local/Waits.antt =====
-- `_settle_current_hash_after_fence_loss` of store/local.py: that the wait ends, and with what.
use knokeep.Prelude.{
  refl, ℕ, Text, ◌≡◌, ◌≢◌, ◌≤◌, ◌⊎◌, inl, inr, ◌||◌, not, Bool, Bool-cases, true, false, leb,
  lookup, Option, none, some, List, [], ◌∷◌, arith, ◌↔◌,
}
use knokeep.Types.{Env}
use knokeep.Fake.State.{opt_eq}
use knokeep.Fake.Settle.{opt_eq_iff}
use knokeep.Local.State.{FenceOwner, accepted_at}
use knokeep.Local.Backend.{Glimpse, pending, pending_owner, seen_hash, settle_from, settle}

-- The waits go on to a moment past the deadline.
abbrev pub PassesDeadline : ℕ → List Glimpse → Type 0
PassesDeadline deadline [] = ⊥
PassesDeadline deadline (g ∷ later) = (deadline ≤ g.monotonic) ⊎ PassesDeadline deadline later

-- No fenced write can land: no fence was given out, or the last one is consumed, or its lease expired.
abbrev pub IsIdle : Option FenceOwner → (accepted now : ℕ) → Type 0
IsIdle none accepted now = Unit
IsIdle (some owner) accepted now = (owner.fence ≤ accepted) ⊎ (owner.expiry ≤ now)

-- The race is over at a moment at which this hash is seen.
abbrev pub IsSettled : Text → Text → ℕ → Glimpse → Option Text → Type 0
IsSettled key expected deadline g seen =
    (seen ≢ some expected)
    ⊎ IsIdle (lookup key g.fences.owners) (accepted_at key g.fences) g.now
    ⊎ (deadline ≤ g.monotonic)

-- The first moment of the list at which the race is over shows this hash. A moment at which the file
-- cannot be read shows the hash before.
abbrev pub FirstSettled :
    Env → Text → Text → ℕ → (before : Option Text) → List Glimpse → Option Text → Type 0
FirstSettled env key expected deadline before [] current = ⊥
FirstSettled env key expected deadline before (g ∷ later) current =
    (IsSettled key expected deadline g (seen_hash env key before g)
      × (seen_hash env key before g ≡ current))
    ⊎ ((¬ (IsSettled key expected deadline g (seen_hash env key before g)))
        × FirstSettled env key expected deadline (seen_hash env key before g) later current)

pending_owner-IsIdle :
    (o : Option FenceOwner) (accepted now : ℕ)
    → (pending_owner o accepted now ≡ false) ↔ IsIdle o accepted now
pending_owner-IsIdle none accepted now = ground arith
pending_owner-IsIdle (some owner) accepted now = ground arith

module _ (env : Env) (key expected : Text) (deadline : ℕ) where
  abbrev stops : Glimpse → Option Text → Bool
  stops g seen =
      not (opt_eq seen (some expected)) || (not (pending key g) || leb deadline g.monotonic)

  stops-IsSettled :
      (g : Glimpse) (seen : Option Text)
      → (stops g seen ≡ true) ↔ IsSettled key expected deadline g seen
  unfolding pending
  stops-IsSettled g seen =
      let idle =
        pending_owner-IsIdle (lookup key g.fences.owners) (accepted_at key g.fences) g.now in
      ground (arith, opt_eq_iff seen (some expected), idle)

  settle_from-first :
      (before : Option Text) (gs : List Glimpse)
      → PassesDeadline deadline gs
      → (current : Option Text) × (settle_from env key expected deadline before gs ≡ some current)
        × FirstSettled env key expected deadline before gs current
  unfolding settle_from
  settle_from-first before [] h = absurd h
  settle_from-first before (g ∷ later) h =
      let seen = seen_hash env key before g in
      elim (Bool-cases (stops g seen)) [
        | inl e ↦ (seen, rw e refl, inl ((stops-IsSettled g seen).0 e, refl))
        | inr e ↦ elim h [
          | inl now ↦ absurd (ground (arith, (stops-IsSettled g seen).1 (inr (inr now)), e))
          | inr then_later ↦
              let (current, f, first) = settle_from-first seen later then_later in
              (
                current,
                rw e f,
                inr ((λ over. ground (arith, (stops-IsSettled g seen).1 over, e)), first),
              )
        ]
      ]

  -- A wait that is woken past its deadline has ended, and it returns the hash of the first moment at
  -- which the race was over: the hash had moved from the expected one, no fenced write could land
  -- any more, or the time was up.
  pub settle-ends :
      (gs : List Glimpse)
      → PassesDeadline deadline gs
      → (current : Option Text) × (settle env key expected deadline gs ≡ some current)
        × FirstSettled env key expected deadline (some expected) gs current
  unfolding settle
  settle-ends gs h = settle_from-first (some expected) gs h
