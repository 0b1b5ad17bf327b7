-- ===== src/Migrate/OnFake.antt =====
-- A `FakeBackend` (store/fake.py) as the target of a migration (migrate/migrate.py): it keeps what
-- the migration takes from a target.
use knokeep.Fake.Effect.{Permits}
use knokeep.Fake.Lease.{lock, renew, unlock}
use knokeep.Fake.Outcomes.{write-no_clobber}
use knokeep.Fake.State.{Fake, read}
use knokeep.Fake.Write.{Outcome, Schedule, returned, write_scanned}
use knokeep.Migrate.Store.{Creates, IsTarget, LockAnswer, Target, View, lock_busy, locked}
use knokeep.Prelude.{
  List, Option, Text, [], ap, arith, inl, inr, lookup, map, none, refl, some, ℕ, ◌+◌, ◌∷◌, ◌≡◌,
}
use knokeep.Types.{Env, Lock, Precondition, WriteResult, create_only, overwrite}

-- The backend, the clock, and the number of random values drawn so far.
pub record World : Type 0 where
  pub fake : Fake
  pub now : ℕ
  pub drawn : ℕ

abbrev fresh : World → Text
fresh w = (b'0' + w.drawn) ∷ []

abbrev drawing : World → World
drawing w = record w { drawn = w.drawn + 1 }

abbrev result_of : Outcome → Option WriteResult
result_of (returned r) = some r
result_of _ = none

abbrev answer_of : Option Lock → LockAnswer
answer_of none = lock_busy
answer_of (some l) = locked l

abbrev schedule_at : ℕ → Schedule
schedule_at now = record { now = now; monotonic = now; moments = [] }

abbrev keys_of : Fake → List Text
keys_of f = map (λ kv. kv.0) f.store

unfoldable pub fake_target : Env → Target World
fake_target env = record {
  list = (λ w. some (keys_of w.fake));
  read = (λ k w. some (read k w.fake));
  write = (λ k b c w.
      let (o, f) = write_scanned env k b c (schedule_at w.now) w.fake in
      (result_of o, record w { fake = f }));
  lock = (λ k ttl w.
      let (l, f) = lock k ttl w.now (fresh w) w.fake in
      (answer_of l, record (drawing w) { fake = f }));
  unlock = (λ l w. record w { fake = (unlock l w.now w.fake).1 });
  renew = (λ l ttl w. let (b, f) = renew l ttl w.now w.fake in (some b, record w { fake = f }));
  wall = (λ w. (w.now, record w { now = w.now + 1 }));
  monotonic = (λ w. (w.now, record w { now = w.now + 1 }));
  nonce = (λ w. (fresh w, drawing w));
  uuid = (λ w. (fresh w, drawing w));
}

unfoldable pub fake_view : View World
fake_view j w = read j w.fake

read-lookup : (j : Text) (s t : Fake) → lookup j t.store ≡ lookup j s.store → read j t ≡ read j s
unfolding read
read-lookup j s t e = rw e refl

lock-store :
    (k : Text) (ttl now : ℕ) (token : Text) (s : Fake) → (lock k ttl now token s).1.store ≡ s.store
unfolding lock
lock-store k ttl now token s = ground arith

unlock-store : (l : Lock) (now : ℕ) (s : Fake) → (unlock l now s).1.store ≡ s.store
unfolding unlock
unlock-store l now s = ground arith

renew-store : (l : Lock) (ttl now : ℕ) (s : Fake) → (renew l ttl now s).1.store ≡ s.store
unfolding renew
renew-store l ttl now s = ground arith

-- A create is permitted only for an absent key.
create-absent :
    (k : Text) (pre : Precondition) (now : ℕ) (s : Fake)
    → Permits k pre now s
    → Creates pre
    → read k s ≡ none
unfolding read
create-absent k create_only now s h c = rw h refl
create-absent k (overwrite none lease) now s h c = rw h refl
create-absent k (overwrite (some e) lease) now s h c = absurd c

-- A `FakeBackend` is a target: its writes change at most their own key, and a create only an absent
-- one.
pub fake_target-IsTarget : (env : Env) → IsTarget env (fake_target env) fake_view
unfolding fake_target fake_view
fake_target-IsTarget env = record {
  reads = (λ k w o e. cc);
  writes = (λ k b c w j. elim (write-no_clobber env k b c (schedule_at w.now) w.fake j) [
    | inl e ↦ inl (read-lookup j _ _ e)
    | inr (e, permits, now) ↦ inr (
      e,
      (λ creates. rw (← e) (create-absent k.key c.precondition w.now w.fake permits creates)),
      unfold read in rw now refl,
    )
  ]);
  locks = (λ k ttl w j.
      read-lookup j _ _ (ap (λ st. lookup j st) (lock-store k ttl w.now (fresh w) w.fake)));
  unlocks = (λ l w j. read-lookup j _ _ (ap (λ st. lookup j st) (unlock-store l w.now w.fake)));
  renews =
      (λ l ttl w j. read-lookup j _ _ (ap (λ st. lookup j st) (renew-store l ttl w.now w.fake)));
  walls = (λ w j. refl);
  monotonics = (λ w j. refl);
  nonces = (λ w j. refl);
  uuids = (λ w j. refl);
}
