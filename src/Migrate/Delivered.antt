-- ===== src/Migrate/Delivered.antt =====
-- Pass 2 after pass 1 (migrate/migrate.py): each scanned key ends up on the target.
use knokeep.Migrate.Copied.{copy_beaten-Ends}
use knokeep.Migrate.Keeping.{Steady}
use knokeep.Migrate.Lease.{heartbeat_if_due, Lease, control_key}
use knokeep.Migrate.Passed.{CountedAll, copy_keys-Ends, Listed}
use knokeep.Migrate.Scanned.{Ends-mono, Ends, IsScanned, Scanned}
use knokeep.Migrate.Views.{Found-Steady, Found-create, data-Steady, Found}
use knokeep.Gate.Platform.{Platform}
use knokeep.Migrate.LeaseDoc.{JsonLib}
use knokeep.Migrate.Passes.{Blobs, copy_keys}
use knokeep.Migrate.Report.{Counts, Info}
use knokeep.Migrate.Store.{IsTarget, Target, View}
use knokeep.Prelude.{
  Among, Bytes, List, Option, Text, [], ap, inl, inr, length, refl, suc, sym, ◌∙◌, ◌∷◌, ◌≡◌,
}
use knokeep.Types.{Blob, Env}

pub Scanned-Listed :
    (scanner : Bytes → Option (List Text)) (held : Text → Option (Option Blob)) (keys : List Text)
    (blobs : Blobs) (key : Text) (blob : Blob)
    → Scanned scanner held keys blobs
    → Listed blobs key blob
    → Among keys key × IsScanned scanner held key blob
Scanned-Listed scanner held [] [] key blob h m = absurd m
Scanned-Listed scanner held [] (b ∷ bs) key blob h m = absurd h
Scanned-Listed scanner held (k ∷ ks) [] key blob h m = absurd h
Scanned-Listed scanner held (k ∷ ks) ((j, b) ∷ bs) key blob (e, c, h) (inl (e', e'')) =
    (inl (sym e ∙ e'), rw (← e', e, ← e'') c)
Scanned-Listed scanner held (k ∷ ks) ((j, b) ∷ bs) key blob (e, c, h) (inr m) =
    let r = Scanned-Listed scanner held ks bs key blob h m in (inr r.0, r.1)

pub Scanned-Among :
    (scanner : Bytes → Option (List Text)) (held : Text → Option (Option Blob)) (keys : List Text)
    (blobs : Blobs) (key : Text)
    → Scanned scanner held keys blobs
    → Among keys key
    → (blob : Blob) × Listed blobs key blob × IsScanned scanner held key blob
Scanned-Among scanner held [] [] key h m = absurd m
Scanned-Among scanner held [] (b ∷ bs) key h m = absurd h
Scanned-Among scanner held (k ∷ ks) [] key h m = absurd h
Scanned-Among scanner held (k ∷ ks) ((j, b) ∷ bs) key (e, c, h) (inl e') =
    (b, inl (e ∙ e', refl), rw (← e') c)
Scanned-Among scanner held (k ∷ ks) ((j, b) ∷ bs) key (e, c, h) (inr m) =
    let r = Scanned-Among scanner held ks bs key h m in (r.0, inr r.1, r.2)

pub Scanned-length :
    (scanner : Bytes → Option (List Text)) (held : Text → Option (Option Blob)) (keys : List Text)
    (blobs : Blobs)
    → Scanned scanner held keys blobs
    → length blobs ≡ length keys
Scanned-length scanner held [] [] h = refl
Scanned-length scanner held [] (b ∷ bs) h = absurd h
Scanned-length scanner held (k ∷ ks) [] h = absurd h
Scanned-length scanner held (k ∷ ks) ((j, b) ∷ bs) (e, c, h) =
    ap suc (Scanned-length scanner held ks bs h)

module _ (p : Platform) (env : Env) (json : JsonLib) {S : Type 0} (target : Target S)
    (view : View S) (laws : IsTarget env target view) (scanner : Bytes → Option (List Text))
    (source_read : Text → S → Option (Option Blob)) (info : Info) where
  abbrev Any : S → Type 0
  Any t = Unit

  Any-Steady : Steady p env json target Any
  Any-Steady = data-Steady p env json target view laws Any (λ s t same u. tt)

  -- If the second pass passes, the target holds each listed blob by its hash.
  pub copy_keys-Found :
      (before : List Text) (blobs : Blobs) (c : Counts) (l : Lease) (s : S) (key : Text)
      (blob : Blob)
      → (key ≡ control_key → ⊥)
      → Listed blobs key blob
      → Ends Any
          (λ c' t. Found p env json target view laws key blob t)
          (copy_keys p env json target scanner source_read info before blobs c l s)
  unfolding copy_keys
  copy_keys-Found before [] c l s key blob n m = absurd m
  copy_keys-Found before ((k, b) ∷ blobs) c l s key blob n (inl (e, e')) =
      let F = Found p env json target view laws key blob in
      let steady = Found-Steady p env json target view laws key blob n in
      copy_beaten-Ends p env json target scanner source_read info Any F Any (λ c' t. F t) Any-Steady
        steady (λ t h. tt) (λ t h. tt) k b (λ t h. tt)
        (λ t found h r q. (found, sym (laws.reads key t _ (rw (← e) r)), rw (← e') q)) before c
        (λ c' l' s'. copy_keys p env json target scanner source_read info before blobs c' l' s')
        (λ c' l' t a f.
          Ends-mono F Any (λ c'' u. F u × CountedAll (length blobs) c' c'') (λ c'' u. F u)
            (λ u h. tt) (λ c'' u h. h.0) _
            (copy_keys-Ends p env json target scanner source_read info F steady before blobs c' l' t
              (λ k' b' u m f'. Found-create p env json target view laws key k' blob b' u f') f))
        (heartbeat_if_due p env json target l s) tt
  copy_keys-Found before ((k, b) ∷ blobs) c l s key blob n (inr m) =
      copy_beaten-Ends p env json target scanner source_read info Any Any Any
        (λ c' t. Found p env json target view laws key blob t) Any-Steady Any-Steady (λ t h. tt)
        (λ t h. tt) k b (λ t h. tt) (λ t found h r q. tt) before c
        (λ c' l' s'. copy_keys p env json target scanner source_read info before blobs c' l' s')
        (λ c' l' t a h. copy_keys-Found before blobs c' l' t key blob n m)
        (heartbeat_if_due p env json target l s) tt
