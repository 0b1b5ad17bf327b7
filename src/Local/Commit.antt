-- ===== src/Local/Commit.antt =====
-- Writes of store/local.py: what the journal and the published files hold after each of them.
use knokeep.Local.State.{
  PublishFault, append_bytes, append_record, Local, commit, after_append, publish_entry,
  journal_append,
}
use knokeep.Prelude.{
  Text, Bytes, text_eq, ◌≡◌, refl, sym, ap, Bool, true, false, none, some, List, [], ◌∷◌, ◌++◌,
  if◌then◌else◌, IsAscii, insert,
}
use knokeep.Types.{Env}
use knokeep.Local.Reader.{append_assoc}
use knokeep.Local.Journal.{Entry, journal_record}
use knokeep.Local.Replay.{append-nil, Journaled, empty, current, legacy}
use knokeep.Local.Recovery.{last_of, later_or}

pub Journaled-append :
    (sha256_digest : Bytes → Bytes) {es : List Entry} {file : Bytes} (e : Entry) (bytes : Bytes)
    → IsAscii e.key
    → journal_record sha256_digest e ≡ some bytes
    → Journaled sha256_digest es file
    → Journaled sha256_digest (es ++ (e ∷ [])) (file ++ bytes)
Journaled-append sha256_digest e bytes a r empty =
    rw (sym (append-nil bytes)) (current e bytes a r empty)
Journaled-append sha256_digest e bytes a r (current {es} {file} f b a' r' j) =
    rw (append_assoc b file bytes)
      (current f b a' r' (Journaled-append sha256_digest e bytes a r j))
Journaled-append sha256_digest e bytes a r (legacy {es} {file} key raw b a' l r' j) =
    rw (append_assoc b file bytes)
      (legacy key raw b a' l r' (Journaled-append sha256_digest e bytes a r j))

-- An appended record is its key's last one, and no other key's.
pub last_of-append :
    (k : Text) (es : List Entry) (e : Entry)
    → last_of k (es ++ (e ∷ []))
      ≡ (if text_eq e.key k then some (e.raw, e.last_accepted_fence) else last_of k es)
last_of-append k [] e = refl
last_of-append k (f ∷ es) e = rw (last_of-append k es e) (go (text_eq e.key k))
  where
    go :
        (b : Bool)
        → later_or
            (if b then some (e.raw, e.last_accepted_fence) else last_of k es)
            (if text_eq f.key k then some (f.raw, f.last_accepted_fence) else none)
          ≡ (if b
              then some (e.raw, e.last_accepted_fence)
              else later_or
                  (last_of k es)
                  (if text_eq f.key k then some (f.raw, f.last_accepted_fence) else none))
    go true = refl
    go false = refl

module _ (env : Env) (sha256_digest : Bytes → Bytes) where
  pub commit-eq :
      (e : Entry) (create : Bool) (fault : PublishFault) (s : Local) (bytes : Bytes)
      → journal_record sha256_digest e ≡ some bytes
      → commit env sha256_digest e create (record { journal = none; publication = fault }) s
        ≡ publish_entry env sha256_digest e create fault (record s { journal = s.journal ++ bytes })
  unfolding commit journal_append append_record append_bytes after_append
  commit-eq e create fault s bytes r =
      ap
        (λ o.
          let (end, t) = append_record none o s in
          after_append env sha256_digest e create fault end t)
        r

  -- The state after a create whose publication was refused.
  abbrev reserved_state : Text → Bytes → Local → Local
  reserved_state key bytes s = record s {
    data_dir = insert key [] s.data_dir;
    journal = s.journal ++ bytes;
  }
