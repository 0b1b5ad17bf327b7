-- ===== src/Tests/LocalRuns.antt =====
-- Runs of the journal and of `LocalBackend` (store/local.py), and their theorems at these runs.
use knokeep.Local.State.{
  accept, after_publish, append_bytes, append_record, named, placed, Local, commit, publish_entry,
  after_append, journal_append, publish, check_case_collision,
}
use knokeep.Prelude.{
  Bytes, codes, ◌≡◌, refl, false, none, some, [], ◌∷◌, ◌++◌, arith, take, length, lookup, insert,
  IsAscii, inl, inr, true, utf8_encode, text_eq, List, Option, Text,
}
use knokeep.Types.{sha256_hex}
use knokeep.Local.Backend.{write_scanned, Turn, settle, Glimpse}
use knokeep.Local.Waits.{settle-ends, FirstSettled}
use knokeep.Local.Ends.{write_scanned-WriteEnd, WriteEnd}
use knokeep.Tests.Samples.{
  sealed_key, sealed_new, creating, env, key, old_body, new_body, hash_of_length,
}
use knokeep.Local.Journal.{Entry, journal_record, journal_records, record_body, pack, be_bytes}
use knokeep.Local.Replay.{Journaled, empty, current, legacy}
use knokeep.Local.Torn.{journal_records-torn}
use knokeep.Local.Write.{
  write_under_cas_lock, checked_section, create_section, resume, hash_of_file,
}
use knokeep.Local.Recovery.{resume-torn, IsResumed}
use knokeep.Local.Safety.{Permitted, write-Permitted}
use knokeep.Local.Durable.{resume-durable, here, next, wrote, empty_local, no_faults}

-- 31 digits and the length: a stand-in for a digest, with its length.
abbrev digest : Bytes → Bytes
digest b = codes "0000000000000000000000000000000" ++ (length b ∷ [])

length-digest : (b : Bytes) → length (digest b) ≡ 32
length-digest b = refl

key-IsAscii : IsAscii key
key-IsAscii = (omega arith, (omega arith, (omega arith, tt)))

abbrev first_entry : Entry
first_entry = record { key = key; raw = old_body; last_accepted_fence = 0 }

abbrev second_entry : Entry
second_entry = record { key = key; raw = new_body; last_accepted_fence = 1 }

abbrev old_shape : Bytes
old_shape = (0 ∷ 0 ∷ 0 ∷ 3 ∷ key) ++ ((0 ∷ 0 ∷ 0 ∷ 0 ∷ 0 ∷ 0 ∷ 0 ∷ 2 ∷ old_body) ++ digest old_body)

abbrev first_bytes : Bytes
first_bytes = codes "KKJ2" ++ (old_shape ++ (0 ∷ 0 ∷ 0 ∷ 0 ∷ 0 ∷ 0 ∷ 0 ∷ 0 ∷ []))

abbrev second_bytes : Bytes
second_bytes =
    codes "KKJ2"
    ++ ((0 ∷ 0 ∷ 0 ∷ 3 ∷ key)
        ++ ((0 ∷ 0 ∷ 0 ∷ 0 ∷ 0 ∷ 0 ∷ 0 ∷ 3 ∷ new_body)
            ++ (digest new_body ++ (0 ∷ 0 ∷ 0 ∷ 0 ∷ 0 ∷ 0 ∷ 0 ∷ 1 ∷ []))))

first_record : journal_record digest first_entry ≡ some first_bytes
unfolding journal_record record_body pack be_bytes utf8_encode
first_record = refl

second_record : journal_record digest second_entry ≡ some second_bytes
unfolding journal_record record_body pack be_bytes utf8_encode
second_record = refl

old_record : record_body digest key old_body ≡ some old_shape
unfolding record_body pack be_bytes utf8_encode
old_record = refl

-- a record of the old shape, and one of the new
mixed : Journaled digest (first_entry ∷ first_entry ∷ []) (old_shape ++ (first_bytes ++ []))
mixed =
    legacy key old_body old_shape key-IsAscii (unfold utf8_encode in omega arith) old_record
      (current first_entry first_bytes key-IsAscii first_record empty)

journal_records-torn_example :
    journal_records digest ((old_shape ++ (first_bytes ++ [])) ++ take 20 second_bytes)
    ≡ first_entry ∷ first_entry ∷ []
journal_records-torn_example =
    journal_records-torn digest length-digest second_entry second_bytes 20 mixed key-IsAscii
      second_record (omega arith)

-- the published file is lost
abbrev crashed : Local
crashed = record (empty_local false) {
  journal = (old_shape ++ (first_bytes ++ [])) ++ take 20 second_bytes;
}

resume-torn_example :
    IsResumed env digest key (first_entry ∷ first_entry ∷ []) crashed (resume env digest crashed)
resume-torn_example =
    resume-torn env digest crashed second_entry second_bytes 20 key length-digest mixed key-IsAscii
      second_record (omega arith) refl

write-Permitted_example :
    Permitted env digest key old_body none none no_faults 100 (empty_local false) (
      write_under_cas_lock env digest
        (λ s. s)
        key
        old_body
        none
        none
        no_faults
        100
        (empty_local false))
write-Permitted_example =
    write-Permitted env digest (λ s. s) key old_body none none no_faults 100 (empty_local false)

abbrev written : Local
written =
    (write_under_cas_lock env digest (λ s. s) key old_body none none no_faults 100
      (empty_local false)).1

written_run : lookup key written.data_dir ≡ some old_body
unfolding write_under_cas_lock checked_section create_section commit after_append publish_entry
    after_publish accept placed named append_record append_bytes journal_append publish
    check_case_collision lookup insert journal_record record_body pack be_bytes utf8_encode text_eq
written_run = refl

abbrev lost : Local
lost = record written { data_dir = []; journal = written.journal ++ take 50 second_bytes }

resume-durable_example :
    (hash_of_file env (lookup key (resume env digest lost).data_dir)
      ≡ some (sha256_hex env old_body))
    × (lookup key (resume env digest lost).last_accepted ≡ lookup key written.last_accepted)
resume-durable_example =
    resume-durable env digest false written lost second_entry second_bytes 50 key old_body
      length-digest (next here (wrote (λ s. s) key old_body none none 100 key-IsAscii)) written_run
      key-IsAscii second_record (omega arith) refl

abbrev refused_state : Local
refused_state = record (empty_local false) { data_dir = (key, []) ∷ []; journal = first_bytes }

abbrev turn : Turn
turn = record { acquired = true; faults = no_faults; now = 100; monotonic = 0; glimpses = [] }

write_scanned-WriteEnd_example :
    WriteEnd env key new_body
      (empty_local false)
      (write_scanned env digest (λ s. s) sealed_key sealed_new creating turn (empty_local false)).0
      (write_scanned env digest (λ s. s) sealed_key sealed_new creating turn (empty_local false)).1
write_scanned-WriteEnd_example =
    write_scanned-WriteEnd env digest (λ s. s) sealed_key sealed_new creating turn
      (empty_local false)

abbrev woken : List Glimpse
woken =
    record { fences = written; files = written; now = 100; monotonic = 0; readable = false }
    ∷ record { fences = written; files = written; now = 101; monotonic = 5000; readable = true }
    ∷ []

settle-ends_example :
    (current : Option Text) × (settle env key (hash_of_length 2) 5000 woken ≡ some current)
    × FirstSettled env key (hash_of_length 2) 5000 (some (hash_of_length 2)) woken current
settle-ends_example = settle-ends env key (hash_of_length 2) 5000 woken (inr (inl (omega arith)))
