-- ===== src/EventStore/Read.antt =====
-- Reading: a wallet's stream holds its history, and the reads return it, whole or from a version.
use wallex_sanbox.Prelude.{
  ℕ, suc, ◌+◌, ◌≤◌, ◌≡◌, refl, String, true, false, List, [], ◌∷◌, ◌++◌, length, leb, arith,
}
use wallex_sanbox.Exec.{Result, ok}
use wallex_sanbox.Domain.{StoredWalletEvent}
use wallex_sanbox.EventStore.Client.{
  KurrentClient, KurrentLaws, RecordedEvent, wallet_data, from_revision, resolve, found,
}
use wallex_sanbox.EventStore.{
  stream_name, to_stored, stored_events, events_or_throw, read_stream, read_stream_from_version,
}

-- Recorded events, at revisions from `n` on, that read back as the given history.
abbrev pub RecordsOf : String → ℕ → List RecordedEvent → List StoredWalletEvent → Type 0
RecordsOf id n [] [] = Unit
RecordsOf id n (r ∷ rs) (h ∷ hs) =
    (r.revision ≡ n)
    × (r.body ≡ wallet_data h.body)
    × (to_stored id r h.body ≡ h)
    × RecordsOf id (suc n) rs hs
RecordsOf id n rs hs = ⊥

pub stored_events-RecordsOf :
    (id : String) (n : ℕ) (rs : List RecordedEvent) (hs : List StoredWalletEvent)
    → RecordsOf id n rs hs
    → stored_events id (resolve rs) ≡ hs
unfolding stored_events
stored_events-RecordsOf id n [] [] h = refl
stored_events-RecordsOf id n (r ∷ rs) (x ∷ hs) h =
    let ih = stored_events-RecordsOf id (suc n) rs hs h.3 in rw (h.1, ih, h.2)
stored_events-RecordsOf id n [] (x ∷ hs) h = absurd h
stored_events-RecordsOf id n (r ∷ rs) [] h = absurd h

from_revision_all :
    (id : String) (k n : ℕ) (rs : List RecordedEvent) (hs : List StoredWalletEvent)
    → k ≤ n
    → RecordsOf id n rs hs
    → from_revision k rs ≡ rs
from_revision_all id k n [] hs le h = refl
from_revision_all id k n (r ∷ rs) [] le h = absurd h
from_revision_all id k n (r ∷ rs) (x ∷ hs) le h =
    let kept : leb k r.revision ≡ true = rw h.0 (ground arith) in
    rw (kept, from_revision_all id k (suc n) rs hs (omega arith) h.3)

-- From the revision where the second part begins, only that part is left.
from_revision_split :
    (id : String) (n m : ℕ) (rs : List RecordedEvent) (xs ys : List StoredWalletEvent)
    → m ≡ n + length xs
    → RecordsOf id n rs (xs ++ ys)
    → stored_events id (resolve (from_revision m rs)) ≡ ys
from_revision_split id n m rs [] ys e h =
    rw (from_revision_all id m n rs ys (omega arith) h) (stored_events-RecordsOf id n rs ys h)
from_revision_split id n m [] (x ∷ xs) ys e h = absurd h
from_revision_split id n m (r ∷ rs) (x ∷ xs) ys e h =
    let dropped : leb m r.revision ≡ false = rw h.0 (ground arith) in
    rw dropped (from_revision_split id (suc n) m rs xs ys (omega arith) h.3)

module _ {client : KurrentClient} (laws : KurrentLaws client) where
  -- The stream of a wallet holds this history, and has had no other event.
  pub record IsStream (db : client.Db) (id : String) (history : List StoredWalletEvent)
      : Type 0 where
    pub records : RecordsOf id 0 (laws.contents db (stream_name id)) history
    pub whole : laws.count db (stream_name id) ≡ length (laws.contents db (stream_name id))

  -- A read that the law describes, from a revision on.
  read_outcome :
      (id : String) (n : ℕ) (db : client.Db) (history : List StoredWalletEvent)
      → stored_events id (resolve (from_revision n (laws.contents db (stream_name id)))) ≡ history
      → read_stream_from_version client id n db ≡ (ok history, db)
  unfolding read_stream_from_version stored_events
  read_outcome id n db history h = rw laws.read_law (outcome (laws.contents db (stream_name id)) h)
    where
      outcome :
          (rs : List RecordedEvent)
          → stored_events id (resolve (from_revision n rs)) ≡ history
          → ◌≡◌ {A = Result (List StoredWalletEvent) × client.Db}
              (events_or_throw id (found rs (resolve (from_revision n rs))), db)
              (ok history, db)
      outcome [] h = cc
      outcome (r ∷ rs) h = rw h

  -- Reading a wallet's stream from the version where the second part of its history begins returns
  -- that part.
  pub read_from_version :
      (id : String) (n : ℕ) (db : client.Db) (before later : List StoredWalletEvent)
      → IsStream db id (before ++ later)
      → n ≡ length before
      → read_stream_from_version client id n db ≡ (ok later, db)
  read_from_version id n db before later s e = read_outcome id n db later (
      from_revision_split id 0 n (laws.contents db (stream_name id)) before later (omega arith)
        s.records)

  pub read_stream_lem :
      (id : String) (db : client.Db) (history : List StoredWalletEvent)
      → IsStream db id history
      → read_stream client id db ≡ (ok history, db)
  unfolding read_stream
  read_stream_lem id db history s = read_from_version id 0 db [] history s refl
