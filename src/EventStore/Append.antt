-- ===== src/EventStore/Append.antt =====
-- Appending under optimistic concurrency: at the expected version the history grows by what the
-- append returns, at any other nothing happens.
use mathlib.Core.Path.{subst}
use text.Mathlib.TextLemmas.{append_cancel_left}
use wallex_sanbox.Prelude.{
  ℕ, suc, ◌+◌, ◌-◌, ◌≡◌, refl, ap, ◌∙◌, sym, ◌≢◌, String, true, false, List, [], ◌∷◌, ◌++◌, map,
  length, length-append, arith, All, get_or,
}
use wallex_sanbox.Prelude.Int.{ℤ, pos, negsuc, ◌+ℤ◌, ◌-ℤ◌, int_laws, ◌≤ℤ◌, eq_of_parts, -ℤ_parts}
use wallex_sanbox.Exec.{ok, err, event_concurrency}
use wallex_sanbox.Domain.{WalletDomainEvent, StoredWalletEvent}
use wallex_sanbox.Aggregate.Replay.{Stamped}
use wallex_sanbox.EventStore.Client.{
  KurrentClient, KurrentLaws, RecordedEvent, EventPayload, RecordedAs, meets, actual_state,
}
use wallex_sanbox.EventStore.{
  stream_name, to_stored, serialize_event, stream_state, committed_events, append_to_stream,
}
use wallex_sanbox.EventStore.Read.{RecordsOf, IsStream}

-- What is recorded of the serialized events reads back as the committed events.
committed-RecordsOf :
    (now id : String) (n : ℕ) (v : ℤ) (es : List WalletDomainEvent) (rs : List RecordedEvent)
    → v ≡ pos n
    → RecordedAs n (map (serialize_event now) es) rs
    → RecordsOf id n rs (committed_events now id v es)
unfolding committed_events serialize_event to_stored
committed-RecordsOf now id n v [] [] e h = tt
committed-RecordsOf now id n v (x ∷ es) (r ∷ rs) e h = (
  h.2,
  h.0,
  ground arith,
  committed-RecordsOf now id (suc n) (v +ℤ pos 1) es rs (rw e (omega int_laws)) h.3,
)
committed-RecordsOf now id n v [] (r ∷ rs) e h = absurd h
committed-RecordsOf now id n v (x ∷ es) [] e h = absurd h

RecordsOf-append :
    (id : String) (n : ℕ) (rs qs : List RecordedEvent) (hs ks : List StoredWalletEvent)
    → RecordsOf id n rs hs
    → RecordsOf id (n + length rs) qs ks
    → RecordsOf id n (rs ++ qs) (hs ++ ks)
RecordsOf-append id n [] qs [] ks h k = subst (λ m. RecordsOf id m qs ks) (omega arith) k
RecordsOf-append id n (r ∷ rs) qs (x ∷ hs) ks h k = (
  h.0,
  h.1,
  h.2,
  RecordsOf-append id (suc n) rs qs hs ks h.3 (subst (λ m. RecordsOf id m qs ks) (omega arith) k),
)
RecordsOf-append id n [] qs (x ∷ hs) ks h k = absurd h
RecordsOf-append id n (r ∷ rs) qs [] ks h k = absurd h

pub length-RecordsOf :
    (id : String) (n : ℕ) (rs : List RecordedEvent) (hs : List StoredWalletEvent)
    → RecordsOf id n rs hs
    → length rs ≡ length hs
length-RecordsOf id n [] [] h = refl
length-RecordsOf id n (r ∷ rs) (x ∷ hs) h = ap suc (length-RecordsOf id (suc n) rs hs h.3)
length-RecordsOf id n [] (x ∷ hs) h = absurd h
length-RecordsOf id n (r ∷ rs) [] h = absurd h

length-RecordedAs :
    (n : ℕ) (ps : List EventPayload) (rs : List RecordedEvent)
    → RecordedAs n ps rs
    → length rs ≡ length ps
length-RecordedAs n [] [] h = refl
length-RecordedAs n (p ∷ ps) (r ∷ rs) h = ap suc (length-RecordedAs (suc n) ps rs h.3)
length-RecordedAs n [] (r ∷ rs) h = absurd h
length-RecordedAs n (p ∷ ps) [] h = absurd h

length-serialize :
    (now : String) (es : List WalletDomainEvent) → length (map (serialize_event now) es) ≡ length es
length-serialize now [] = refl
length-serialize now (e ∷ es) = ap suc (length-serialize now es)

-- The committed events are the given ones, at consecutive versions.
pub Stamped-committed :
    (now id : String) (v : ℤ) (es : List WalletDomainEvent)
    → All (λ e. e.aggregate_id ≡ id) es
    → Stamped v es (committed_events now id v es)
unfolding committed_events
Stamped-committed now id v [] h = tt
Stamped-committed now id v (e ∷ es) h =
    (ground arith, refl, Stamped-committed now id (v +ℤ pos 1) es h.1)

-- An expected version meets a stream exactly when it numbers its last event; -1 is an empty stream.
meets_iff : (v : ℤ) (n : ℕ) → v +ℤ pos 1 ≡ pos n → meets n (stream_state v) ≡ true
unfolding ◌+ℤ◌
meets_iff v n h = ground arith

misses_iff : (v : ℤ) (n : ℕ) → negsuc 0 ≤ℤ v → v +ℤ pos 1 ≢ pos n → meets n (stream_state v) ≡ false
unfolding ◌+ℤ◌
misses_iff v n l h = ground arith

first_revision :
    (v : ℤ) (n m k l : ℕ)
    → v +ℤ pos 1 ≡ pos n
    → m ≡ n
    → k ≡ l
    → pos (m + k) -ℤ pos (suc l - 1) ≡ v +ℤ pos 1
first_revision v n m k l h p q =
    rw (h, p, q) (eq_of_parts _ _ (omega (arith, -ℤ_parts (pos (n + l)) (pos (suc l - 1)))))

module _ {client : KurrentClient} (laws : KurrentLaws client) where
  count_is_length :
      (db : client.Db) (id : String) (history : List StoredWalletEvent)
      → IsStream laws db id history
      → laws.count db (stream_name id) ≡ length history
  count_is_length db id history s =
      s.whole ∙ length-RecordsOf id 0 (laws.contents db (stream_name id)) history s.records

  -- An append to a stream at the version of the last event of its history returns the events with
  -- the next versions, and the history has grown by exactly those.
  pub append_commits :
      (now id : String) (e : WalletDomainEvent) (es : List WalletDomainEvent) (v : ℤ)
      (db : client.Db) (history : List StoredWalletEvent)
      → IsStream laws db id history
      → v +ℤ pos 1 ≡ pos (length history)
      → let stored = committed_events now id (v +ℤ pos 1) (e ∷ es) in
        ((append_to_stream client now id (e ∷ es) v db).0 ≡ ok stored)
        × IsStream laws (append_to_stream client now id (e ∷ es) v db).1 id (history ++ stored)
  unfolding append_to_stream
  append_commits now id e es v db history s h =
      let name = stream_name id in
      let counted = count_is_length db id history s in
      let p = serialize_event now e in
      let ps = map (serialize_event now) es in
      let (r, total, grown) =
        laws.append_meets name p ps (stream_state v) db
          (meets_iff v (laws.count db name) (h ∙ ap pos (sym counted))) in
      let (new, contents, recorded) = grown in
      (
        rw r (
            ap (λ f. ok (committed_events now id f (e ∷ es)))
              (first_revision v (length history) (laws.count db name) (length ps) (length es) h
                counted (length-serialize now es))),
        record {
          records = rw contents (
              RecordsOf-append id 0 (laws.contents db name) new history
                (committed_events now id (v +ℤ pos 1) (e ∷ es)) s.records
                (committed-RecordsOf now id (0 + length (laws.contents db name)) (v +ℤ pos 1)
                  (e ∷ es) new (h ∙ ap pos (sym counted ∙ s.whole ∙ omega arith))
                  (subst (λ n. RecordedAs n (p ∷ ps) new) (s.whole ∙ omega arith) recorded)));
          whole = rw contents (
              total
              ∙ omega (
                arith,
                s.whole,
                length-append (laws.contents db name) new,
                length-RecordedAs (laws.count db name) (p ∷ ps) new recorded,
              ));
        },
      )

  -- An append at any other version from -1 on is a concurrency error with the actual version, and
  -- nothing is written.
  pub append_conflict :
      (now id : String) (e : WalletDomainEvent) (es : List WalletDomainEvent) (v : ℤ)
      (db : client.Db) (history : List StoredWalletEvent)
      → IsStream laws db id history
      → negsuc 0 ≤ℤ v
      → v +ℤ pos 1 ≢ pos (length history)
      → append_to_stream client now id (e ∷ es) v db
        ≡ (err (event_concurrency v (get_or (actual_state (length history)) (negsuc 0))), db)
  unfolding append_to_stream
  append_conflict now id e es v db history s l h =
      let counted = count_is_length db id history s in
      rw
        (laws.append_refused (stream_name id) (map (serialize_event now) (e ∷ es)) (stream_state v)
          db (misses_iff v (laws.count db (stream_name id)) l (λ p. h (p ∙ ap pos counted))))
        (rw counted)

pub stream_name_injective : (i j : String) → stream_name i ≡ stream_name j → i ≡ j
unfolding stream_name
stream_name_injective i j h = append_cancel_left "wallet-" i j h

module _ {client : KurrentClient} (laws : KurrentLaws client) where
  -- A change of the database that leaves a wallet's stream alone leaves its history alone.
  pub untouched-IsStream :
      (db db' : client.Db) (id : String) (history : List StoredWalletEvent)
      → laws.contents db' (stream_name id) ≡ laws.contents db (stream_name id)
      → laws.count db' (stream_name id) ≡ laws.count db (stream_name id)
      → IsStream laws db id history
      → IsStream laws db' id history
  untouched-IsStream db db' id history p q s = record {
    records = rw p s.records;
    whole = rw (p, q) s.whole;
  }

  -- Appending to one wallet leaves the history of every other as it was.
  pub append_apart :
      (now id other : String) (es : List WalletDomainEvent) (v : ℤ) (db : client.Db)
      (history : List StoredWalletEvent)
      → id ≢ other
      → IsStream laws db other history
      → IsStream laws (append_to_stream client now id es v db).1 other history
  unfolding append_to_stream
  append_apart now id other [] v db history ne s = s
  append_apart now id other (e ∷ es) v db history ne s =
      let (p, q) =
        laws.append_apart (stream_name id) (stream_name other) (map (serialize_event now) (e ∷ es))
          (stream_state v) db (λ h. ne (stream_name_injective id other h)) in
      untouched-IsStream db (append_to_stream client now id (e ∷ es) v db).1 other history p q s
