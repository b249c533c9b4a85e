-- ===== src/Projections/Batch.antt =====
-- What the worker does with a batch: which messages reach the projection, and which are lost.
use wallex_sanbox.Prelude.{
  ℕ, ◌≤◌, ◌≡◌, refl, ap, ◌∙◌, String, Bool, true, false, Option, some, List, [], ◌∷◌, leb, ◌||◌,
  arith,
}
use wallex_sanbox.Exec.{Error, ok, err, Exec}
use wallex_sanbox.Outbox.{OutboxEvent, ids_of, mark_batch_processed}
use wallex_sanbox.Projections.{
  Projector, ProjectorCheckpoint, is_already_processed, checkpoint_of, process_messages,
  process_batch,
}

or_true : (b : Bool) → (b || true) ≡ true
or_true true = refl
or_true false = refl

-- A checkpoint hides every message with an identifier up to its own.
hidden : (m n : OutboxEvent) → m.id ≤ n.id → is_already_processed (some (checkpoint_of n)) m ≡ true
unfolding is_already_processed
hidden m n h = let up_to : leb m.id n.id ≡ true = ground arith in rw up_to (or_true _)

module _ {S : Type 0} (apply : OutboxEvent → Exec S (Unit {0})) where
  -- What applying the messages one after the other, each with success, writes.
  abbrev pub Applies : List OutboxEvent → S → S → Type 0
  Applies [] s s' = s ≡ s'
  Applies (m ∷ ms) s s' = ((apply m s).0 ≡ ok tt) × Applies ms (apply m s).1 s'

  -- No message is hidden by the checkpoint of the one before.
  abbrev pub AreFresh : Option ProjectorCheckpoint → List OutboxEvent → Type 0
  AreFresh c [] = Unit
  AreFresh c (m ∷ ms) = (is_already_processed c m ≡ false) × AreFresh (some (checkpoint_of m)) ms

  abbrev pub last_checkpoint :
      Option ProjectorCheckpoint → List OutboxEvent → Option ProjectorCheckpoint
  last_checkpoint c [] = c
  last_checkpoint c (m ∷ ms) = last_checkpoint (some (checkpoint_of m)) ms

  messages_applied :
      (ms : List OutboxEvent) (p : Projector S) (s' : S)
      → AreFresh p.checkpoint ms
      → Applies ms p.written s'
      → process_messages apply ms p
        ≡ (ids_of ms, record p { written = s'; checkpoint = last_checkpoint p.checkpoint ms })
  unfolding process_messages
  messages_applied [] p s' f a = ap (λ x. ([], record p { written = x })) a
  messages_applied (m ∷ ms) p s' f a =
      let ih =
        messages_applied ms
          (record p { written = (apply m p.written).1; checkpoint = some (checkpoint_of m) }) s' f.1
          a.1 in
      rw (f.0, a.0) (ap (λ r. (m.id ∷ r.0, r.1)) ih)

  -- A batch whose messages are all new to the checkpoint, and of which each is applied with success, is
  -- applied in its order and marked as processed, and the checkpoint is that of its last message.
  pub batch_applied :
      (now : ℕ) (name : String) (batch : List OutboxEvent) (p : Projector S) (s' : S)
      → AreFresh p.checkpoint batch
      → Applies batch p.written s'
      → process_batch apply now name batch p ≡ record p {
        written = s';
        checkpoint = last_checkpoint p.checkpoint batch;
        outbox = mark_batch_processed now (ids_of batch) name p.outbox;
      }
  unfolding process_batch
  batch_applied now name batch p s' f a = rw (messages_applied batch p s' f a) refl

  failed_then_applied :
      (now : ℕ) (name : String) (m n : OutboxEvent) (p : Projector S) (e : Error)
      → is_already_processed p.checkpoint m ≡ false
      → is_already_processed p.checkpoint n ≡ false
      → (apply m p.written).0 ≡ err e
      → (apply n (apply m p.written).1).0 ≡ ok tt
      → process_batch apply now name (m ∷ n ∷ []) p ≡ record {
        written = (apply n (apply m p.written).1).1;
        checkpoint = some (checkpoint_of n);
        outbox = mark_batch_processed now (n.id ∷ []) name p.outbox;
      }
  unfolding process_batch process_messages
  failed_then_applied now name m n p e fresh_m fresh_n failed applied =
      rw (fresh_m, failed) (rw (fresh_n, applied) refl)

  hidden_message :
      (now : ℕ) (name : String) (m : OutboxEvent) (q : Projector S) (c : ProjectorCheckpoint)
      → q.checkpoint ≡ some c
      → is_already_processed (some c) m ≡ true
      → process_batch apply now name (m ∷ []) q
        ≡ record q { outbox = mark_batch_processed now (m.id ∷ []) name q.outbox }
  unfolding process_batch process_messages
  hidden_message now name m q c h hid =
      let known : is_already_processed q.checkpoint m ≡ true =
        ap (λ x. is_already_processed x m) h ∙ hid in
      rw known refl

  -- Take two messages of a batch that are new to the checkpoint, of which the first fails and the
  -- second, with an identifier at least as high, is applied. Then only the second is marked, and
  -- when the first is claimed again it is marked as processed while the projection does not see it.
  pub failed_message_lost :
      (now later : ℕ) (name : String) (m n : OutboxEvent) (p : Projector S) (e : Error)
      → m.id ≤ n.id
      → is_already_processed p.checkpoint m ≡ false
      → is_already_processed p.checkpoint n ≡ false
      → (apply m p.written).0 ≡ err e
      → (apply n (apply m p.written).1).0 ≡ ok tt
      → let first = process_batch apply now name (m ∷ n ∷ []) p in
        (first.outbox ≡ mark_batch_processed now (n.id ∷ []) name p.outbox)
        × (process_batch apply later name (m ∷ []) first
            ≡ record first { outbox = mark_batch_processed later (m.id ∷ []) name first.outbox })
  failed_message_lost now later name m n p e le fresh_m fresh_n failed applied =
      let first = failed_then_applied now name m n p e fresh_m fresh_n failed applied in
      (
        ap (λ q. q.outbox) first,
        hidden_message later name m (process_batch apply now name (m ∷ n ∷ []) p) (checkpoint_of n)
            (ap (λ q. q.checkpoint) first) (hidden m n le),
      )
