-- ===== src/Broker/Threads/Moves.antt =====
-- internal/broker: the atomic steps that leave the registry alone keep to the contract.
use peerbus.Prelude.{
  ℕ, ◌≡◌, inl, inr, Text, Bool, true, false, [], ◌∷◌, arith, refl, In, In-append, if◌then◌else◌,
}
use peerbus.Wire.Json.{Json}
use peerbus.Store.Schema.{Tables, Message}
use peerbus.Store.Handle.{Store}
use peerbus.Store.Changes.{Changes}
use peerbus.Store.Durable.{Changes-Carries, Carries-refl}
use peerbus.Store.Delivered.{FromDelivered}
use peerbus.Audit.{append}
use peerbus.Audit.Chain.{append-queue}
use peerbus.Broker.State.{
  World, Server, Reason, write_json, audit_event, close_normal, close_taken_over, set_conn,
  event_text,
}
use peerbus.Broker.Keeps.{IsKept, changes}
use peerbus.Broker.Threads.Contract.{WasSent, Inv, Grows, Grows-refl, Changes-known}

-- A step from `s` to `t` that keeps the invariant and leaves the registry alone.
pub record Moves (T : Tables → Type 0) (s t : Server) : Type 0 where
  pub inv : Inv T t
  pub grows : Grows s t
  pub registry : t.registry ≡ s.registry

module _ (w : World) (T : Tables → Type 0) (k : IsKept w T) (s : Server) (p : Inv T s) where
  pub here-Moves : Moves T s s
  here-Moves = record { inv = p; grows = Grows-refl s; registry = refl }

  -- A call of the store; a row that it marks as delivered was sent.
  pub store-Moves :
      (new : Message → Type 0) (st : Store)
      → Changes s.store.tables st.tables
      → FromDelivered new s.store.tables.messages st.tables.messages
      → ((m : Message) → new m → WasSent m.id s)
      → Moves T s (record s { store = st })
  store-Moves new st c from sent = record {
    inv = record {
      tables = changes w T k c p.tables;
      bound = λ n b h. (Changes-known n c (p.bound n b h).0, (p.bound n b h).1);
      sent = λ m h d. elim (from m h d) [
        | inl n ↦ sent m n
        | inr (x, i, e, q) ↦ rw (← q) (p.sent x i e)
      ];
    };
    grows = record {
      auth = refl;
      rows = Changes-Carries c;
      names = λ n h. Changes-known n c h;
      sent = λ c j h. h;
      closed = λ c h. h;
    };
    registry = refl;
  }

  -- A step that changes connections alone.
  conns-Moves :
      (t : Server)
      → t.store ≡ s.store
      → t.registry ≡ s.registry
      → t.auth ≡ s.auth
      → ((c : ℕ) (j : Json) → In j (s.conns c).sent → In j (t.conns c).sent)
      → ((c : ℕ) → (s.conns c).closed ≡ true → (t.conns c).closed ≡ true)
      → Moves T s t
  conns-Moves t st r a sent closed = record {
    inv = record {
      tables = rw st p.tables;
      bound = λ n b h. rw (st, a) (p.bound n b (rw r at h));
      sent = λ m h d. let (c, env, i) = p.sent m (rw st at h) d in (c, env, sent c _ i);
    };
    grows = record {
      auth = a;
      rows = rw st (Carries-refl s.store.tables.messages);
      names = λ n h. rw st h;
      sent = sent;
      closed = closed;
    };
    registry = r;
  }

  pub audit-Moves : (kind id from to : Text) → Moves T s (audit_event w kind id from to s)
  unfolding audit_event
  audit-Moves kind id from to =
      let event = event_text w kind id from to in
      let st : Store = (append w.blake3 w.driver event s.store).1 in
      let h =
        logged st (append-queue w.blake3 w.driver event s.store) (k.log event s.store p.tables) in
      audited s.audited h
    where
      audited :
          (b : Bool) {st : Store}
          → Moves T s (record s { store = st })
          → Moves T s (if b then record s { store = st } else s)
      audited true h = h
      audited false h = here-Moves

      logged :
          (st : Store)
          → st.tables ≡ record s.store.tables { audit = st.tables.audit }
          → T st.tables
          → Moves T s (record s { store = st })
      logged st e h = record {
        inv = record {
          tables = h;
          bound = λ n b i. rw e (p.bound n b i);
          sent = λ m i d. p.sent m (rw e at i) d;
        };
        grows = record {
          auth = refl;
          rows = rw e (Carries-refl s.store.tables.messages);
          names = λ n i. rw e i;
          sent = λ c j i. i;
          closed = λ c i. i;
        };
        registry = refl;
      }

  pub write-Moves : (c : ℕ) (j : Json) → Moves T s (write_json w c j s).1
  unfolding write_json
  write-Moves c j =
      conns-Moves _ (ground arith) (ground arith) (ground arith)
        (λ d x h. ground (arith, h, In-append x (s.conns d).sent (j ∷ []) (inl h)))
        (λ d h. ground arith)

  pub close_normal-Moves : (c : ℕ) (why : Reason) → Moves T s (close_normal c why s)
  unfolding close_normal
  close_normal-Moves c why =
      conns-Moves _ (ground arith) (ground arith) (ground arith) (λ d x h. ground arith)
        (λ d h. ground arith)

  pub close_taken_over-Moves : (c : ℕ) → Moves T s (close_taken_over c s)
  unfolding close_taken_over
  close_taken_over-Moves c =
      conns-Moves _ (ground arith) (ground arith) (ground arith) (λ d x h. ground arith)
        (λ d h. ground arith)

  pub name-Moves : (c : ℕ) (n : Text) → Moves T s (set_conn c (record (s.conns c) { name = n }) s)
  name-Moves c n =
      conns-Moves _ (ground arith) (ground arith) (ground arith) (λ d x h. ground arith)
        (λ d h. ground arith)
