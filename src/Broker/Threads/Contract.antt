-- ===== src/Broker/Threads/Contract.antt =====
-- internal/broker: the contract of the goroutines of the connections, for a property of the tables
-- that the calls of the store keep.
use peerbus.Prelude.{ℕ, ◌≡◌, ◌≢◌, Text, true, some, arith, refl, ◌∙◌, In}
use peerbus.Wire.Json.{Json}
use peerbus.Wire.Envelope.{Envelope}
use peerbus.Store.Schema.{Tables, Message, known}
use peerbus.Store.Changes.{Change, Changes, here, next, registers, stores, delivers, acks, requeues}
use peerbus.Store.Invariant.{known-upsert_peer}
use peerbus.Store.Durable.{Carries, Carries-refl, Carries-trans}
use peerbus.Broker.Auth.{valid}
use peerbus.Broker.Registry.{Binding, find}
use peerbus.Broker.State.{Server}
use peerbus.Broker.Router.{deliver_frame}
use peerbus.Broker.Threads.Soundness.{Contract}

-- A delivery of the row was written to some connection.
abbrev pub WasSent : Text → Server → Type 0
WasSent i s = (c : ℕ) × (env : Envelope) × In (deliver_frame i env) (s.conns c).sent

-- What holds between any two steps, `T` being the property of the tables.
pub record Inv (T : Tables → Type 0) (s : Server) : Type 0 where
  pub tables : T s.store.tables
  pub bound :
      (n : Text) (b : Binding)
      → find n s.registry ≡ some b
      → (known n s.store.tables.peers ≡ true) × (valid s.auth b.token ≡ true)
  pub sent : (m : Message) → In m s.store.tables.messages → m.delivered ≡ true → WasSent m.id s

-- What no step takes back.
pub record Grows (s t : Server) : Type 0 where
  pub auth : t.auth ≡ s.auth
  pub rows : Carries s.store.tables.messages t.store.tables.messages
  pub names : (n : Text) → known n s.store.tables.peers ≡ true → known n t.store.tables.peers ≡ true
  pub sent : (c : ℕ) (j : Json) → In j (s.conns c).sent → In j (t.conns c).sent
  pub closed : (c : ℕ) → (s.conns c).closed ≡ true → (t.conns c).closed ≡ true

-- Only the goroutine of connection `i` binds a name to it.
abbrev pub Own : ℕ → Server → Server → Type 0
Own i s t =
    (n : Text) (b : Binding) → find n t.registry ≡ some b → b.conn ≡ i → find n s.registry ≡ some b

abbrev pub Unbound : ℕ → Server → Type 0
Unbound i s = (n : Text) (b : Binding) → find n s.registry ≡ some b → b.conn ≢ i

-- No other name than `name` is bound to the connection.
abbrev pub OnlyAs : ℕ → Text → Server → Type 0
OnlyAs i name s = (n : Text) (b : Binding) → find n s.registry ≡ some b → b.conn ≡ i → n ≡ name

-- A connection that has been served is closed, and no name is bound to it.
abbrev pub Ended : ℕ → Server → Type 0
Ended i s = ((s.conns i).closed ≡ true) × Unbound i s

pub Grows-refl : (s : Server) → Grows s s
Grows-refl s = record {
  auth = refl;
  rows = Carries-refl s.store.tables.messages;
  names = λ n h. h;
  sent = λ c j h. h;
  closed = λ c h. h;
}

pub Grows-trans : (s t u : Server) → Grows s t → Grows t u → Grows s u
Grows-trans s t u g h = record {
  auth = h.auth ∙ g.auth;
  rows = Carries-trans _ _ _ g.rows h.rows;
  names = λ n k. h.names n (g.names n k);
  sent = λ c j k. h.sent c j (g.sent c j k);
  closed = λ c k. h.closed c (g.closed c k);
}

abbrev pub contract : (Tables → Type 0) → Contract
contract T = record {
  inv = Inv T;
  grows = Grows;
  own = Own;
  ends = Ended;
  grows_refl = Grows-refl;
  grows_trans = Grows-trans;
  own_refl = λ i s n b h e. h;
  own_trans = λ i s t u o o' n b h e. o n b (o' n b h e) e;
}

Change-known :
    {t u : Tables} (n : Text) → Change t u → known n t.peers ≡ true → known n u.peers ≡ true
Change-known n (registers m now t) h = ground (arith, known-upsert_peer m n now t.peers)
Change-known n (stores m ts t k h') h = h
Change-known n (delivers i t) h = h
Change-known n (acks i t) h = h
Change-known n (requeues m t) h = h

pub Changes-known :
    {t u : Tables} (n : Text) → Changes t u → known n t.peers ≡ true → known n u.peers ≡ true
Changes-known n here h = h
Changes-known n (next cs c) h = Change-known n c (Changes-known n cs h)
