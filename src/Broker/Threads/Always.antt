-- ===== src/Broker/Threads/Always.antt =====
-- internal/broker: what holds of the broker whatever the interleaving of the goroutines of its
-- connections, and whatever fails.
use peerbus.Prelude.{ℕ, ◌≡◌, Text, true, List, [], ◌++◌, some, In, refl, ◌∷◌}
use peerbus.Store.Schema.{Tables, Message, known}
use peerbus.Store.Invariant.{IsWellformed, no_rows-IsWellformed}
use peerbus.Audit.Chain.{IsChain}
use peerbus.Broker.Auth.{Authenticator, valid}
use peerbus.Broker.Registry.{Binding, find}
use peerbus.Broker.State.{World, Server}
use peerbus.Broker.Server.{Read}
use peerbus.Broker.History.{start, IsChain-kept, IsWellformed-kept}
use peerbus.Broker.Keeps.{IsKept}
use peerbus.Broker.Threads.{System, exec, advance, done}
use peerbus.Broker.Threads.Handlers.{serve_http}
use peerbus.Broker.Threads.Soundness.{IsSound, exec-Advances, IsSound-ends}
use peerbus.Broker.Threads.Contract.{WasSent, Ended, Inv, Grows, contract}
use peerbus.Broker.Threads.Life.{serve_http-Keeps}

-- A broker on a new database, where the `i`-th connection will send `first i`, then `rest i`.
abbrev pub opening : World → Authenticator → (ℕ → Read) → (ℕ → List Read) → System
opening w a first rest = record {
  server = start a;
  threads = λ i. serve_http w i (first i) (rest i);
}

pub exec-append : (is js : List ℕ) (y : System) → exec (is ++ js) y ≡ exec js (exec is y)
unfolding exec
exec-append [] js y = refl
exec-append (i ∷ is) js y = exec-append is js (advance i y)

module _ (w : World) (a : Authenticator) (first : ℕ → Read) (rest : ℕ → List Read) where
  abbrev after : List ℕ → Server
  after is = (exec is (opening w a first rest)).server

  unbound : {A : Type 0} (n : Text) (b : Binding) → find n [] ≡ some b → A
  unfolding find
  unbound n b f = absurd (cc f)

  opening-IsSound :
      (T : Tables → Type 0)
      → IsKept w T
      → T (start a).store.tables
      → IsSound (contract T) (opening w a first rest)
  opening-IsSound T k t =
      let inv : Inv T (start a) = record {
        tables = t;
        bound = λ n b f. unbound n b f;
        sent = λ m h d. absurd h;
      } in
      record {
        inv = inv;
        good = λ i. serve_http-Keeps w T k i (first i) (rest i) (start a) (λ n b f. unbound n b f);
      }

  exec-IsSound :
      (T : Tables → Type 0)
      → IsKept w T
      → T (start a).store.tables
      → (is : List ℕ) → IsSound (contract T) (exec is (opening w a first rest))
  exec-IsSound T k t is =
      (exec-Advances (contract T) is (opening w a first rest) (opening-IsSound T k t)).0

  well : (is : List ℕ) → IsSound (contract IsWellformed) (exec is (opening w a first rest))
  well = exec-IsSound IsWellformed (IsWellformed-kept w) no_rows-IsWellformed

  -- Whatever the schedule of the steps of all connections of a new broker, and whatever fails: the
  -- audit log is a hash chain from genesis.
  pub exec-IsChain : (is : List ℕ) → IsChain w.blake3 (after is).store.tables
  exec-IsChain is = (exec-IsSound (IsChain w.blake3) (IsChain-kept w) tt is).inv.tables

  -- Whatever the schedule of the steps of all connections of a new broker, and whatever fails: the
  -- tables are well formed, that is, ids are unique, messages are to registered peers, and each
  -- sender's numbers rise and lie below its counter.
  pub exec-IsWellformed : (is : List ℕ) → IsWellformed (after is).store.tables
  exec-IsWellformed is = (well is).inv.tables

  -- Whatever the schedule of the steps of all connections of a new broker, and whatever fails: a
  -- row that is marked as delivered was written, under its key, to some connection.
  pub delivered-WasSent :
      (is : List ℕ) (m : Message)
      → In m (after is).store.tables.messages
      → m.delivered ≡ true
      → WasSent m.id (after is)
  delivered-WasSent is m h d = (well is).inv.sent m h d

  -- Whatever the schedule of the steps of all connections of a new broker, and whatever fails: a
  -- name that can be routed to is known to the store, so that a message to it can be kept, and it
  -- is bound under a valid token.
  pub bound-known :
      (is : List ℕ) (n : Text) (b : Binding)
      → find n (after is).registry ≡ some b
      → (known n (after is).store.tables.peers ≡ true) × (valid a b.token ≡ true)
  bound-known is n b f =
      let opened = opening-IsSound IsWellformed (IsWellformed-kept w) no_rows-IsWellformed in
      let grown = (exec-Advances (contract IsWellformed) is (opening w a first rest) opened).1 in
      let (known_, valid_) = (well is).inv.bound n b f in (known_, rw⁻¹ grown.auth valid_)

  -- Whatever the schedule of the steps of all connections of a new broker, and whatever fails: what
  -- the broker does from some moment on loses no row and changes none but in its flags and its
  -- attempts, takes back no ack, forgets no peer, unsends no frame and reopens no connection.
  pub exec-Grows : (is js : List ℕ) → Grows (after is) (after (is ++ js))
  exec-Grows is js =
      rw (after, exec-append is js (opening w a first rest))
        (exec-Advances (contract IsWellformed) js (exec is (opening w a first rest)) (well is)).1

  -- Whatever the schedule of the steps of all connections of a new broker, and whatever fails: once
  -- the serving of a connection has returned, the connection is closed, and no name is bound to it.
  pub returned-Ended :
      (is : List ℕ) (i : ℕ)
      → (exec is (opening w a first rest)).threads i ≡ done
      → Ended i (after is)
  returned-Ended is i e = IsSound-ends (contract IsWellformed) _ i (well is) e
