-- ===== src/Broker/Provenance/Broadcast.antt =====
-- internal/broker/router.go: the rows of a broadcast.
use peerbus.Prelude.{◌≡◌, ◌≢◌, Text, same, false, List, arith, refl, ◌∙◌, sym, ap, In}
use peerbus.Wire.Envelope.{Envelope, encode}
use peerbus.Store.Schema.{Message}
use peerbus.Broker.Registry.{names}
use peerbus.Broker.State.{World, Server}
use peerbus.Broker.Router.{row_id, route_broadcast}
use peerbus.Broker.Provenance.{IsStable, Adds, Adds-refl, fan_out-Grown}

-- A copy of a broadcast: under the sender's name, to another of the recipients, with the envelope of
-- the sender, under the id of its own.
pub record IsCopy (from : Text) (env : Envelope) (rs : List Text) (y : Message) : Type 0 where
  pub from_ : y.from ≡ from
  pub to : In y.to rs
  pub other : y.to ≢ from
  pub envelope : y.envelope ≡ encode env
  pub id : y.id ≡ row_id env.id y.to

IsCopy-stable : (from : Text) (env : Envelope) (rs : List Text) → IsStable (IsCopy from env rs)
IsCopy-stable from env rs x y v c = record {
  from_ = v.from ∙ c.from_;
  to = rw v.to c.to;
  other = λ e. c.other (sym v.to ∙ e);
  envelope = v.envelope ∙ c.envelope;
  id = v.id ∙ c.id ∙ ap (row_id env.id) (sym v.to);
}

-- Whatever fails, a broadcast adds no row but copies to peers that are registered now and are not
-- the sender, each under the sender's name, with the sender's envelope as it was, and with an id of
-- its own; every other row is a later state of one that was there.
pub route_broadcast_copies :
    (w : World) (from : Text) (env : Envelope) (s : Server)
    → Adds
        (IsCopy from env (names s.registry))
        s.store.tables.messages
        (route_broadcast w from env s).store.tables.messages
unfolding route_broadcast
route_broadcast_copies w from env s =
    fan_out-Grown w (IsCopy from env (names s.registry)) (IsCopy-stable from env (names s.registry))
      s.store.tables.messages from env (names s.registry) s
      (λ r i other seq ts. record {
        from_ = refl;
        to = i;
        other = differs r other;
        envelope = refl;
        id = refl;
      })
      (Adds-refl _ s.store.tables.messages)
  where
    differs : (r : Text) → same r from ≡ false → r ≢ from
    differs r e p = ground arith
