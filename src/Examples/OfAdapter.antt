-- ===== src/Examples/OfAdapter.antt =====
-- internal/adapter at concrete inputs.
use peerbus.Prelude.{
  ltb, ◌≤◌, ◌<◌, ◌≡◌, ◌≢◌, refl, ap, arith, text, Text-discrete, Bool, true, false, is_empty, ◌||◌,
  List, [], ◌∷◌, All, none, some,
}
use peerbus.Wire.Print.{compact}
use peerbus.Wire.Envelope.{received, protocol_version}
use peerbus.Wire.Control.{
  Deliver, control_deliver, control_peers, encode_peers, encode_deliver, decode_deliver-encode,
}
use peerbus.Hmac
use peerbus.Hmac.{verify_envelope}
use peerbus.Broker.Router.{deliver_frame}
use peerbus.Adapter.Dedupe.{Dedupe, contains, seen, new_dedupe}
use peerbus.Adapter.Dedupe.Lru.{IsConsistent, Distinct, seen-IsConsistent, new_dedupe-IsConsistent}
use peerbus.Adapter.Client.{Read, failed, frame, recv}
use peerbus.Adapter.Client.Delivery.{recv_authentic, recv_delivers}
use peerbus.Adapter.Resume.Pump.{pump-total}
use peerbus.Adapter.Resume.{Session, pump, base_backoff}
use peerbus.Adapter.Resume.Once.{fresh_session}
use peerbus.Adapter.Resume.Run.{Attempt, Turn, End, run, redial}
use peerbus.Adapter.Resume.Exactly.{Among, run_once}
use peerbus.Adapter.Resume.Redial.{Result, redial-Result}
use peerbus.Fixtures.{client_world, client, deliver_hello}
use peerbus.Examples.OfWire.{signed, verifies}

-- A cache for two ids that holds one.
one_seen : Dedupe
one_seen = (seen (text "m1") (new_dedupe 2)).1

one_seen-IsConsistent : IsConsistent one_seen
unfolding one_seen
one_seen-IsConsistent = seen-IsConsistent (text "m1") (new_dedupe 2) (new_dedupe-IsConsistent 2)

-- The same message, delivered three times, and refused the first time.
deliveries : List (Deliver × Bool)
deliveries = (deliver_hello, false) ∷ (deliver_hello, true) ∷ (deliver_hello, true) ∷ []

small : 1 ≤ (new_dedupe 2).max
unfolding new_dedupe
small = ground arith

in_play : contains (text "m1") (text "m1" ∷ []) ≡ true
unfolding contains Text-discrete
in_play = refl

arrived : Deliver
arrived = record {
  protocol_version = protocol_version;
  kind = control_deliver;
  delivery_key = text "m1";
  envelope = received signed;
}

key : text "m1" ≢ []
key e = absurd (cc e)

body-valid : is_empty signed.body || client_world.syntax.valid signed.body ≡ true
unfolding signed compact
body-valid = refl

delivered :
    (recv client_world (frame (some (deliver_frame (text "m1") signed)) ∷ []) client).0
    ≡ (some arrived, none)
unfolding arrived
delivered =
    ap (λ r. r.0)
      (recv_delivers client_world (text "m1") signed [] client refl key body-valid verifies)

recv_authentic_example :
    (arrived.delivery_key ≢ [])
    × (verify_envelope client_world.sha256 client_world.syntax client.cfg.hmac_secret
          arrived.envelope
        ≡ Hmac.ok tt)
recv_authentic_example =
    recv_authentic client_world (frame (some (deliver_frame (text "m1") signed)) ∷ []) client
      arrived delivered

enough : 1 < 2
enough = ground arith

pump-total_example :
    (s' : Session) × (pump client_world 2
        (λ n d. true)
        (frame (some (deliver_frame (text "m1") signed)) ∷ [])
        (fresh_session 2 client)
      ≡ some s')
pump-total_example =
    pump-total client_world (λ n d. true) 2 (frame (some (deliver_frame (text "m1") signed)) ∷ [])
      (fresh_session 2 client) enough

sent : Deliver
sent = record {
  protocol_version = protocol_version;
  kind = control_deliver;
  delivery_key = text "m1";
  envelope = signed;
}

peers_frame : Read
peers_frame = frame (
    some (
      encode_peers
        (record { protocol_version = protocol_version; kind = control_peers; names = [] })))

failing : Attempt
failing = record {
  dialled = false;
  reply = failed;
  draw = 7;
  cancelled = false;
  interrupted = false;
}

working : Attempt
working = record {
  dialled = true;
  reply = peers_frame;
  draw = 0;
  cancelled = false;
  interrupted = false;
}

-- A dial fails, the next works, and a delivery comes.
turn : Turn
turn = record {
  attempts = failing ∷ working ∷ [];
  reads = frame (some (encode_deliver sent)) ∷ [];
  cancelled = false;
}

read-Among : Among (text "m1" ∷ []) (frame (some (encode_deliver sent)))
unfolding sent signed
read-Among = rw (decode_deliver-encode sent) in_play

turns-Among : All (λ t. All (Among (text "m1" ∷ [])) t.reads) (turn ∷ turn ∷ [])
unfolding turn
turns-Among = ((read-Among, tt), ((read-Among, tt), tt))

-- The handler refuses what it is given first.
run_once_example :
    (e : End) × ((s : Session) × (run client_world client.cfg
          (λ n d. ltb 0 n)
          (turn ∷ turn ∷ [])
          (fresh_session 2 client)
        ≡ some (e, s))
      × Distinct s.consumed)
run_once_example =
    run_once client_world 2 (text "m1" ∷ []) client.cfg (λ n d. ltb 0 n) (turn ∷ turn ∷ []) client
      small turns-Among

redial-Result_example :
    Result client_world client.cfg
      (failing ∷ working ∷ [])
      (redial client_world base_backoff (failing ∷ working ∷ []) client.cfg)
redial-Result_example = redial-Result client_world client.cfg (failing ∷ working ∷ [])
