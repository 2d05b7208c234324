-- ===== src/Fixtures.antt =====
-- Concrete instances of what the code of internal/ relies on, and small data, for the examples: a driver that
-- never fails, digests that keep the length of their input modulo 256, and a message between two peers.
use peerbus.Prelude.{
  ◌%◌, ◌≡◌, Text, text, is_empty, not, true, false, [], ◌∷◌, some, arith, All, length, refl,
}
use peerbus.Prelude.Hex.{IsByte}
use peerbus.Wire.Print.{compact, compact_idem}
use peerbus.Wire.Envelope.{Envelope, Syntax, encode, protocol_version, kind_msg}
use peerbus.Wire.Control.{Register, Deliver, control_register, control_deliver}
use peerbus.Store.Schema.{Message, Tables}
use peerbus.Store.Handle.{Driver, Store}
use peerbus.Audit.{Blake3}
use peerbus.Hmac.{Sha256}
use peerbus.Broker.Auth.{Authenticator}
use peerbus.Broker.State
use peerbus.Broker.State.{Server}
use peerbus.Wire.Json.{str, raw, obj, end, member}
use peerbus.Mcp.Rpc.{Decoder}
use peerbus.Adapter.Resume.Once.{fresh_session}
use peerbus.Adapter.Outbound.{Host, Resuming, replied}
use peerbus.Adapter.Generic.{Generic}
use peerbus.Adapter.Client
use peerbus.Adapter.Client.{Client, Config}

abbrev pub driver : Driver
driver = record { fails = λ n. false; now = λ n. n }

-- The length of the input, and zeros.
abbrev pub digest : Text → Text
digest x =
    length x % 256
    ∷ 0
    ∷ 0
    ∷ 0
    ∷ 0
    ∷ 0
    ∷ 0
    ∷ 0
    ∷ 0
    ∷ 0
    ∷ 0
    ∷ 0
    ∷ 0
    ∷ 0
    ∷ 0
    ∷ 0
    ∷ 0
    ∷ 0
    ∷ 0
    ∷ 0
    ∷ 0
    ∷ 0
    ∷ 0
    ∷ 0
    ∷ 0
    ∷ 0
    ∷ 0
    ∷ 0
    ∷ 0
    ∷ 0
    ∷ 0
    ∷ 0
    ∷ []

pub digest-bytes : (x : Text) → All IsByte (digest x)
digest-bytes x = ground arith

pub length-digest : (x : Text) → length (digest x) ≡ 32
length-digest x = refl

abbrev pub blake3 : Blake3
blake3 = record { sum256 = digest; length-sum256 = length-digest; bytes = digest-bytes }

abbrev pub sha256 : Sha256
sha256 = record {
  mac = λ k x. digest x;
  length-mac = λ k x. length-digest x;
  bytes = λ k x. digest-bytes x;
}

pub valid-compact :
    (t : Text) → not (is_empty (compact t)) ≡ true → not (is_empty (compact (compact t))) ≡ true
valid-compact t v = rw (compact_idem t) v

-- Takes every text that is not blank for a JSON value.
abbrev pub syntax : Syntax
unfolding compact
syntax = record {
  valid = λ t. not (is_empty (compact t));
  valid-compact = valid-compact;
  valid-empty = refl;
  valid-null = refl;
}

abbrev pub world : State.World
world = record { driver = driver; blake3 = blake3; write_fails = λ n. false }

abbrev pub client_world : Client.World
client_world = record { sha256 = sha256; syntax = syntax; write_fails = λ n. false }

abbrev pub alice : Text
alice = text "alice"

abbrev pub bob : Text
bob = text "bob"

abbrev pub token : Text
token = text "t"

abbrev pub secret : Text
secret = text "0123456789abcdef0123456789abcdef"

abbrev pub hello : Envelope
hello = record {
  protocol_version = protocol_version;
  id = text "m1";
  from = alice;
  to = bob;
  ts = text "T";
  source = text "host";
  kind = kind_msg;
  body = text "{}";
  hmac = [];
}

abbrev pub hello_message : Message
hello_message = record {
  id = text "m1";
  from = alice;
  to = bob;
  envelope = encode hello;
  delivered = true;
  acked = false;
  attempts = 1;
  seq = 0;
  ts = 7;
}

-- bob is known, and was sent a message that he has not acked.
abbrev pub tables : Tables
tables = record {
  peers = record { name = bob; registered = 1; ts = 1 } ∷ [];
  messages = hello_message ∷ [];
  sender_seq = record { sender = alice; next = 1 } ∷ [];
  audit = [];
}

abbrev pub store : Store
store = record { tables = tables; closed = false; calls = 0 }

abbrev pub auth : Authenticator
auth = record { tokens = token ∷ [] }

abbrev pub register_bob : Register
register_bob = record {
  protocol_version = protocol_version;
  kind = control_register;
  token = token;
  name = bob;
}

abbrev pub deliver_hello : Deliver
deliver_hello = record {
  protocol_version = protocol_version;
  kind = control_deliver;
  delivery_key = text "m1";
  envelope = hello;
}

abbrev pub client : Client
client = record {
  cfg = record { token = token; name = bob; hmac_secret = secret };
  open_ = true;
  sent = [];
  writes = 0;
  has_sink = false;
  sunk = [];
}

-- Takes every text for the method of a request under the id 1.
abbrev pub decoder : Decoder
decoder = record {
  parse =
      λ t. some (obj (member (text "method") (str t) (member (text "id") (raw (text "1")) end)));
  error_text = λ f. text "no JSON text";
}

-- The broker lists alice and bob, and every random byte is 7.
abbrev pub host : Host
host = record {
  error_text = λ e. text "error";
  cancelled_text = text "context canceled";
  random = λ n. 7 ∷ 7 ∷ 7 ∷ 7 ∷ 7 ∷ 7 ∷ 7 ∷ 7 ∷ 7 ∷ 7 ∷ 7 ∷ 7 ∷ 7 ∷ 7 ∷ 7 ∷ 7 ∷ [];
  now = λ n. text "T";
  wait = λ n. replied (alice ∷ bob ∷ []);
}

-- Connected as bob.
abbrev pub resuming : Resuming
resuming = record { session = fresh_session 2 client; published = true; minted = 0; waits = 0 }

abbrev pub client_config : Config
client_config = record { token = token; name = bob; hmac_secret = secret }

abbrev pub generic : Generic
generic = record { rc = resuming; pending = [] }
