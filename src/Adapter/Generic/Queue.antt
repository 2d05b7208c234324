-- ===== src/Adapter/Generic/Queue.antt =====
-- internal/adapter/generic.go: the buffer beside a queue of the messages that arrive.
use peerbus.Prelude.{
  ℕ, Bool, ◌≤◌, ◌≡◌, inl, inr, Text, true, false, List, [], ◌∷◌, ◌++◌, if◌then◌else◌, arith, refl,
  ap, ◌∙◌, sym, length, Bool-cases,
}
use mathlib.Core.List.{append_assoc, append-nil}
use peerbus.Wire.Control.{Deliver}
use peerbus.Mcp.Tools.{Inbound}
use peerbus.Adapter.Dedupe.{contains, seen, new_dedupe}
use peerbus.Adapter.Dedupe.Lru.{seen_lru}
use peerbus.Adapter.Client.{World, Config, Read, new_client}
use peerbus.Adapter.Resume.{surface}
use peerbus.Adapter.Resume.Once.{IsOnce, surface_exact, surface-IsOnce, fresh_session-IsOnce}
use peerbus.Adapter.Outbound.{Host, Resuming}
use peerbus.Adapter.Outbound.Laws.{SameHost, send-SameHost, broadcast-SameHost, peers-SameHost}
use peerbus.Adapter.Generic.{
  Generic, new_generic_bus, new_resuming, buffered, handle, take, on_client, send, broadcast, peers,
  arrive, redialled, dropped, redialled-keeps,
}

-- What happens at the adapter, in order: `connects` is an attempt of the resume loop to connect, with
-- whether the dial succeeds and the first read, and `drops` the end of a connection.
pub data Event : Type 0 where
  arrives : Deliver → Event
  sends : Text → Text → Event
  broadcasts : Text → Event
  connects : Bool → Read → Event
  drops lists_peers drains : Event

-- The messages of the deliveries whose id is new, each when it first arrives: the specification.
unfoldable pub firsts : List Text → List Event → List Inbound
firsts known [] = []
firsts known (arrives del ∷ es) =
    let id = del.envelope.id in
    if contains id known
    then firsts known es
    else buffered del.envelope ∷ firsts (known ++ id ∷ []) es
firsts known (sends to body ∷ es) = firsts known es
firsts known (broadcasts body ∷ es) = firsts known es
firsts known (connects dialled reply ∷ es) = firsts known es
firsts known (drops ∷ es) = firsts known es
firsts known (lists_peers ∷ es) = firsts known es
firsts known (drains ∷ es) = firsts known es

abbrev pub Among : List Text → List Event → Type 0
Among ids [] = Unit
Among ids (arrives del ∷ es) = (contains del.envelope.id ids ≡ true) × Among ids es
Among ids (sends to body ∷ es) = Among ids es
Among ids (broadcasts body ∷ es) = Among ids es
Among ids (connects dialled reply ∷ es) = Among ids es
Among ids (drops ∷ es) = Among ids es
Among ids (lists_peers ∷ es) = Among ids es
Among ids (drains ∷ es) = Among ids es

module _ (w : World) (h : Host) where
  -- The events in order: what the host was given by all drains together, and the bus at the end.
  unfoldable pub run_events : List Event → Generic → List Inbound × Generic
  run_events [] b = ([], b)
  run_events (arrives del ∷ es) b = run_events es (arrive w h del b)
  run_events (sends to body ∷ es) b = run_events es (send w h to body b).1
  run_events (broadcasts body ∷ es) b = run_events es (broadcast w h body b).1
  run_events (connects dialled reply ∷ es) b =
      run_events es (record b { rc = redialled w dialled reply b.rc })
  run_events (drops ∷ es) b = run_events es (record b { rc = dropped w b.rc })
  run_events (lists_peers ∷ es) b = run_events es (peers w h b).1
  run_events (drains ∷ es) b =
      let (out, b') = take b in let (outs, b'') = run_events es b' in (out ++ outs, b'')

-- The cache holds just what the host consumed, among `ids`.
abbrev Ready : List Text → Resuming → Type 0
Ready ids r = IsOnce ids r.session

SameHost-Ready : (ids : List Text) (r r' : Resuming) → SameHost r r' → Ready ids r → Ready ids r'
SameHost-Ready ids r r' (d, c) o = record {
  cache = rw d o.cache;
  fits = rw d o.fits;
  known = rw d o.known;
  once = rw c o.once;
  agree = λ i. rw (d, c) (o.agree i);
}

module _ (w : World) (h : Host) (ids : List Text) where
  -- What the buffer and the drains hold together.
  Holds : List Event → Generic → Type 0
  Holds es b =
      let (outs, b') = run_events w h es b in
      outs ++ b'.pending ≡ b.pending ++ firsts b.rc.session.consumed es

  Holds-rest :
      (es : List Event) (b : Generic) {known : List Text}
      → b.rc.session.consumed ≡ known
      → Holds es b
      → (run_events w h es b).0 ++ (run_events w h es b).1.pending ≡ b.pending ++ firsts known es
  unfolding Holds
  Holds-rest es b c e = rw⁻¹ c e

  surfaced : Deliver → Resuming → Resuming
  surfaced del r = record r { session = surface w true del r.session }

  seen-consumed :
      (del : Deliver) (r : Resuming)
      → Ready ids r
      → (seen del.envelope.id r.session.dedupe).0 ≡ contains del.envelope.id r.session.consumed
  seen-consumed del r o =
      ground (arith, seen_lru del.envelope.id r.session.dedupe o.cache, o.agree del.envelope.id)

  arrive-old :
      (del : Deliver) (b : Generic)
      → Ready ids b.rc
      → contains del.envelope.id b.rc.session.consumed ≡ true
      → arrive w h del b ≡ record b { rc = surfaced del b.rc }
  unfolding arrive surfaced
  arrive-old del b o e = ground (arith, seen-consumed del b.rc o)

  arrive-new :
      (del : Deliver) (b : Generic)
      → Ready ids b.rc
      → contains del.envelope.id b.rc.session.consumed ≡ false
      → arrive w h del b
        ≡ record { rc = surfaced del b.rc; pending = b.pending ++ buffered del.envelope ∷ [] }
  unfolding arrive surfaced handle
  arrive-new del b o e = ground (arith, seen-consumed del b.rc o)

  consumed-old :
      (del : Deliver) (r : Resuming)
      → Ready ids r
      → contains del.envelope.id r.session.consumed ≡ true
      → (surfaced del r).session.consumed ≡ r.session.consumed
  unfolding surfaced
  consumed-old del r o e = ground (arith, surface_exact w ids true del r.session o)

  consumed-new :
      (del : Deliver) (r : Resuming)
      → Ready ids r
      → contains del.envelope.id r.session.consumed ≡ false
      → (surfaced del r).session.consumed ≡ r.session.consumed ++ del.envelope.id ∷ []
  unfolding surfaced
  consumed-new del r o e = ground (arith, surface_exact w ids true del r.session o)

  surfaced-Ready :
      (del : Deliver) (r : Resuming)
      → Ready ids r
      → contains del.envelope.id ids ≡ true
      → Ready ids (surfaced del r)
  unfolding surfaced
  surfaced-Ready del r o a = surface-IsOnce w ids del true r.session o a

  run_events-Holds : (es : List Event) (b : Generic) → Ready ids b.rc → Among ids es → Holds es b
  unfolding Holds run_events firsts send broadcast peers on_client take dropped
  run_events-Holds [] b o rest = sym (append-nil b.pending)
  run_events-Holds (arrives del ∷ es) b o (a, rest) =
      elim (Bool-cases (contains del.envelope.id b.rc.session.consumed)) [
        | inl e ↦
            let b' : Generic = record b { rc = surfaced del b.rc } in
            rw (e, run_events, arrive-old del b o e)
              (Holds-rest es b' (consumed-old del b.rc o e)
                (run_events-Holds es b' (surfaced-Ready del b.rc o a) rest))
        | inr e ↦
            let b' : Generic = record {
              rc = surfaced del b.rc;
              pending = b.pending ++ buffered del.envelope ∷ [];
            } in
            let news = firsts (b.rc.session.consumed ++ del.envelope.id ∷ []) es in
            rw (e, run_events, arrive-new del b o e)
              (Holds-rest es b' (consumed-new del b.rc o e)
                  (run_events-Holds es b' (surfaced-Ready del b.rc o a) rest)
                ∙ append_assoc b.pending (buffered del.envelope ∷ []) news)
      ]
  run_events-Holds (sends to body ∷ es) b o rest =
      let k = send-SameHost w h b.rc to body in
      Holds-rest es (send w h to body b).1 k.1 (
        run_events-Holds es (send w h to body b).1
          (SameHost-Ready ids b.rc (send w h to body b).1.rc k o) rest)
  run_events-Holds (broadcasts body ∷ es) b o rest =
      let k = broadcast-SameHost w h b.rc body in
      Holds-rest es (broadcast w h body b).1 k.1 (
        run_events-Holds es (broadcast w h body b).1
          (SameHost-Ready ids b.rc (broadcast w h body b).1.rc k o) rest)
  run_events-Holds (connects dialled reply ∷ es) b o rest =
      let b' : Generic = record b { rc = redialled w dialled reply b.rc } in
      let k = redialled-keeps w dialled reply b.rc in
      Holds-rest es b' k.1 (run_events-Holds es b' (SameHost-Ready ids b.rc b'.rc k o) rest)
  run_events-Holds (drops ∷ es) b o rest =
      let b' : Generic = record b { rc = dropped w b.rc } in
      run_events-Holds es b' (SameHost-Ready ids b.rc b'.rc (refl, refl) o) rest
  run_events-Holds (lists_peers ∷ es) b o rest =
      let k = peers-SameHost w h b.rc in
      Holds-rest es (peers w h b).1 k.1
        (run_events-Holds es (peers w h b).1 (SameHost-Ready ids b.rc (peers w h b).1.rc k o) rest)
  run_events-Holds (drains ∷ es) b o rest =
      let b' : Generic = (take b).1 in
      append_assoc b.pending (run_events w h es b').0 (run_events w h es b').1.pending
      ∙ ap (λ x. b.pending ++ x)
          (run_events-Holds es b' (SameHost-Ready ids b.rc b.rc (refl, refl) o) rest)

  -- If the ids that arrive are among some list that is no longer than the cache, then what all drains
  -- together gave to the host, followed by what is still buffered, is the first arrival of each id, in
  -- order, whatever is delivered again, however often the broker is connected and lost, and whichever calls
  -- of the bus come in between.
  pub drained_once :
      (cfg : Config) (size : ℕ) (es : List Event)
      → length ids ≤ (new_dedupe size).max
      → Among ids es
      → (let (outs, b) = run_events w h es (new_generic_bus cfg size) in outs ++ b.pending)
        ≡ firsts [] es
  unfolding Holds new_generic_bus new_resuming
  drained_once cfg size es f rest =
      run_events-Holds es (new_generic_bus cfg size)
        (fresh_session-IsOnce size ids (new_client cfg) f) rest
