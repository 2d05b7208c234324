-- ===== src/Adapter/Outbound/Laws.antt =====
-- internal/adapter/generic.go and reconnect.go: what the calls of a mode return and change.
use peerbus.Prelude.{
  ◌≡◌, ◌⊎◌, inl, inr, Text, same, is_empty, not, true, false, List, keep, Option, none, some, arith,
  refl, In, keep-In, In-keep, Option-cases,
}
use peerbus.Mcp.Tools.{Answer, done, failed}
use peerbus.Adapter.Client.{World, Client, Error, request_peers, set_peers_sink}
use peerbus.Adapter.Outbound.{
  Wait, Host, Resuming, replied, cancelled, timed_out, client, name, with_client, filter_self,
  peers, reply, sent, send, broadcast,
}

filter_self-In :
    (names : List Text) (self n : Text)
    → is_empty self ≡ false
    → In n (filter_self names self)
    → In n names × (same n self ≡ false)
unfolding filter_self
filter_self-In names self n e i =
    let k : In n names × (not (same n self) ≡ true) =
      keep-In (λ x. not (same x self)) n names (ground arith) in
    ground (arith, k)

In-filter_self :
    (names : List Text) (self n : Text)
    → is_empty self ≡ false
    → In n names
    → same n self ≡ false
    → In n (filter_self names self)
unfolding filter_self
In-filter_self names self n e i d =
    let k : In n (keep (λ x. not (same x self)) names) =
      In-keep (λ x. not (same x self)) n names i (ground arith) in
    ground (arith, k)

-- The names that are listed are those of the reply but the caller's own, and no sink is left.
abbrev pub Lists : Host → Resuming → Answer (Text × List Text) × Resuming → Type 0
Lists h r (done (self, listed), r') =
    (self ≡ name r)
    × ((n : Text) → In n listed → same n self ≡ false)
    × ((names : List Text) × (h.wait r.waits ≡ replied names)
        × ((n : Text) → In n names → same n self ≡ false → In n listed))
    × (r'.session.client.has_sink ≡ false)
Lists h r (failed e, r') = (r' ≡ r) ⊎ (r'.session.client.has_sink ≡ false)

module _ (w : World) (h : Host) (r : Resuming) where
  replied-Lists :
      (v : Wait) (r' : Resuming)
      → h.wait r.waits ≡ v
      → is_empty (name r) ≡ false
      → r'.session.client.has_sink ≡ false
      → Lists h r (reply w h v (name r), r')
  unfolding reply
  replied-Lists (replied names) r' k e s = (
    refl,
    λ n i. (filter_self-In names (name r) n e i).1,
    (names, k, λ n i d. In-filter_self names (name r) n e i d),
    s,
  )
  replied-Lists cancelled r' k e s = inr s
  replied-Lists timed_out r' k e s = inr s

  -- For a peer with a name, `peers` gives that name and the names of the reply of the broker but its
  -- own; or it gives an error; and unless it changes nothing, it leaves no sink, on every path.
  pub peers-Lists : is_empty (name r) ≡ false → Lists h r (peers w h r)
  unfolding peers set_peers_sink with_client
  peers-Lists e = elim (Option-cases (client r)) [
    | inl p ↦ rw (p, peers) (inl refl)
    | inr (c, p) ↦ elim (Option-cases (request_peers w (set_peers_sink w true c)).0) [
      | inl q ↦ rw (p, q, peers) (replied-Lists (h.wait r.waits) _ refl e refl)
      | inr (err, q) ↦ rw (p, q, peers) (inr refl)
    ]
  ]

-- What the host has seen stays.
abbrev pub SameHost : Resuming → Resuming → Type 0
SameHost r r' = (r'.session.dedupe ≡ r.session.dedupe) × (r'.session.consumed ≡ r.session.consumed)

module _ (w : World) (h : Host) (r : Resuming) where
  sent-SameHost : (o : Option Error × Client) → SameHost r (sent w h o r).1
  unfolding sent with_client
  sent-SameHost (none, c) = (refl, refl)
  sent-SameHost (some e, c) = (refl, refl)

  pub send-SameHost : (to body : Text) → SameHost r (send w h to body r).1
  unfolding send
  send-SameHost to body = elim (Option-cases (client r)) [
    | inl p ↦ rw (p, send) (refl, refl)
    | inr (c, p) ↦ rw (p, send) (sent-SameHost _)
  ]

  pub broadcast-SameHost : (body : Text) → SameHost r (broadcast w h body r).1
  unfolding broadcast
  broadcast-SameHost body = elim (Option-cases (client r)) [
    | inl p ↦ rw (p, broadcast) (refl, refl)
    | inr (c, p) ↦ rw (p, broadcast) (sent-SameHost _)
  ]

  pub peers-SameHost : SameHost r (peers w h r).1
  unfolding peers set_peers_sink with_client
  peers-SameHost = elim (Option-cases (client r)) [
    | inl p ↦ rw (p, peers) (refl, refl)
    | inr (c, p) ↦ elim (Option-cases (request_peers w (set_peers_sink w true c)).0) [
      | inl q ↦ rw (p, q, peers) (refl, refl)
      | inr (err, q) ↦ rw (p, q, peers) (refl, refl)
    ]
  ]
