-- ===== src/Broker/Threads/Serving.antt =====
-- internal/broker/registry.go and server.go: the steps of the registry, and the end of a connection,
-- keep to the contract.
use peerbus.Prelude.{
  ℕ, ◌≡◌, ◌≢◌, ◌⊎◌, inl, inr, Text, true, some, arith, refl, sym, ap, ◌∙◌, Option-cases,
}
use peerbus.Store.Schema.{Tables, known}
use peerbus.Broker.Auth.{valid}
use peerbus.Broker.Registry.{Binding, Registry, Bound, fresh, taken_over, bind, remove, find}
use peerbus.Broker.Registry.Laws.{bind_cases, find-put, find-remove}
use peerbus.Broker.State.{World, Server, Reason, bye, close_normal}
use peerbus.Broker.Keeps.{IsKept}
use peerbus.Broker.Threads.{Prog, done, atomic}
use peerbus.Broker.Threads.Handlers.{bind_step, remove_step, refuse, hang_up}
use peerbus.Broker.Threads.Soundness.{Good}
use peerbus.Broker.Threads.Contract.{Grows, Grows-refl, Unbound, OnlyAs}
use peerbus.Broker.Threads.Moves.{close_normal-Moves}
use peerbus.Broker.Threads.Good.{Keeps, Later, step-Keeps}

-- What is bound after a name was removed.
remove-find :
    (m n : Text) (c : ℕ) (r : Registry) (b : Binding)
    → find m (remove n c r) ≡ some b
    → (find m r ≡ some b) × (m ≡ n → b.conn ≢ c)
remove-find m n c r b h =
    let e = find-remove n m c r in
    elim (Option-cases (find m r)) [
      | inl f ↦ ground (arith, e, f, h)
      | inr (x, f) ↦ ground (arith, e, f, h)
    ]

-- What is bound after a binding.
bind-find :
    (m : Text) (b : Binding) (r : Registry) (x : Binding)
    → find m (bind b r).1 ≡ some x
    → ((m ≡ b.name) × (x ≡ b)) ⊎ (find m r ≡ some x)
unfolding bind
bind-find m b r x h = elim (Option-cases (find b.name r)) [
  | inl f ↦ ground (arith, find-put b m r, f, h)
  | inr (y, f) ↦ ground (arith, find-put b m r, f, h)
]

module _ (w : World) (T : Tables → Type 0) (k : IsKept w T) (i : ℕ) where
  pub Later-Unbound : (s t : Server) → Later w T k i s t → Unbound i s → Unbound i t
  Later-Unbound s t (g, o, v) u n b f e = u n b (o n b f e) e

  pub Later-OnlyAs :
      (name : Text) (s t : Server) → Later w T k i s t → OnlyAs i name s → OnlyAs i name t
  Later-OnlyAs name s t (g, o, v) u n b f e = u n b (o n b f e) e

  pub done-Keeps : (s : Server) → (s.conns i).closed ≡ true → Unbound i s → Keeps w T k i done s
  unfolding Good
  done-Keeps s c u = λ t g o v. (g.closed i c, λ n b f e. u n b (o n b f e) e)

  close_normal-closed : (why : Reason) (s : Server) → ((close_normal i why s).conns i).closed ≡ true
  unfolding close_normal
  close_normal-closed why s = ground arith

  pub refuse-Keeps : (why : Reason) (s : Server) → Unbound i s → Keeps w T k i (refuse i why) s
  unfolding refuse atomic
  refuse-Keeps why s u =
      step-Keeps w T k i (close_normal i why) (λ t. done) s
        (λ t l. (
          close_normal-Moves w T k t l.2 i why,
          λ l'. done-Keeps _ (close_normal-closed why t) (Later-Unbound s _ l' u),
        ))

  -- The connection holds no name once it has given up the one it was registered under.
  pub remove_step-Keeps :
      (name : Text) (next : Prog) (s : Server)
      → OnlyAs i name s
      → ((t : Server) → Grows s t → Unbound i t → Keeps w T k i next t)
      → Keeps w T k i (remove_step name i next) s
  unfolding remove_step atomic Good
  remove_step-Keeps name next s a h = λ t g o v.
      let t' : Server = record t { registry = remove name i t.registry } in
      let gone : (n : Text) (b : Binding)
          → find n t'.registry ≡ some b
          → (find n t.registry ≡ some b) × (n ≡ name → b.conn ≢ i) =
        λ n b f. remove-find n name i t.registry b f in
      (
        record { tables = v.tables; bound = λ n b f. v.bound n b (gone n b f).0; sent = v.sent },
        record {
          auth = refl;
          rows = (Grows-refl t).rows;
          names = λ n x. x;
          sent = λ c j x. x;
          closed = λ c x. x;
        },
        λ j other n b f e. (gone n b f).0,
        h t'
            (record {
              auth = g.auth;
              rows = g.rows;
              names = g.names;
              sent = g.sent;
              closed = g.closed;
            })
            (λ n b f e. (gone n b f).1 (a n b (o n b (gone n b f).0 e) e) e),
      )

  pub hang_up-Keeps :
      (name : Text) (s : Server) → OnlyAs i name s → Keeps w T k i (hang_up i name) s
  unfolding hang_up atomic
  hang_up-Keeps name s a =
      step-Keeps w T k i (close_normal i bye) (λ t. remove_step name i done) s
        (λ t l. (
          close_normal-Moves w T k t l.2 i bye,
          λ l'.
              remove_step-Keeps name done _ (Later-OnlyAs name s _ l' a)
                (λ u g free. done-Keeps u (g.closed i (close_normal-closed bye t)) free),
        ))

  -- What the goroutine knows once the registry has answered.
  unfoldable pub Answered : Bound → Text → Server → Type 0
  Answered Bound.name_claimed name s = Unbound i s
  Answered fresh name s = OnlyAs i name s
  Answered (taken_over old) name s = OnlyAs i name s

  bind-Answered :
      (b : Binding) (r : Registry) (s : Server)
      → s.registry ≡ (bind b r).1
      → ((n : Text) (x : Binding) → find n r ≡ some x → x.conn ≢ i)
      → Answered (bind b r).0 b.name s
  unfolding Answered
  bind-Answered b r s e u =
      let only : OnlyAs i b.name s = λ m x f c. elim (bind-find m b r x (rw e at f)) [
        | inl (q, _) ↦ q
        | inr f' ↦ absurd (u m x f' c)
      ] in
      elim (bind_cases b r) [
        | inl (_, o, _) ↦ rw o only
        | inr (inl (x, _, _, o, _)) ↦ rw o only
        | inr (inr (x, _, _, o, same_r)) ↦ rw o (λ m x f. u m x (rw same_r at rw e at f))
      ]

  -- The name is known to the store, and the token is valid, before the name is bound.
  pub bind_step-Keeps :
      (b : Binding) (next : Bound → Prog) (s : Server)
      → b.conn ≡ i
      → known b.name s.store.tables.peers ≡ true
      → valid s.auth b.token ≡ true
      → Unbound i s
      → ((o : Bound) (t : Server) → Grows s t → Answered o b.name t → Keeps w T k i (next o) t)
      → Keeps w T k i (bind_step b next) s
  unfolding bind_step Good
  bind_step-Keeps b next s c n q u h = λ t g o v.
      let t' : Server = record t { registry = (bind b t.registry).1 } in
      (
        record {
          tables = v.tables;
          bound = λ m x f. elim (bind-find m b t.registry x f) [
            | inl (e, e') ↦ (rw e (g.names b.name n), rw (e', g.auth) q)
            | inr f' ↦ v.bound m x f'
          ];
          sent = v.sent;
        },
        record {
          auth = refl;
          rows = (Grows-refl t).rows;
          names = λ n x. x;
          sent = λ c j x. x;
          closed = λ c x. x;
        },
        λ j other m x f e. elim (bind-find m b t.registry x f) [
          | inl (_, e') ↦ absurd (other (sym e ∙ ap (λ (y : Binding). y.conn) e' ∙ c))
          | inr f' ↦ f'
        ],
        h (bind b t.registry).0 t'
            (record {
              auth = g.auth;
              rows = g.rows;
              names = g.names;
              sent = g.sent;
              closed = g.closed;
            })
            (bind-Answered b t.registry t' refl (λ m x f e. u m x (o m x f e) e)),
      )
