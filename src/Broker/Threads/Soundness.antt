-- ===== src/Broker/Threads/Soundness.antt =====
-- internal/broker: what holds of goroutines that interleave, from what each of them relies on and
-- guarantees.
use peerbus.Prelude.{
  ℕ, ◌≡◌, ◌≢◌, List, [], ◌∷◌, arith, refl, ◌==◌, if◌then◌else◌, Bool-cases, inl, inr,
}
use peerbus.Broker.State.{Server}
use peerbus.Broker.Threads.{Prog, done, blocked, step, System, advance_with, advance, exec}

-- `inv` holds between any two steps, `grows` relates what every step finds to what it leaves,
-- `own i` what any step of another goroutine than `i` finds to what it leaves, and `ends i` holds
-- once the goroutine `i` has returned.
pub record Contract : Type 1 where
  pub inv : Server → Type 0
  pub grows : Server → Server → Type 0
  pub own : ℕ → Server → Server → Type 0
  pub ends : ℕ → Server → Type 0
  pub grows_refl : (s : Server) → grows s s
  pub grows_trans : (s t u : Server) → grows s t → grows t u → grows s u
  pub own_refl : (i : ℕ) (s : Server) → own i s s
  pub own_trans : (i : ℕ) (s t u : Server) → own i s t → own i t u → own i s u

module _ (k : Contract) where
  -- The goroutine `i` keeps to the contract, whatever the others do from the state `s` on.
  unfoldable pub Good : ℕ → Prog → Server → Type 0
  Good i done s = (s' : Server) → k.grows s s' → k.own i s s' → k.inv s' → k.ends i s'
  Good i blocked s = Unit
  Good i (step f next) s =
      (s' : Server)
      → k.grows s s'
      → k.own i s s'
      → k.inv s'
      → k.inv (f s')
        × k.grows s' (f s')
        × ((j : ℕ) → j ≢ i → k.own j s' (f s'))
        × Good i (next s') (f s')

  pub Good-stable :
      (i : ℕ) (p : Prog) (s t : Server) → k.grows s t → k.own i s t → Good i p s → Good i p t
  unfolding Good
  Good-stable i done s t g o h =
      λ s' g' o'. h s' (k.grows_trans s t s' g g') (k.own_trans i s t s' o o')
  Good-stable i blocked s t g o h = tt
  Good-stable i (step f next) s t g o h =
      λ s' g' o'. h s' (k.grows_trans s t s' g g') (k.own_trans i s t s' o o')

  -- The invariant holds, and every goroutine keeps to the contract.
  pub record IsSound (y : System) : Type 0 where
    pub inv : k.inv y.server
    pub good : (i : ℕ) → Good i (y.threads i) y.server

  -- What one step gives.
  abbrev Advances : System → System → Type 0
  Advances y z = IsSound z × k.grows y.server z.server

  advance_with-Advances :
      (p : Prog) (i : ℕ) (y : System)
      → y.threads i ≡ p
      → IsSound y
      → Advances y (advance_with p i y)
  unfolding advance_with Good
  advance_with-Advances done i y e h = (h, k.grows_refl y.server)
  advance_with-Advances blocked i y e h = (h, k.grows_refl y.server)
  advance_with-Advances (step f next) i y e h =
      let (p, g, o, rest) =
        (rw e at (h.good i)) y.server (k.grows_refl y.server) (k.own_refl i y.server) h.inv in
      (record { inv = p; good = λ j. goods j g o rest }, g)
    where
      goods :
          (j : ℕ)
          → k.grows y.server (f y.server)
          → ((j : ℕ) → j ≢ i → k.own j y.server (f y.server))
          → Good i (next y.server) (f y.server)
          → Good j (if j == i then next y.server else y.threads j) (f y.server)
      goods j g o rest = elim (Bool-cases (j == i)) [
        | inl t ↦ let e : j ≡ i = ground (arith, t) in rw (t, e) rest
        | inr t ↦
            let n : j ≢ i = ground (arith, t) in
            rw t (Good-stable j (y.threads j) y.server (f y.server) g (o j n) (h.good j))
      ]

  -- Whatever the schedule.
  pub exec-Advances : (is : List ℕ) (y : System) → IsSound y → Advances y (exec is y)
  unfolding exec advance
  exec-Advances [] y h = (h, k.grows_refl y.server)
  exec-Advances (i ∷ is) y h =
      let z = advance i y in
      let (a, g) = advance_with-Advances (y.threads i) i y refl h in
      let (b, g') = exec-Advances is z a in
      (b, k.grows_trans y.server z.server (exec is z).server g g')

  -- A goroutine that has returned has done what it must.
  pub IsSound-ends : (y : System) (i : ℕ) → IsSound y → y.threads i ≡ done → k.ends i y.server
  unfolding Good
  IsSound-ends y i h e =
      (rw e at (h.good i)) y.server (k.grows_refl y.server) (k.own_refl i y.server) h.inv
