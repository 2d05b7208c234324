-- ===== src/Adapter/Resume/Once.antt =====
-- internal/adapter/reconnect.go: sequences of deliveries through `surface`.
use peerbus.Prelude.{
  ℕ, ◌≤◌, ◌≡◌, inl, inr, Text, same, Bool, true, false, List, [], ◌∷◌, ◌++◌, arith, refl, length,
  Bool-cases, if◌then◌else◌,
}
use peerbus.Wire.Control.{Deliver}
use peerbus.Adapter.Dedupe.{Dedupe, contains, erase, seen, forget, new_dedupe}
use peerbus.Adapter.Dedupe.Lru.{
  IsConsistent, Distinct, seen_cases, seen_lru, seen-IsConsistent, forget-IsConsistent,
  contains-erase, length-erase, new_dedupe-IsConsistent,
}
use peerbus.Adapter.Client.{World, Client}
use peerbus.Adapter.Resume.{Session, surface}

-- Deliveries in the order of their arrival, each with whether the handler consumes it.
pub surface_all : World → List (Deliver × Bool) → Session → Session
surface_all w [] s = s
surface_all w ((del, consumes) ∷ ds) s = surface_all w ds (surface w consumes del s)

-- Every id of `xs` is one of `ys`.
abbrev pub Within : List Text → List Text → Type 0
Within xs ys = (i : Text) → contains i xs ≡ true → contains i ys ≡ true

contains-erase_ne :
    (i j : Text) (xs : List Text) → same i j ≡ false → contains j (erase i xs) ≡ contains j xs
unfolding contains erase
contains-erase_ne i j [] n = refl
contains-erase_ne i j (x ∷ xs) n = ground (arith, contains-erase_ne i j xs n)

-- Distinct ids among some list are no more than the list is long.
pigeonhole : (xs ys : List Text) → Distinct xs → Within xs ys → length xs ≤ length ys
unfolding contains
pigeonhole [] ys u v = omega arith
pigeonhole (x ∷ xs) ys u v =
    let x_in : contains x ys ≡ true = v x (ground arith) in
    let rest =
      pigeonhole xs (erase x ys) u.1 (λ i h. ground (arith, contains-erase_ne x i ys, v i)) in
    omega (arith, rest, length-erase x ys x_in)

contains-append_one :
    (i j : Text) (xs : List Text)
    → contains i (xs ++ j ∷ []) ≡ (if same j i then true else contains i xs)
unfolding contains
contains-append_one i j [] = ground arith
contains-append_one i j (x ∷ xs) = ground (arith, contains-append_one i j xs)

Distinct-append_one :
    (j : Text) (xs : List Text) → Distinct xs → contains j xs ≡ false → Distinct (xs ++ j ∷ [])
unfolding contains
Distinct-append_one j [] u h = (refl, tt)
Distinct-append_one j (x ∷ xs) u h =
    ground (arith, contains-append_one x j xs, Distinct-append_one j xs u.1)

-- The cache holds just the ids that the host consumed, which are among `ids` and each there once.
pub record IsOnce (ids : List Text) (s : Session) : Type 0 where
  pub cache : IsConsistent s.dedupe
  pub fits : length ids ≤ s.dedupe.max
  pub known : Within s.dedupe.ll ids
  pub once : Distinct s.consumed
  pub agree : (i : Text) → contains i s.dedupe.ll ≡ contains i s.consumed

-- What one delivery does: a repeat is acked again and nothing else; a new id is offered to the
-- host, and either consumed and acked, or forgotten.
abbrev pub Surfaces : Bool → Deliver → Session → Session → Type 0
Surfaces consumes del s s' =
    let id = del.envelope.id in
    if contains id s.consumed
    then (s'.consumed ≡ s.consumed)
      × (s'.offered ≡ s.offered)
      × (s'.acked ≡ s.acked ++ del.delivery_key ∷ [])
    else if consumes
    then (s'.consumed ≡ s.consumed ++ id ∷ [])
      × (s'.offered ≡ s.offered ++ id ∷ [])
      × (s'.acked ≡ s.acked ++ del.delivery_key ∷ [])
    else (s'.consumed ≡ s.consumed) × (s'.offered ≡ s.offered ++ id ∷ []) × (s'.acked ≡ s.acked)

module _ (w : World) where
  -- If the cache holds just the consumed ids, a delivery of a consumed id is acked again and nothing
  -- else; of another id it is offered to the handler, and if that succeeds it is consumed and acked,
  -- else it is neither.
  pub surface_exact :
      (ids : List Text) (consumes : Bool) (del : Deliver) (s : Session)
      → IsOnce ids s
      → Surfaces consumes del s (surface w consumes del s)
  unfolding surface
  surface_exact ids consumes del s o =
      let answer = seen_lru del.envelope.id s.dedupe o.cache in
      ground (arith, answer, o.agree del.envelope.id)

-- While the ids in play fit the cache nothing is evicted.
seen_keeps :
    (ids : List Text) (id : Text) (d : Dedupe)
    → IsConsistent d
    → length ids ≤ d.max
    → Within d.ll ids
    → contains id ids ≡ true
    → ((i : Text) → contains i (seen id d).1.ll ≡ (if same id i then true else contains i d.ll))
      × ((seen id d).1.max ≡ d.max)
seen_keeps ids id d c f v h =
    seen_cases
      (λ r.
        ((i : Text) → contains i r.1.ll ≡ (if same id i then true else contains i d.ll))
        × (r.1.max ≡ d.max))
      id d c
      (λ p q. (λ i. unfold contains in ground (arith, contains-erase id i d.ll c.distinct), refl))
      (λ p q r. (λ i. unfold contains in refl, refl))
      (λ o p q r b. absurd (
        let crowd = pigeonhole (id ∷ d.ll) ids (p, c.distinct) (λ i k. one i k) in
        omega (arith, crowd)))
  where
    one : (i : Text) → contains i (id ∷ d.ll) ≡ true → contains i ids ≡ true
    one i k = unfold contains in ground (arith, v i, h)

forget_drops :
    (id i : Text) (d : Dedupe)
    → IsConsistent d
    → contains i (forget id d).ll ≡ (if same id i then false else contains i d.ll)
unfolding forget
forget_drops id i d c = ground (arith, c.agree id, contains-erase id i d.ll c.distinct)

max-forget : (id : Text) (d : Dedupe) → (forget id d).max ≡ d.max
unfolding forget
max-forget id d = ground arith

module _ (w : World) (ids : List Text) (del : Deliver) (s : Session) (o : IsOnce ids s) where
  -- The cache after the delivery.
  cache_after : Bool → Dedupe
  cache_after consumes =
      let (old, d) = seen del.envelope.id s.dedupe in
      if old then d else if consumes then d else forget del.envelope.id d

  dedupe-surface : (consumes : Bool) → (surface w consumes del s).dedupe ≡ cache_after consumes
  unfolding surface cache_after
  dedupe-surface consumes = ground arith

  cache_after-cases :
      (P : Dedupe → Type 0) (consumes : Bool)
      → P (seen del.envelope.id s.dedupe).1
      → P (forget del.envelope.id (seen del.envelope.id s.dedupe).1)
      → P (cache_after consumes)
  unfolding cache_after
  cache_after-cases P true p q = elim (Bool-cases (seen del.envelope.id s.dedupe).0) [
    | inl e ↦ rw e p
    | inr e ↦ rw e p
  ]
  cache_after-cases P false p q = elim (Bool-cases (seen del.envelope.id s.dedupe).0) [
    | inl e ↦ rw e p
    | inr e ↦ rw e q
  ]

module _ (w : World) (ids : List Text) (del : Deliver) where
  -- A delivery of an id in play keeps the invariant.
  pub surface-IsOnce :
      (consumes : Bool) (s : Session)
      → IsOnce ids s
      → contains del.envelope.id ids ≡ true
      → IsOnce ids (surface w consumes del s)
  surface-IsOnce consumes s o h =
      let id = del.envelope.id in
      let d' : Dedupe = (seen id s.dedupe).1 in
      let c' = seen-IsConsistent id s.dedupe o.cache in
      let (members, room) = seen_keeps ids id s.dedupe o.cache o.fits o.known h in
      let answer = seen_lru id s.dedupe o.cache in
      let exact = surface_exact w ids consumes del s o in
      let eq = dedupe-surface w ids del s o consumes in
      let cases = cache_after-cases w ids del s o in
      record {
        cache = rw eq (cases IsConsistent consumes c' (forget-IsConsistent id d' c'));
        fits = rw eq (
            cases (λ d. length ids ≤ d.max) consumes (omega (arith, room, o.fits))
              (omega (arith, room, o.fits, max-forget id d')));
        known = rw eq (
            cases (λ d. Within d.ll ids) consumes (λ i p. ground (arith, members i, o.known i, h))
              (λ i p. ground (arith, members i, o.known i, h, forget_drops id i d' c')));
        once = ground (arith, exact, o.once, Distinct-append_one id s.consumed o.once);
        agree = λ i. rw eq (
            unfold cache_after in
            ground (
              arith,
              exact,
              answer,
              members i,
              o.agree i,
              o.agree id,
              forget_drops id i d' c',
              contains-append_one i id s.consumed,
            ));
      }

-- The ids of the deliveries are in play.
abbrev pub InPlay : List Text → List (Deliver × Bool) → Type 0
InPlay ids [] = Unit
InPlay ids ((del, consumes) ∷ ds) = (contains del.envelope.id ids ≡ true) × InPlay ids ds

surface_all-IsOnce :
    (w : World) (ids : List Text) (ds : List (Deliver × Bool)) (s : Session)
    → IsOnce ids s
    → InPlay ids ds
    → IsOnce ids (surface_all w ds s)
unfolding surface_all
surface_all-IsOnce w ids [] s o p = o
surface_all-IsOnce w ids ((del, consumes) ∷ ds) s o p =
    surface_all-IsOnce w ids ds (surface w consumes del s)
      (surface-IsOnce w ids del consumes s o p.0) p.1

-- A session before its first delivery.
abbrev pub fresh_session : ℕ → Client → Session
fresh_session size c = record {
  dedupe = new_dedupe size;
  client = c;
  consumed = [];
  offered = [];
  acked = [];
}

pub fresh_session-IsOnce :
    (size : ℕ) (ids : List Text) (c : Client)
    → length ids ≤ (new_dedupe size).max
    → IsOnce ids (fresh_session size c)
unfolding new_dedupe contains
fresh_session-IsOnce size ids c f = record {
  cache = new_dedupe-IsConsistent size;
  fits = f;
  known = λ i h. absurd (ground arith);
  once = tt;
  agree = λ i. refl;
}

-- If the ids of the deliveries are among some list that is no longer than the cache, the host
-- consumes no id twice, however often and in whatever order ids are delivered again, and whichever
-- deliveries the handler refuses.
pub surface_all_once :
    (w : World) (size : ℕ) (ids : List Text) (ds : List (Deliver × Bool)) (c : Client)
    → length ids ≤ (new_dedupe size).max
    → InPlay ids ds
    → Distinct (surface_all w ds (fresh_session size c)).consumed
surface_all_once w size ids ds c f p =
    (surface_all-IsOnce w ids ds (fresh_session size c) (fresh_session-IsOnce size ids c f) p).once
