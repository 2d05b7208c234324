-- ===== src/Store/Durable.antt =====
-- internal/store/store.go: what the changes of the tables keep of the rows of messages.
use peerbus.Prelude.{
  ℕ, ◌≤◌, ◌≡◌, inl, inr, Text, true, false, List, [], ◌∷◌, ◌++◌, map, arith, In, refl, ◌∙◌,
}
use peerbus.Store.{requeue_unacked}
use peerbus.Store.Schema.{Tables, Message, deliver_row, ack_row, requeue_row}
use peerbus.Store.Changes.{Change, Changes, here, next, registers, stores, delivers, acks, requeues}
use peerbus.Store.Handle.{Driver, Store, ok}

-- `y` is a later state of the row `x`: the same message, with no fewer attempts, and acked if `x`
-- was.
pub record Evolves (x y : Message) : Type 0 where
  pub id : y.id ≡ x.id
  pub from : y.from ≡ x.from
  pub to : y.to ≡ x.to
  pub envelope : y.envelope ≡ x.envelope
  pub seq : y.seq ≡ x.seq
  pub ts : y.ts ≡ x.ts
  pub acked : x.acked ≡ true → y.acked ≡ true
  pub attempts : x.attempts ≤ y.attempts

-- Row by row, and new rows only at the end.
abbrev pub Carries : List Message → List Message → Type 0
Carries [] ys = Unit
Carries (x ∷ xs) [] = ⊥
Carries (x ∷ xs) (y ∷ ys) = Evolves x y × Carries xs ys

pub Evolves-refl : (x : Message) → Evolves x x
Evolves-refl x = record {
  id = refl;
  from = refl;
  to = refl;
  envelope = refl;
  seq = refl;
  ts = refl;
  acked = λ h. h;
  attempts = omega arith;
}

pub Evolves-trans : (x y z : Message) → Evolves x y → Evolves y z → Evolves x z
Evolves-trans x y z p q = record {
  id = q.id ∙ p.id;
  from = q.from ∙ p.from;
  to = q.to ∙ p.to;
  envelope = q.envelope ∙ p.envelope;
  seq = q.seq ∙ p.seq;
  ts = q.ts ∙ p.ts;
  acked = λ h. q.acked (p.acked h);
  attempts = omega (arith, p.attempts, q.attempts);
}

pub Carries-refl : (xs : List Message) → Carries xs xs
Carries-refl [] = tt
Carries-refl (x ∷ xs) = (Evolves-refl x, Carries-refl xs)

pub Carries-trans : (xs ys zs : List Message) → Carries xs ys → Carries ys zs → Carries xs zs
Carries-trans [] ys zs p q = tt
Carries-trans (x ∷ xs) [] zs p q = absurd p
Carries-trans (x ∷ xs) (y ∷ ys) [] p q = absurd q
Carries-trans (x ∷ xs) (y ∷ ys) (z ∷ zs) p q =
    (Evolves-trans x y z p.0 q.0, Carries-trans xs ys zs p.1 q.1)

Carries-append : (xs ys : List Message) → Carries xs (xs ++ ys)
Carries-append [] ys = tt
Carries-append (x ∷ xs) ys = (Evolves-refl x, Carries-append xs ys)

Carries-map :
    (f : Message → Message)
    → ((m : Message) → Evolves m (f m))
    → (xs : List Message) → Carries xs (map f xs)
Carries-map f step [] = tt
Carries-map f step (x ∷ xs) = (step x, Carries-map f step xs)

pub deliver_row-Evolves : (i : Text) (m : Message) → Evolves m (deliver_row i m)
deliver_row-Evolves i m = ground arith

pub ack_row-Evolves : (i : Text) (m : Message) → Evolves m (ack_row i m)
ack_row-Evolves i m = ground arith

requeue_row-Evolves : (n : Text) (m : Message) → Evolves m (requeue_row n m)
requeue_row-Evolves n m = ground arith

Change-Carries : {t u : Tables} → Change t u → Carries t.messages u.messages
Change-Carries (registers n now t) = Carries-refl t.messages
Change-Carries (stores m ts t k h) = Carries-append t.messages (_ ∷ [])
Change-Carries (delivers i t) = Carries-map (deliver_row i) (deliver_row-Evolves i) t.messages
Change-Carries (acks i t) = Carries-map (ack_row i) (ack_row-Evolves i) t.messages
Change-Carries (requeues n t) = Carries-map (requeue_row n) (requeue_row-Evolves n) t.messages

pub Carries-Change :
    (ms : List Message) {t u : Tables} → Change t u → Carries ms t.messages → Carries ms u.messages
Carries-Change ms c p = Carries-trans ms _ _ p (Change-Carries c)

pub Changes-Carries : {t u : Tables} → Changes t u → Carries t.messages u.messages
Changes-Carries {t} here = Carries-refl t.messages
Changes-Carries (next cs c) = Carries-trans _ _ _ (Changes-Carries cs) (Change-Carries c)

-- A message that the table holds is found in every later table.
pub Carries-In :
    (xs ys : List Message) (m : Message)
    → Carries xs ys
    → In m xs
    → (m' : Message) × In m' ys × Evolves m m'
Carries-In [] ys m c h = absurd h
Carries-In (x ∷ xs) [] m c h = absurd c
Carries-In (x ∷ xs) (y ∷ ys) m c (inl e) = (y, inl refl, rw e c.0)
Carries-In (x ∷ xs) (y ∷ ys) m c (inr h) =
    let (m', i, v) = Carries-In xs ys m c.1 h in (m', inr i, v)

pub In-map_requeue :
    (n : Text) (m : Message) (xs : List Message)
    → In m xs
    → In (requeue_row n m) (map (requeue_row n) xs)
In-map_requeue n m [] h = absurd h
In-map_requeue n m (x ∷ xs) (inl e) = inl (rw e)
In-map_requeue n m (x ∷ xs) (inr h) = inr (In-map_requeue n m xs h)

requeue-tables :
    (d : Driver) (n : Text) (s : Store) (k : ℕ)
    → (requeue_unacked d n s).0 ≡ ok k
    → (requeue_unacked d n s).1.tables.messages ≡ map (requeue_row n) s.tables.messages
unfolding requeue_unacked
requeue-tables d n s k e = ground arith

-- After a successful requeue every message to the peer that is not acked is pending again, and the
-- row differs from what it was in the delivered flag alone.
pub requeue_unacked_redelivers :
    (d : Driver) (n : Text) (s : Store) (k : ℕ) (m : Message)
    → (requeue_unacked d n s).0 ≡ ok k
    → In m s.tables.messages
    → m.to ≡ n
    → m.acked ≡ false
    → In (record m { delivered = false }) (requeue_unacked d n s).1.tables.messages
requeue_unacked_redelivers d n s k m e h to open_ = rw (requeue-tables d n s k e) (
    let eq : requeue_row n m ≡ record m { delivered = false } = ground arith in
    rw (← eq) (In-map_requeue n m s.tables.messages h))

In-map_requeue_acked :
    (n : Text) (m : Message) (xs : List Message)
    → In m xs
    → m.acked ≡ true
    → In m (map (requeue_row n) xs)
In-map_requeue_acked n m [] h a = absurd h
In-map_requeue_acked n m (x ∷ xs) (inl e) a = inl (ground arith)
In-map_requeue_acked n m (x ∷ xs) (inr h) a = inr (In-map_requeue_acked n m xs h a)
