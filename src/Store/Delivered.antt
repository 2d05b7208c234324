-- ===== src/Store/Delivered.antt =====
-- internal/store/store.go: the calls of the store, but for MarkDelivered, mark no row as delivered.
use peerbus.Prelude.{◌≡◌, ◌⊎◌, inl, inr, Text, true, List, [], ◌∷◌, map, arith, refl, In, append-In}
use peerbus.Store.{enqueue, mark_delivered, mark_acked, requeue_unacked, register}
use peerbus.Store.Outcome.{Enqueues, enqueue-outcome}
use peerbus.Store.Schema.{Message, deliver_row, ack_row, requeue_row}
use peerbus.Store.Handle.{Driver, Store, Result, ok, err}

-- Where the delivered rows of the second list come from, those that `new` allows aside.
abbrev pub FromDelivered : (Message → Type 0) → List Message → List Message → Type 0
FromDelivered new ms ms' =
    (m : Message)
    → In m ms'
    → m.delivered ≡ true
    → new m ⊎ ((x : Message) × In x ms × (x.delivered ≡ true) × (x.id ≡ m.id))

module _ (new : Message → Type 0) where
  pub FromDelivered-refl : (ms : List Message) → FromDelivered new ms ms
  FromDelivered-refl ms m h d = inr (m, h, d, refl)

  FromDelivered-map :
      (f : Message → Message)
      → ((m : Message)
          → (f m).delivered ≡ true
          → new (f m) ⊎ ((m.delivered ≡ true) × (m.id ≡ (f m).id)))
      → (ms : List Message) → FromDelivered new ms (map f ms)
  FromDelivered-map f e [] m h d = absurd h
  FromDelivered-map f e (x ∷ ms) m (inl q) d = elim (e x (rw q at d)) [
    | inl n ↦ inl (rw q n)
    | inr (y, i) ↦ inr (x, inl refl, y, rw q i)
  ]
  FromDelivered-map f e (x ∷ ms) m (inr h) d = elim (FromDelivered-map f e ms m h d) [
    | inl n ↦ inl n
    | inr (y, i, p, q) ↦ inr (y, inr i, p, q)
  ]

  -- A call that makes one update or none.
  updated :
      (f : Message → Message) (ms ms' : List Message)
      → (ms' ≡ ms) ⊎ (ms' ≡ map f ms)
      → FromDelivered new ms (map f ms)
      → FromDelivered new ms ms'
  updated f ms ms' (inl e) h = rw e (FromDelivered-refl ms)
  updated f ms ms' (inr e) h = rw e h

module _ (d : Driver) (s : Store) where
  pub register-FromDelivered :
      (n : Text) → FromDelivered (λ m. ⊥) s.tables.messages (register d n s).1.tables.messages
  register-FromDelivered n =
      let e : (register d n s).1.tables.messages ≡ s.tables.messages =
        unfold register in ground arith in
      rw e (FromDelivered-refl (λ m. ⊥) s.tables.messages)

  enqueued :
      (m : Message) (r : Result (Unit {0}) × Store)
      → Enqueues d m s r
      → FromDelivered (λ m. ⊥) s.tables.messages r.1.tables.messages
  enqueued m (err _, s') e x h p = inr (x, rw e at h, p, refl)
  enqueued m (ok _, s') (k, n, e) x h p =
      elim (append-In x s.tables.messages (_ ∷ []) (rw e at h)) [
        | inl i ↦ inr (x, i, p, refl)
        | inr (inl q) ↦ ground (arith, p, q)
        | inr (inr z) ↦ absurd z
      ]

  pub enqueue-FromDelivered :
      (m : Message) → FromDelivered (λ m. ⊥) s.tables.messages (enqueue d m s).1.tables.messages
  enqueue-FromDelivered m = enqueued m (enqueue d m s) (enqueue-outcome d m s)

  pub mark_acked-FromDelivered :
      (i : Text) → FromDelivered (λ m. ⊥) s.tables.messages (mark_acked d i s).1.tables.messages
  unfolding mark_acked
  mark_acked-FromDelivered i =
      updated (λ m. ⊥) (ack_row i) s.tables.messages _ (ground arith)
        (FromDelivered-map (λ m. ⊥) (ack_row i) (λ m h. ground arith) s.tables.messages)

  pub requeue_unacked-FromDelivered :
      (n : Text)
      → FromDelivered (λ m. ⊥) s.tables.messages (requeue_unacked d n s).1.tables.messages
  unfolding requeue_unacked
  requeue_unacked-FromDelivered n =
      updated (λ m. ⊥) (requeue_row n) s.tables.messages _ (ground arith)
        (FromDelivered-map (λ m. ⊥) (requeue_row n) (λ m h. ground arith) s.tables.messages)

  pub mark_delivered-FromDelivered :
      (i : Text)
      → FromDelivered (λ m. m.id ≡ i) s.tables.messages (mark_delivered d i s).1.tables.messages
  unfolding mark_delivered
  mark_delivered-FromDelivered i =
      updated (λ m. m.id ≡ i) (deliver_row i) s.tables.messages _ (ground arith)
        (FromDelivered-map (λ m. m.id ≡ i) (deliver_row i) (λ m h. ground arith) s.tables.messages)
