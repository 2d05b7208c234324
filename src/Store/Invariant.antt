-- ===== src/Store/Invariant.antt =====
-- internal/store: well-formed tables, and the changes of Store/Changes.
use peerbus.Prelude.{
  ℕ, ◌+◌, ◌<◌, ◌≡◌, Text, same, true, false, List, [], ◌∷◌, ◌++◌, map, arith, All, refl, some,
  if◌then◌else◌, All-append,
}
use peerbus.Store.{or_zero, new_row}
use peerbus.Store.Schema.{
  Tables, Message, PeerRow, SeqRow, known, holds, next_of, set_next, upsert_peer, deliver_row,
  ack_row, requeue_row, no_rows,
}
use peerbus.Store.Changes.{Change, Changes, here, next, registers, stores, delivers, acks, requeues}
use peerbus.Store.Rows.{
  Distinct, Rising, Follows, SameKeys, Distinct-map, Rising-map, deliver_row-keys, ack_row-keys,
  requeue_row-keys,
}
use peerbus.Store.Outcome.{stored}

abbrev pub IsAddressed : List PeerRow → Message → Type 0
IsAddressed ps m = known m.to ps ≡ true

abbrev pub IsNumbered : List SeqRow → Message → Type 0
IsNumbered rs m = m.seq < or_zero (next_of m.from rs)

pub record IsWellformed (t : Tables) : Type 0 where
  pub ids : Distinct t.messages
  pub addressed : All (IsAddressed t.peers) t.messages
  pub numbered : All (IsNumbered t.sender_seq) t.messages
  pub rising : Rising t.messages

pub known-upsert_peer :
    (n j : Text) (now : ℕ) (ps : List PeerRow)
    → known j (upsert_peer n now ps) ≡ (if same n j then true else known j ps)
unfolding known upsert_peer
known-upsert_peer n j now [] = ground arith
known-upsert_peer n j now (p ∷ ps) = ground (arith, known-upsert_peer n j now ps)

next_of-set_next :
    (s j : Text) (n : ℕ) (rs : List SeqRow)
    → next_of j (set_next s n rs) ≡ (if same s j then some n else next_of j rs)
unfolding next_of set_next
next_of-set_next s j n [] = ground arith
next_of-set_next s j n (r ∷ rs) = ground (arith, next_of-set_next s j n rs)

pub holds-append_one :
    (i : Text) (ms : List Message) (m : Message)
    → holds i (ms ++ m ∷ []) ≡ (if same m.id i then true else holds i ms)
unfolding holds
holds-append_one i [] m = ground arith
holds-append_one i (x ∷ ms) m = ground (arith, holds-append_one i ms m)

Distinct-append_one :
    (ms : List Message) (m : Message)
    → Distinct ms
    → holds m.id ms ≡ false
    → Distinct (ms ++ m ∷ [])
unfolding holds
Distinct-append_one [] m h e = (refl, tt)
Distinct-append_one (x ∷ ms) m h e =
    ground (arith, holds-append_one x.id ms m, Distinct-append_one ms m h.1)

Rising-append_one :
    (ms : List Message) (m : Message)
    → Rising ms
    → All (λ x. Follows x m) ms
    → Rising (ms ++ m ∷ [])
Rising-append_one [] m h f = (tt, tt)
Rising-append_one (x ∷ ms) m h f =
    (All-append (Follows x) ms (m ∷ []) h.0 (f.0, tt), Rising-append_one ms m h.1 f.1)

pub All-mono {ℓ} :
    {A : Type 0} (P Q : A → Type ℓ) → ((a : A) → P a → Q a) → (xs : List A) → All P xs → All Q xs
All-mono P Q f [] h = tt
All-mono P Q f (a ∷ xs) h = (f a h.0, All-mono P Q f xs h.1)

All-map_keys :
    (P : Message → Type 0) (f : Message → Message)
    → ((m : Message) → P m → P (f m))
    → (ms : List Message) → All P ms
    → All P (map f ms)
All-map_keys P f step [] h = tt
All-map_keys P f step (m ∷ ms) h = (step m h.0, All-map_keys P f step ms h.1)

module _ (f : Message → Message) (keys : (m : Message) → SameKeys m (f m)) where
  update-IsWellformed :
      (t : Tables) → IsWellformed t → IsWellformed (record t { messages = map f t.messages })
  update-IsWellformed t w = record {
    ids = Distinct-map f keys t.messages w.ids;
    addressed =
        All-map_keys (IsAddressed t.peers) f (λ m h. ground (arith, keys m)) t.messages w.addressed;
    numbered =
        All-map_keys (IsNumbered t.sender_seq) f (λ m h. ground (arith, keys m)) t.messages
          w.numbered;
    rising = Rising-map f keys t.messages w.rising;
  }

module _ (m : Message) (ts : ℕ) (t : Tables) where
  stored-IsWellformed :
      known m.to t.peers ≡ true
      → holds m.id t.messages ≡ false
      → IsWellformed t
      → IsWellformed (stored m ts t)
  stored-IsWellformed k h w =
      let n = or_zero (next_of m.from t.sender_seq) in
      record {
        ids = Distinct-append_one t.messages (new_row m n ts) w.ids h;
        addressed =
            All-append (IsAddressed t.peers) t.messages (new_row m n ts ∷ []) w.addressed (k, tt);
        numbered =
            All-append (IsNumbered (set_next m.from (n + 1) t.sender_seq)) t.messages
              (new_row m n ts ∷ [])
              (All-mono (IsNumbered t.sender_seq)
                (IsNumbered (set_next m.from (n + 1) t.sender_seq))
                (λ x b. ground (arith, next_of-set_next m.from x.from (n + 1) t.sender_seq))
                t.messages w.numbered)
              (ground (arith, next_of-set_next m.from m.from (n + 1) t.sender_seq), tt);
        rising = Rising-append_one t.messages (new_row m n ts) w.rising (
            All-mono (IsNumbered t.sender_seq) (λ x. Follows x (new_row m n ts))
              (λ x b. ground arith) t.messages w.numbered);
      }

pub Change-IsWellformed : {t u : Tables} → Change t u → IsWellformed t → IsWellformed u
Change-IsWellformed (registers n now t) w = record {
  ids = w.ids;
  addressed =
      All-mono (IsAddressed t.peers) (IsAddressed (upsert_peer n now t.peers))
        (λ m h. ground (arith, known-upsert_peer n m.to now t.peers)) t.messages w.addressed;
  numbered = w.numbered;
  rising = w.rising;
}
Change-IsWellformed (stores m ts t k h) w = stored-IsWellformed m ts t k h w
Change-IsWellformed (delivers i t) w = update-IsWellformed (deliver_row i) (deliver_row-keys i) t w
Change-IsWellformed (acks i t) w = update-IsWellformed (ack_row i) (ack_row-keys i) t w
Change-IsWellformed (requeues n t) w = update-IsWellformed (requeue_row n) (requeue_row-keys n) t w

pub Changes-IsWellformed : {t u : Tables} → IsWellformed t → Changes t u → IsWellformed u
Changes-IsWellformed w here = w
Changes-IsWellformed w (next cs c) = Change-IsWellformed c (Changes-IsWellformed w cs)

pub no_rows-IsWellformed : IsWellformed no_rows
no_rows-IsWellformed = record { ids = tt; addressed = tt; numbered = tt; rising = tt }
