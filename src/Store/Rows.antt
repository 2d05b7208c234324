-- ===== src/Store/Rows.antt =====
-- internal/store: updates of rows and the keys of a message.
use peerbus.Prelude.{◌<◌, ◌≡◌, ◌⊎◌, Text, same, false, List, [], ◌∷◌, map, arith, All, refl}
use peerbus.Store.Schema.{Message, holds, deliver_row, ack_row, requeue_row}

-- No two messages have one id.
abbrev pub Distinct : List Message → Type 0
Distinct [] = Unit
Distinct (m ∷ ms) = (holds m.id ms ≡ false) × Distinct ms

-- `x` is of another sender than `m`, or has a larger number.
abbrev pub Follows : Message → Message → Type 0
Follows m x = (same m.from x.from ≡ false) ⊎ (m.seq < x.seq)

-- Every sender's numbers rise along the table.
abbrev pub Rising : List Message → Type 0
Rising [] = Unit
Rising (m ∷ ms) = All (Follows m) ms × Rising ms

-- The columns that no update writes.
abbrev pub SameKeys : Message → Message → Type 0
SameKeys x y = (y.id ≡ x.id) × (y.from ≡ x.from) × (y.to ≡ x.to) × (y.seq ≡ x.seq)

module _ (f : Message → Message) (keys : (m : Message) → SameKeys m (f m)) where
  pub holds-map : (i : Text) (ms : List Message) → holds i (map f ms) ≡ holds i ms
  unfolding holds
  holds-map i [] = refl
  holds-map i (m ∷ ms) = ground (arith, keys m, holds-map i ms)

  pub Distinct-map : (ms : List Message) → Distinct ms → Distinct (map f ms)
  Distinct-map [] h = tt
  Distinct-map (m ∷ ms) h = ground (arith, keys m, holds-map m.id ms, Distinct-map ms h.1)

  Follows-map :
      (m : Message) (ms : List Message) → All (Follows m) ms → All (Follows (f m)) (map f ms)
  Follows-map m [] h = tt
  Follows-map m (x ∷ ms) h = ground (arith, keys m, keys x, Follows-map m ms h.1)

  pub Rising-map : (ms : List Message) → Rising ms → Rising (map f ms)
  Rising-map [] h = tt
  Rising-map (m ∷ ms) h = (Follows-map m ms h.0, Rising-map ms h.1)

pub deliver_row-keys : (i : Text) (m : Message) → SameKeys m (deliver_row i m)
deliver_row-keys i m = ground arith

pub ack_row-keys : (i : Text) (m : Message) → SameKeys m (ack_row i m)
ack_row-keys i m = ground arith

pub requeue_row-keys : (n : Text) (m : Message) → SameKeys m (requeue_row n m)
requeue_row-keys n m = ground arith
