-- ===== src/Store/Fifo.antt =====
-- internal/store/store.go: `PendingFor`, the rows that it returns and their order.
use peerbus.Prelude.{
  ◌≡◌, ◌⊎◌, Text, same, Bool, true, ◌&&◌, List, [], ◌∷◌, arith, All, In, In-keep, keep-In, keep,
  refl, ◌∙◌, ap, text_le_total,
}
use peerbus.Store.{pending_for}
use peerbus.Store.Schema.{Message, comes_first, insert_sorted, order_by, is_pending}
use peerbus.Store.Rows.{Rising, Follows}
use peerbus.Store.Invariant.{IsWellformed}
use peerbus.Store.Handle.{Driver, Store, ok}

abbrev pub is_from : Text → Message → Bool
is_from s m = same m.from s

-- Inserting before all of its own sender's later rows keeps that sender's order.
keep-insert_sorted :
    (s : Text) (m : Message) (xs : List Message)
    → All (Follows m) xs
    → keep (is_from s) (insert_sorted m xs) ≡ keep (is_from s) (m ∷ xs)
unfolding insert_sorted comes_first
keep-insert_sorted s m [] f = refl
keep-insert_sorted s m (x ∷ xs) f = ground (arith, keep-insert_sorted s m xs f.1)

All-insert_sorted :
    (P : Message → Type 0) (m : Message) (xs : List Message)
    → P m
    → All P xs
    → All P (insert_sorted m xs)
unfolding insert_sorted
All-insert_sorted P m [] p h = (p, tt)
All-insert_sorted P m (x ∷ xs) p h = ground (arith, All-insert_sorted P m xs p h.1)

All-order_by : (P : Message → Type 0) (xs : List Message) → All P xs → All P (order_by xs)
unfolding order_by
All-order_by P [] h = tt
All-order_by P (x ∷ xs) h = All-insert_sorted P x (order_by xs) h.0 (All-order_by P xs h.1)

keep-order_by :
    (s : Text) (xs : List Message)
    → Rising xs
    → keep (is_from s) (order_by xs) ≡ keep (is_from s) xs
unfolding order_by
keep-order_by s [] h = refl
keep-order_by s (x ∷ xs) h = ground (
  arith,
  keep-insert_sorted s x (order_by xs) (All-order_by (Follows x) xs h.0),
  keep-order_by s xs h.1,
)

All-keep :
    (P : Message → Type 0) (p : Message → Bool) (xs : List Message) → All P xs → All P (keep p xs)
All-keep P p [] h = tt
All-keep P p (x ∷ xs) h = ground (arith, All-keep P p xs h.1)

Rising-keep : (p : Message → Bool) (xs : List Message) → Rising xs → Rising (keep p xs)
Rising-keep p [] h = tt
Rising-keep p (x ∷ xs) h = ground (arith, All-keep (Follows x) p xs h.0, Rising-keep p xs h.1)

keep-keep :
    (p q : Message → Bool) (xs : List Message) → keep p (keep q xs) ≡ keep (λ x. p x && q x) xs
keep-keep p q [] = refl
keep-keep p q (x ∷ xs) = ground (arith, keep-keep p q xs)

pub pending_for-eq :
    (d : Driver) (n : Text) (s : Store) (out : List Message)
    → (pending_for d n s).0 ≡ ok out
    → out ≡ order_by (keep (is_pending n) s.tables.messages)
unfolding pending_for
pending_for-eq d n s out e = ground arith

-- Per-sender FIFO: what `pending_for` returns of one sender is that sender's undelivered messages
-- to the recipient, in the order in which they were enqueued, if the tables are well formed.
pub pending_for_fifo :
    (d : Driver) (n sender : Text) (s : Store) (out : List Message)
    → IsWellformed s.tables
    → (pending_for d n s).0 ≡ ok out
    → keep (is_from sender) out ≡ keep (λ m. is_from sender m && is_pending n m) s.tables.messages
pending_for_fifo d n sender s out w e =
    ap (keep (is_from sender)) (pending_for-eq d n s out e)
    ∙ keep-order_by sender (keep (is_pending n) s.tables.messages)
        (Rising-keep (is_pending n) s.tables.messages w.rising)
    ∙ keep-keep (is_from sender) (is_pending n) s.tables.messages

In-insert_sorted : (a m : Message) (xs : List Message) → In a (m ∷ xs) → In a (insert_sorted m xs)
unfolding insert_sorted
In-insert_sorted a m [] h = h
In-insert_sorted a m (x ∷ xs) h = ground (arith, In-insert_sorted a m xs)

insert_sorted-In : (a m : Message) (xs : List Message) → In a (insert_sorted m xs) → In a (m ∷ xs)
unfolding insert_sorted
insert_sorted-In a m [] h = h
insert_sorted-In a m (x ∷ xs) h = ground (arith, insert_sorted-In a m xs)

pub In-order_by : (a : Message) (xs : List Message) → In a xs → In a (order_by xs)
unfolding order_by
In-order_by a [] h = h
In-order_by a (x ∷ xs) h = In-insert_sorted a x (order_by xs) (ground (arith, In-order_by a xs))

order_by-In : (a : Message) (xs : List Message) → In a (order_by xs) → In a xs
unfolding order_by
order_by-In a [] h = h
order_by-In a (x ∷ xs) h = ground (arith, insert_sorted-In a x (order_by xs) h, order_by-In a xs)

-- Each row comes before or with every later one in the order of the query.
abbrev pub IsSorted : List Message → Type 0
IsSorted [] = Unit
IsSorted (x ∷ []) = Unit
IsSorted (x ∷ y ∷ xs) = (comes_first x y ≡ true) × IsSorted (y ∷ xs)

comes_first_total : (a b : Message) → (comes_first a b ≡ true) ⊎ (comes_first b a ≡ true)
unfolding comes_first
comes_first_total a b = ground (arith, text_le_total a.from b.from)

insert_sorted-IsSorted :
    (m : Message) (xs : List Message) → IsSorted xs → IsSorted (insert_sorted m xs)
unfolding insert_sorted
insert_sorted-IsSorted m [] h = tt
insert_sorted-IsSorted m (x ∷ []) h = ground (arith, comes_first_total m x)
insert_sorted-IsSorted m (x ∷ y ∷ xs) h =
    ground
      (arith, comes_first_total m x, comes_first_total m y, insert_sorted-IsSorted m (y ∷ xs) h.1)

pub order_by-IsSorted : (xs : List Message) → IsSorted (order_by xs)
unfolding order_by
order_by-IsSorted [] = tt
order_by-IsSorted (x ∷ xs) = insert_sorted-IsSorted x (order_by xs) (order_by-IsSorted xs)

-- If `pending_for` succeeds, it returns exactly the undelivered rows of the recipient, sorted by
-- sender, number and time.
pub pending_for_exact :
    (d : Driver) (n : Text) (s : Store) (out : List Message)
    → (pending_for d n s).0 ≡ ok out
    → IsSorted out
      × ((m : Message)
          → (In m out → In m s.tables.messages × (is_pending n m ≡ true))
            × (In m s.tables.messages → is_pending n m ≡ true → In m out))
pending_for_exact d n s out e = rw (pending_for-eq d n s out e) (
  order_by-IsSorted (keep (is_pending n) s.tables.messages),
  λ m. (
    λ h. keep-In (is_pending n) m s.tables.messages (order_by-In m _ h),
    λ h p. In-order_by m _ (In-keep (is_pending n) m s.tables.messages h p),
  ),
)
