-- ===== src/Adapter/Dedupe.antt =====
-- internal/adapter/dedupe.go: the bounded set of message ids that the host has seen. The list runs
-- from the most to the least recently seen id; `idx` holds the keys of the map beside it. An element
-- of the list is known by its id.
pub mod Lru
use peerbus.Prelude.{
  ℕ, ◌<◌, ◌≤◌, ◌≡◌, Text, same, Bool, true, false, List, [], ◌∷◌, Option, none, some, length, ltb,
  ◌==◌, if◌then◌else◌,
}

abbrev pub default_dedupe_size : ℕ
default_dedupe_size = 4096

pub record Dedupe : Type 0 where
  pub max : ℕ
  pub ll : List Text
  pub idx : List Text

unfoldable pub contains : Text → List Text → Bool
contains i [] = false
contains i (x ∷ xs) = if same x i then true else contains i xs

-- ll.Remove of the element with this id, and delete(d.idx, id).
unfoldable pub erase : Text → List Text → List Text
erase i [] = []
erase i (x ∷ xs) = let rest = erase i xs in if same x i then xs else x ∷ rest

unfoldable pub back : List Text → Option Text
back [] = none
back (x ∷ xs) = elim (back xs) [ none ↦ some x | some y ↦ some y ]

-- ll.Remove(ll.Back())
unfoldable pub drop_back : List Text → List Text
drop_back [] = []
drop_back (x ∷ []) = []
drop_back (x ∷ y ∷ xs) = x ∷ drop_back (y ∷ xs)

-- A negative size is 0 here.
unfoldable pub new_dedupe : ℕ → Dedupe
new_dedupe size = record {
  max = if size == 0 then default_dedupe_size else size;
  ll = [];
  idx = [];
}

evict : Option Text → Dedupe → Dedupe
evict none d = d
evict (some oldest) d = record d { ll = drop_back d.ll; idx = erase oldest d.idx }

record_new : Text → Dedupe → Dedupe
record_new id d =
    let d' : Dedupe = record d { ll = id ∷ d.ll; idx = id ∷ d.idx } in
    if ltb d'.max (length d'.ll) then evict (back d'.ll) d' else d'

unfoldable pub seen : Text → Dedupe → Bool × Dedupe
unfolding record_new evict
seen id d =
    if contains id d.idx
    then (true, record d { ll = id ∷ erase id d.ll })
    else (false, record_new id d)

unfoldable pub len : Dedupe → ℕ
len d = length d.ll

-- reconnect.go
unfoldable pub forget : Text → Dedupe → Dedupe
forget id d = if contains id d.idx then record d { ll = erase id d.ll; idx = erase id d.idx } else d
