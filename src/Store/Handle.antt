-- ===== src/Store/Handle.antt =====
-- internal/store/store.go: the store handle, and calls of the database that may fail. What a call
-- changed before it failed comes back beside the error.
use peerbus.Prelude.{ℕ, ◌+◌, Bool, true, false, Option, none, some, if◌then◌else◌}
use peerbus.Store.Schema.{Tables}

-- What the store relies on and does not implement: the SQLite driver, of which the n-th statement
-- may fail, and the clock.
pub record Driver : Type 0 where
  pub fails : ℕ → Bool
  pub now : ℕ → ℕ

pub record Store : Type 0 where
  pub tables : Tables
  pub closed : Bool
  pub calls : ℕ

pub data Error : Type 0 where
  closed_store unknown_peer duplicate_id empty_name missing_field database : Error

pub data Result (A : Type 0) : Type 0 where
  ok : A → Result A
  err : Error → Result A

abbrev pub Exec : Type 0 → Type 0
Exec A = Store → Result A × Store

abbrev pub pure : {A : Type 0} → A → Exec A
pure a s = (ok a, s)

abbrev pub raise : {A : Type 0} → Error → Exec A
raise e s = (err e, s)

abbrev pub gets : {A : Type 0} → (Store → A) → Exec A
gets f s = (ok (f s), s)

abbrev pub continue : {A B : Type 0} → Result A → (A → Exec B) → Exec B
continue (ok a) f s = f a s
continue (err e) f s = (err e, s)

infixl 5 ◌>>=◌ ◌>>◌
abbrev pub ◌>>=◌ : {A B : Type 0} → Exec A → (A → Exec B) → Exec B
◌>>=◌ m f s = let (r, s') = m s in continue r f s'

abbrev pub ◌>>◌ : {A B : Type 0} → Exec A → Exec B → Exec B
m >> k = m >>= λ _. k

abbrev pub guard : Bool → Error → Exec (Unit {0})
guard true e = pure tt
guard false e = raise e

-- One more statement was run.
abbrev pub count_call : Store → Store
count_call s = record s { calls = s.calls + 1 }

module _ (d : Driver) where
  -- A statement that reads.
  unfoldable pub query : {A : Type 0} → (Tables → A) → Exec A
  query f s =
      if d.fails s.calls then (err database, count_call s) else (ok (f s.tables), count_call s)

  abbrev written : Store → Option Tables → Result (Unit {0}) × Store
  written s none = (err database, s)
  written s (some t) = (ok tt, record s { tables = t })

  -- A statement that writes; `none` is a violated constraint.
  unfoldable pub statement : (Tables → Option Tables) → Exec (Unit {0})
  statement f s =
      if d.fails s.calls then (err database, count_call s) else written (count_call s) (f s.tables)

  abbrev settle : {A : Type 0} → Tables → Result A → Store → Result A × Store
  settle t (err e) s = (err e, record s { tables = t })
  settle t (ok a) s =
      if d.fails s.calls
      then (err database, record (count_call s) { tables = t })
      else (ok a, count_call s)

  -- BEGIN, the body, then COMMIT; an error on the way, or of the commit, rolls back.
  unfoldable pub transaction : {A : Type 0} → Exec A → Exec A
  transaction m s =
      if d.fails s.calls
      then (err database, count_call s)
      else let (r, s') = m (count_call s) in settle s.tables r s'

  -- nowNanos
  unfoldable pub now_nanos : Exec ℕ
  now_nanos s = (ok (d.now s.calls), s)
