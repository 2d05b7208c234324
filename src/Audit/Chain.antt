-- ===== src/Audit/Chain.antt =====
-- internal/audit/audit.go: `Append`, `Verify`, and the chain between them.
use peerbus.Prelude.{
  ℕ, suc, ◌+◌, ◌≡◌, ◌⊎◌, inl, inr, Text, false, List, [], ◌∷◌, ◌++◌, Option, none, some, arith,
  refl, sym, ◌∙◌, ◌<◌, ◌≤◌, length,
}
use peerbus.Audit.{Blake3, Break, genesis_prev_hash, chain_hash, link, append, walk, verify}
use peerbus.Store.{audit_last, audit_append, audit_rows}
use peerbus.Store.Schema.{Tables, AuditRow, newest, has_seq, by_seq, insert_by_seq}
use peerbus.Store.Handle.{Driver, Store, ok}

module _ (h : Blake3) where
  -- Each row is numbered by its place, names the hash of the row before, and carries its own hash.
  abbrev pub Chained : ℕ → Text → List AuditRow → Type 0
  Chained i want [] = Unit
  Chained i want (r ∷ rs) =
      (r.seq ≡ i)
      × (r.prev_hash ≡ want)
      × (r.hash ≡ chain_hash h r.prev_hash r.event)
      × Chained (suc i) r.hash rs

  walk-Chained :
      (i : ℕ) (want : Text) (rs : List AuditRow) → walk h i want rs ≡ none → Chained i want rs
  unfolding walk
  walk-Chained i want [] e = tt
  walk-Chained i want (r ∷ rs) e = ground (arith, walk-Chained (suc i) r.hash rs)

  Chained-walk :
      (i : ℕ) (want : Text) (rs : List AuditRow) → Chained i want rs → walk h i want rs ≡ none
  unfolding walk
  Chained-walk i want [] c = refl
  Chained-walk i want (r ∷ rs) c = ground (arith, Chained-walk (suc i) r.hash rs c.3)

  -- The last row of a chain, and where the next one goes.
  abbrev end_hash : Text → List AuditRow → Text
  end_hash want [] = want
  end_hash want (r ∷ rs) = end_hash r.hash rs

  Chained-append :
      (i : ℕ) (want : Text) (rs : List AuditRow) (r : AuditRow)
      → Chained i want rs
      → r.seq ≡ i + length rs
      → r.prev_hash ≡ end_hash want rs
      → r.hash ≡ chain_hash h r.prev_hash r.event
      → Chained i want (rs ++ r ∷ [])
  Chained-append i want [] r c s p e = (omega arith, p, e, tt)
  Chained-append i want (x ∷ rs) r c s p e =
      (c.0, c.1, c.2, Chained-append (suc i) x.hash rs r c.3 (omega arith) p e)

  -- What `newest` finds of a chain: nothing if it is empty, else the row at its end.
  abbrev Ends : ℕ → Text → List AuditRow → Option AuditRow → Type 0
  Ends i want rs none = rs ≡ []
  Ends i want rs (some x) = (x.seq + 1 ≡ i + length rs) × (x.hash ≡ end_hash want rs) × (i ≤ x.seq)

  newest-Ends :
      (i : ℕ) (want : Text) (rs : List AuditRow) → Chained i want rs → Ends i want rs (newest rs)
  unfolding newest
  newest-Ends i want [] c = refl
  newest-Ends i want (r ∷ rs) c = ground (arith, newest-Ends (suc i) r.hash rs c.3)

  has_seq-Chained :
      (i n : ℕ) (want : Text) (rs : List AuditRow)
      → Chained i want rs
      → i + length rs ≤ n
      → has_seq n rs ≡ false
  unfolding has_seq
  has_seq-Chained i n want [] c b = refl
  has_seq-Chained i n want (r ∷ rs) c b =
      ground (arith, has_seq-Chained (suc i) n r.hash rs c.3 (omega arith))

  -- A chain is in the order of its numbers.
  insert_by_seq-Chained :
      (r : AuditRow) (i : ℕ) (want : Text) (rs : List AuditRow)
      → r.seq < i
      → Chained i want rs
      → insert_by_seq r rs ≡ r ∷ rs
  unfolding insert_by_seq
  insert_by_seq-Chained r i want [] b c = refl
  insert_by_seq-Chained r i want (x ∷ rs) b c = ground arith

  by_seq-Chained : (i : ℕ) (want : Text) (rs : List AuditRow) → Chained i want rs → by_seq rs ≡ rs
  unfolding by_seq
  by_seq-Chained i want [] c = refl
  by_seq-Chained i want (r ∷ rs) c = ground (
    arith,
    by_seq-Chained (suc i) r.hash rs c.3,
    insert_by_seq-Chained r (suc i) r.hash rs (omega arith) c.3,
  )

  abbrev pub IsChain : Tables → Type 0
  IsChain t = Chained 0 (genesis_prev_hash h) t.audit

  -- If `verify` runs without an error of the store, it finds no break exactly when the table, in the
  -- order of its numbers, is a chain from genesis.
  pub verify_exact :
      (d : Driver) (s : Store) (b : Option Break)
      → (verify h d s).0 ≡ ok b
      → (b ≡ none → Chained 0 (genesis_prev_hash h) (by_seq s.tables.audit))
        × (Chained 0 (genesis_prev_hash h) (by_seq s.tables.audit) → b ≡ none)
  unfolding verify audit_rows
  verify_exact d s b e =
      let q : b ≡ walk h 0 (genesis_prev_hash h) (by_seq s.tables.audit) = ground arith in
      (
        λ n. walk-Chained 0 (genesis_prev_hash h) (by_seq s.tables.audit) (sym q ∙ n),
        λ c. q ∙ Chained-walk 0 (genesis_prev_hash h) (by_seq s.tables.audit) c,
      )

  -- The table after a call of `append`: as before, or one row longer.
  pub appended : Driver → Text → Store → Tables
  unfolding link
  appended d event s = record s.tables {
    audit =
        s.tables.audit
        ++ record (link h (newest s.tables.audit) event) { ts = d.now (s.calls + 1) } ∷ [];
  }

  append-cases :
      (d : Driver) (event : Text) (s : Store)
      → ((append h d event s).1.tables ≡ s.tables)
        ⊎ ((has_seq (link h (newest s.tables.audit) event).seq s.tables.audit ≡ false)
            × ((append h d event s).1.tables ≡ appended d event s))
  unfolding append audit_last audit_append appended
  append-cases d event s = ground arith

  -- Nothing but the log changes.
  pub append-queue :
      (d : Driver) (event : Text) (s : Store)
      → (append h d event s).1.tables
        ≡ record s.tables { audit = (append h d event s).1.tables.audit }
  unfolding append audit_last audit_append
  append-queue d event s = ground arith

  appended-link :
      (rs : List AuditRow) (last : Option AuditRow) (event : Text) (ts : ℕ)
      → Chained 0 (genesis_prev_hash h) rs
      → Ends 0 (genesis_prev_hash h) rs last
      → Chained 0 (genesis_prev_hash h) (rs ++ record (link h last event) { ts = ts } ∷ [])
  unfolding link
  appended-link rs none event ts c e = rw e (refl, refl, refl, tt)
  appended-link rs (some x) event ts c e =
      Chained-append 0 (genesis_prev_hash h) rs (record (link h (some x) event) { ts = ts }) c e.0
        e.1 refl

  -- Whether it succeeds or fails, `append` to a log that is a chain leaves a chain.
  pub append-IsChain :
      (d : Driver) (event : Text) (s : Store)
      → IsChain s.tables
      → IsChain (append h d event s).1.tables
  unfolding appended
  append-IsChain d event s c = elim (append-cases d event s) [
    | inl e ↦ rw e c
    | inr (f, e) ↦ rw e (
        appended-link s.tables.audit (newest s.tables.audit) event (d.now (s.calls + 1)) c
          (newest-Ends 0 (genesis_prev_hash h) s.tables.audit c))
  ]

  -- After an `append` to a log that is a chain, `verify` finds no break, if the store is open and
  -- the query of the rows does not fail.
  pub verify-append :
      (d : Driver) (event : Text) (s : Store)
      → IsChain s.tables
      → (append h d event s).1.closed ≡ false
      → d.fails (append h d event s).1.calls ≡ false
      → (verify h d (append h d event s).1).0 ≡ ok none
  unfolding verify audit_rows
  verify-append d event s c o f =
      let c' = append-IsChain d event s c in
      ground (
        arith,
        by_seq-Chained 0 (genesis_prev_hash h) (append h d event s).1.tables.audit c',
        Chained-walk 0 (genesis_prev_hash h) (append h d event s).1.tables.audit c',
      )
