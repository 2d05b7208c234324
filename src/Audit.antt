-- ===== src/Audit.antt =====
-- internal/audit/audit.go: the append-only log, chained by blake3.
pub mod Chain
pub mod Evidence
use peerbus.Prelude.{
  ℕ, suc, ◌+◌, Text, Bool, true, false, List, [], ◌∷◌, ◌++◌, Option, none, some, ◌==◌, same,
  if◌then◌else◌, ◌<◌, length, All, ◌≡◌,
}
use peerbus.Prelude.Hex.{encode, IsByte}
use peerbus.Store.{audit_last, audit_append, audit_rows}
use peerbus.Store.Schema.{AuditRow}
use peerbus.Store.Handle.{Driver, Exec, pure, ◌>>=◌, ◌>>◌}

-- lukechampine.com/blake3, of which the log uses that a digest is 32 bytes.
pub record Blake3 : Type 0 where
  pub sum256 : Text → Text
  pub length-sum256 : (x : Text) → length (sum256 x) ≡ 32
  pub bytes : (x : Text) → All IsByte (sum256 x)

module _ (h : Blake3) where
  unfoldable pub genesis_prev_hash : Text
  genesis_prev_hash = encode (h.sum256 [])

  unfoldable pub chain_hash : Text → Text → Text
  chain_hash prev_hash event = encode (h.sum256 (prev_hash ++ event))

-- The row that `Append` builds on the last one; AuditAppend sets the time.
module _ (h : Blake3) where
  unfoldable pub link : Option AuditRow → Text → AuditRow
  link (some last) event = record {
    seq = last.seq + 1;
    prev_hash = last.hash;
    hash = chain_hash h last.hash event;
    event = event;
    ts = 0;
  }
  link none event = record {
    seq = 0;
    prev_hash = genesis_prev_hash h;
    hash = chain_hash h (genesis_prev_hash h) event;
    event = event;
    ts = 0;
  }

  unfoldable pub append : Driver → Text → Exec AuditRow
  append d event = do last ← audit_last d; let row = link last event; audit_append d row; pure row

pub data Detail : Type 0 where
  seq_out_of_order : ℕ → Detail
  prev_hash_mismatch hash_mismatch : Text → Text → Detail

-- The first point at which the chain fails.
pub record Break : Type 0 where
  pub index : ℕ
  pub seq : ℕ
  pub detail : Detail

module _ (h : Blake3) where
  -- The loop of `verify`, from index `i` on, with the hash that the next row must name.
  unfoldable pub walk : ℕ → Text → List AuditRow → Option Break
  walk i want [] = none
  walk i want (r ∷ rs) =
      let rest = walk (suc i) r.hash rs in
      let got = chain_hash h r.prev_hash r.event in
      if r.seq == i
      then if same r.prev_hash want
        then if same got r.hash
          then rest
          else some (record { index = i; seq = r.seq; detail = hash_mismatch r.hash got })
        else some (record { index = i; seq = r.seq; detail = prev_hash_mismatch r.prev_hash want })
      else some (record { index = i; seq = i; detail = seq_out_of_order r.seq })

  unfoldable pub verify : Driver → Exec (Option Break)
  unfolding walk
  verify d = do rows ← audit_rows d; pure (walk 0 (genesis_prev_hash h) rows)
