-- ===== src/Examples/OfAudit.antt =====
-- internal/audit at concrete inputs.
use peerbus.Prelude.{◌≡◌, ◌⊎◌, refl, text, Text-discrete, false, [], ◌∷◌, Option, none}
use peerbus.Prelude.Hex.{encode, digit}
use peerbus.Audit.{Break, genesis_prev_hash, chain_hash, link, append, verify, walk}
use peerbus.Audit.Chain.{Chained, verify_exact, verify-append}
use peerbus.Audit.Evidence.{SameLog, Collision, chain_tamper_evident}
use peerbus.Store.{audit_last, audit_append, audit_rows}
use peerbus.Store.Schema.{AuditRow, newest, by_seq, insert_audit, has_seq}
use peerbus.Store.Handle.{Store, ok}
use peerbus.Fixtures.{blake3, driver, store}

-- The handle after one append.
logged : Store
logged = (append blake3 driver (text "accept") store).1

abbrev no_break : Option Break
no_break = none

logged-verify : (verify blake3 driver logged).0 ≡ ok no_break
unfolding logged verify walk append link audit_last audit_append audit_rows newest by_seq
    insert_audit has_seq genesis_prev_hash chain_hash encode digit Text-discrete
logged-verify = refl

verify_exact_example :
    ((no_break ≡ none) → Chained blake3 0 (genesis_prev_hash blake3) (by_seq logged.tables.audit))
    × (Chained blake3 0 (genesis_prev_hash blake3) (by_seq logged.tables.audit) → no_break ≡ none)
verify_exact_example = verify_exact blake3 driver logged no_break logged-verify

open_after : (append blake3 driver (text "accept") store).1.closed ≡ false
unfolding append audit_last audit_append link newest chain_hash encode genesis_prev_hash
open_after = refl

verify-append_example :
    (verify blake3 driver (append blake3 driver (text "accept") store).1).0 ≡ ok none
verify-append_example = verify-append blake3 driver (text "accept") store tt open_after refl

first_row : AuditRow
first_row = link blake3 none (text "accept")

-- The same row, written at another time.
later_row : AuditRow
later_row = record (link blake3 none (text "accept")) { ts = 9 }

one_row : Chained blake3 0 (genesis_prev_hash blake3) (first_row ∷ [])
unfolding first_row link
one_row = (refl, refl, refl, tt)

other_row : Chained blake3 0 (genesis_prev_hash blake3) (later_row ∷ [])
unfolding later_row link
other_row = (refl, refl, refl, tt)

one_hash : first_row.hash ≡ later_row.hash
unfolding first_row later_row
one_hash = refl

chain_tamper_evident_example :
    SameLog (first_row ∷ []) (later_row ∷ []) ⊎ Collision blake3 (first_row ∷ []) (later_row ∷ [])
chain_tamper_evident_example =
    chain_tamper_evident blake3 (first_row ∷ []) (later_row ∷ []) one_row other_row refl one_hash
