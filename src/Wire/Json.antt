-- ===== src/Wire/Json.antt =====
-- The JSON values that encoding/json reads and writes for the structs of internal/wire.
use peerbus.Prelude.{Text}

mutual
  -- `raw` is a compact literal that is spliced in verbatim (json.RawMessage, numbers, Booleans).
  pub data Json : Type 0 where
    null : Json
    str : Text → Json
    raw : Text → Json
    arr : Items → Json
    obj : Members → Json

  pub data Items : Type 0 where
    nil : Items
    cons : Json → Items → Items

  pub data Members : Type 0 where
    end : Members
    member : Text → Json → Members → Members
