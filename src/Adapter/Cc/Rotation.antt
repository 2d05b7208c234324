-- ===== src/Adapter/Cc/Rotation.antt =====
-- internal/adapter/cc.go: the names that the probes try, and how the probes end.
use peerbus.Prelude.{
  ℕ, ◌≤◌, ◌≡◌, ◌⊎◌, Text, is_empty, true, false, List, [], ◌∷◌, Option, none, some, length,
}
use peerbus.Channel.Names.{IsFriendly}
use peerbus.Adapter.Client.{World, Config}
use peerbus.Adapter.Cc.{
  Probed, bound, failed, exhausted, override_rejected, Network, is_name_claimed, probe_connect,
}

module _ (w : World) (net : Network) (override : Text) where
  -- The configuration of the start, or, where PEERBUS_NAME is not set, one that differs from it by a
  -- minted name.
  abbrev pub Rightful : Config → Config → Type 0
  Rightful cfg c =
      (c ≡ cfg)
      ⊎ ((is_empty override ≡ true) × ((n : Text) × IsFriendly n × (c ≡ record cfg { name = n })))

  -- How the probes may end, with the names that were tried.
  abbrev pub Ends : Config → Option (Probed × List Text) → Type 0
  Ends cfg none = ⊥
  Ends cfg (some (bound c, tried)) =
      (length tried ≤ 7) × ((i : ℕ) × (probe_connect w net override i c ≡ none)) × Rightful cfg c
  Ends cfg (some (failed e, tried)) = (length tried ≤ 7) × (is_name_claimed e ≡ false)
  Ends cfg (some (exhausted n, tried)) = length tried ≡ 7
  Ends cfg (some (override_rejected n, tried)) =
      (length tried ≡ 1) × (is_empty override ≡ false) × (n ≡ cfg.name)

-- The name of the first probe: that of the configuration, or PEERBUS_NAME, or a minted one.
abbrev pub IsFirst : Text → Text → Text → Type 0
IsFirst (c ∷ name) override n = n ≡ c ∷ name
IsFirst [] (c ∷ override) n = n ≡ c ∷ override
IsFirst [] [] n = IsFriendly n
