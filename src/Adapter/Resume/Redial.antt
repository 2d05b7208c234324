-- ===== src/Adapter/Resume/Redial.antt =====
-- internal/adapter/reconnect.go: the waits between the redials, and how the redials end.
use peerbus.Prelude.{
  ℕ, ◌+◌, ◌/◌, ◌≤◌, ◌≡◌, inl, inr, true, List, [], ◌∷◌, Option, none, some, arith, refl, length,
  All, Bool-cases, ◌⊎◌, ◌≢◌, ◌++◌, ap, sym, false,
}
use mathlib.Core.Path.{subst}
use native.Mathlib.Nat.{mod-lt}
use peerbus.Adapter.Client.{
  World, Client, Config, Error, connect, new_client, not_connected, write_failed, read_failed,
  hmac_error, dial_failed, name_claimed, register_rejected, ack_not_text, unexpected_ack,
  deliver_decode, missing_delivery_key, inbound_hmac, peers_decode,
}
use peerbus.Adapter.Resume.{next_backoff, base_backoff}
use peerbus.Adapter.Resume.Run.{
  Attempt, Connected, connected, refused, given_up, dialling, is_name_claimed, wait, after_attempt,
  redial,
}

-- Between the base, and the bound with its jitter.
abbrev pub IsWait : ℕ → Type 0
IsWait t = (100 ≤ t) × (t ≤ 7500)

wait-IsWait : (backoff draw : ℕ) → 100 ≤ backoff → backoff ≤ 5000 → IsWait (wait backoff draw)
unfolding wait
wait-IsWait backoff draw l u =
    let m = mod-lt draw {m = backoff / 2 + 1} (omega arith) in (omega arith, omega (arith, m))

next_backoff-bounds :
    (b : ℕ) → 100 ≤ b → b ≤ 5000 → (100 ≤ next_backoff b) × (next_backoff b ≤ 5000)
unfolding next_backoff
next_backoff-bounds b l u = ground arith

claimed-eq : (e : Error) → is_name_claimed e ≡ true → e ≡ name_claimed
claimed-eq not_connected h = ground arith
claimed-eq write_failed h = ground arith
claimed-eq read_failed h = ground arith
claimed-eq dial_failed h = ground arith
claimed-eq name_claimed h = refl
claimed-eq register_rejected h = ground arith
claimed-eq ack_not_text h = ground arith
claimed-eq unexpected_ack h = ground arith
claimed-eq deliver_decode h = ground arith
claimed-eq missing_delivery_key h = ground arith
claimed-eq inbound_hmac h = ground arith
claimed-eq peers_decode h = ground arith
claimed-eq (hmac_error x) h = ground arith

false-ne-claimed : (e : Error) → is_name_claimed e ≡ false → e ≢ name_claimed
false-ne-claimed e h p = ground (arith, h, ap is_name_claimed p)

module _ (w : World) (cfg : Config) where
  -- The attempt fails, not over the name, and neither it nor its wait was cancelled.
  abbrev pub GoesOn : Attempt → Type 0
  GoesOn a =
      (e : Error) × ((connect w a.dialled a.reply (new_client cfg)).0 ≡ some e)
      × (e ≢ name_claimed)
      × (a.cancelled ≡ false)
      × (a.interrupted ≡ false)

  -- The first of the attempts ends the redials so; without attempts they go on.
  abbrev pub Ends : List Attempt → Connected → Type 0
  Ends [] dialling = Unit
  Ends [] (connected c) = ⊥
  Ends [] (refused e) = ⊥
  Ends [] given_up = ⊥
  Ends (a ∷ later) (connected c) = connect w a.dialled a.reply (new_client cfg) ≡ (none, c)
  Ends (a ∷ later) (refused e) =
      ((connect w a.dialled a.reply (new_client cfg)).0 ≡ some e) × (e ≡ name_claimed)
  Ends (a ∷ later) given_up =
      (e : Error) × ((connect w a.dialled a.reply (new_client cfg)).0 ≡ some e)
      × (e ≢ name_claimed)
      × ((a.cancelled ≡ true) ⊎ (a.interrupted ≡ true))
  Ends (a ∷ later) dialling = ⊥

  -- Behind the attempts that were tried and went on, with one wait each, comes the end.
  abbrev pub Result : List Attempt → Connected × List ℕ → Type 0
  Result attempts (r, waits) =
      (tried : List Attempt) × (later : List Attempt) × (attempts ≡ tried ++ later)
      × All GoesOn tried
      × Ends later r
      × All IsWait waits
      × (length waits ≡ length tried)

  module _ (e : Error) (c : Client) (a : Attempt) (b : ℕ) (rest : Connected × List ℕ)
      (other : is_name_claimed e ≡ false) where
    after_attempt-given_up :
        (a.cancelled ≡ true) ⊎ (a.interrupted ≡ true)
        → after_attempt w (some e, c) a b rest ≡ (given_up, [])
    unfolding after_attempt
    after_attempt-given_up h = ground arith

    after_attempt-later :
        a.cancelled ≡ false
        → a.interrupted ≡ false
        → after_attempt w (some e, c) a b rest ≡ (rest.0, wait b a.draw ∷ rest.1)
    unfolding after_attempt
    after_attempt-later y z = ground arith

  after_attempt-Result :
      (a : Attempt) (o : Option Error × Client) (b : ℕ) (rest : Connected × List ℕ)
      (attempts : List Attempt)
      → connect w a.dialled a.reply (new_client cfg) ≡ o
      → 100 ≤ b
      → b ≤ 5000
      → Result attempts rest
      → Result (a ∷ attempts) (after_attempt w o a b rest)
  unfolding after_attempt
  after_attempt-Result a (none, c) b rest attempts q l u h =
      ([], a ∷ attempts, refl, tt, q, tt, refl)
  after_attempt-Result a (some e, c) b rest attempts q l u (tried, later, s, g, h, k, n) =
      elim (Bool-cases (is_name_claimed e)) [
        | inl x ↦
            rw (x, after_attempt)
              ([], a ∷ attempts, refl, tt, (ap (λ o. o.0) q, claimed-eq e x), tt, refl)
        | inr x ↦
            let failed = ap (λ o. o.0) q in
            let other = false-ne-claimed e x in
            elim (Bool-cases a.cancelled) [
              | inl y ↦
                  subst (Result (a ∷ attempts))
                    (sym (after_attempt-given_up e c a b rest x (inl y)))
                    ([], a ∷ attempts, refl, tt, (e, failed, other, inl y), tt, refl)
              | inr y ↦ elim (Bool-cases a.interrupted) [
                | inl z ↦
                    subst (Result (a ∷ attempts))
                      (sym (after_attempt-given_up e c a b rest x (inr z)))
                      ([], a ∷ attempts, refl, tt, (e, failed, other, inr z), tt, refl)
                | inr z ↦
                    subst (Result (a ∷ attempts)) (sym (after_attempt-later e c a b rest x y z)) (
                      a ∷ tried,
                      later,
                      ap (◌∷◌ a) s,
                      ((e, failed, other, y, z), g),
                      h,
                      (wait-IsWait b _ l u, k),
                      omega (arith, n),
                    )
              ]
            ]
      ]

  redial-from :
      (b : ℕ) (attempts : List Attempt)
      → 100 ≤ b
      → b ≤ 5000
      → Result attempts (redial w b attempts cfg)
  unfolding redial
  redial-from b [] l u = ([], [], refl, tt, tt, tt, refl)
  redial-from b (a ∷ attempts) l u =
      let (l', u') = next_backoff-bounds b l u in
      after_attempt-Result a (connect w a.dialled a.reply (new_client cfg)) b
        (redial w (next_backoff b) attempts cfg) attempts refl l u
        (redial-from (next_backoff b) attempts l' u')

  -- The redials go on while an attempt fails, not over the name, and nothing is cancelled, with one
  -- wait of 100 to 7500 milliseconds behind each such attempt. The first other attempt ends them: with
  -- the client that it connected, with the refusal of the name that it met, or, where it failed and it
  -- or its wait was cancelled, with the context's error.
  pub redial-Result :
      (attempts : List Attempt) → Result attempts (redial w base_backoff attempts cfg)
  redial-Result attempts = redial-from base_backoff attempts (omega arith) (omega arith)
