-- ===== src/Adapter/Resume/Run.antt =====
-- internal/adapter/reconnect.go: the redials of `connect`, and the outer loop of `Run`.
use peerbus.Prelude.{
  ℕ, suc, ◌+◌, ◌/◌, ◌%◌, Bool, true, false, List, [], ◌∷◌, Option, none, some, length,
  if◌then◌else◌,
}
use peerbus.Wire.Control.{Deliver}
use peerbus.Adapter.Client.{World, Client, Config, Error, Read, connect, new_client, name_claimed}
use peerbus.Adapter.Resume.{Session, next_backoff, base_backoff, pump}

-- A dial and its first read, the draw of the jitter, and whether the context is cancelled by then, or
-- during the wait.
pub record Attempt : Type 0 where
  pub dialled : Bool
  pub reply : Read
  pub draw : ℕ
  pub cancelled : Bool
  pub interrupted : Bool

-- How the redials end, or that there are none left.
pub data Connected : Type 0 where
  connected : Client → Connected
  refused : Error → Connected
  given_up dialling : Connected

abbrev pub is_name_claimed : Error → Bool
is_name_claimed name_claimed = true
is_name_claimed _ = false

-- Milliseconds: the backoff, and a jitter of up to half of it.
unfoldable pub wait : ℕ → ℕ → ℕ
wait backoff draw = backoff + draw % (backoff / 2 + 1)

-- One turn of `Run`: the attempts, what the connection reads, and whether the context is cancelled
-- when it drops.
pub record Turn : Type 0 where
  pub attempts : List Attempt
  pub reads : List Read
  pub cancelled : Bool

-- How Run ends, or that it goes on.
pub data End : Type 0 where
  going : End
  stopped : End
  ended : Error → End

module _ (w : World) where
  -- `rest` is what the later attempts come to.
  unfoldable pub after_attempt :
      Option Error × Client → Attempt → ℕ → Connected × List ℕ → Connected × List ℕ
  after_attempt (none, c) a backoff rest = (connected c, [])
  after_attempt (some e, c) a backoff rest =
      if is_name_claimed e
      then (refused e, [])
      else if a.cancelled
      then (given_up, [])
      else if a.interrupted
      then (given_up, [])
      else (rest.0, wait backoff a.draw ∷ rest.1)

  -- The loop of `connect` from a backoff on, with the waits that it made.
  unfoldable pub redial : ℕ → List Attempt → Config → Connected × List ℕ
  unfolding after_attempt
  redial backoff [] cfg = (dialling, [])
  redial backoff (a ∷ rest) cfg =
      after_attempt (connect w a.dialled a.reply (new_client cfg)) a backoff
        (redial (next_backoff backoff) rest cfg)

  -- The pump of the turn, on fuel for its reads; `rest` goes on from what it leaves.
  unfoldable pub turned :
      (ℕ → Deliver → Bool)
      → Connected
      → Turn
      → Session
      → (Session → Option (End × Session))
      → Option (End × Session)
  turned handler dialling t s rest = some (going, s)
  turned handler given_up t s rest = some (stopped, s)
  turned handler (refused e) t s rest = some (ended e, s)
  turned handler (connected c) t s rest =
      elim (pump w (suc (length t.reads)) handler t.reads (record s { client = c })) [
        | none ↦ none
        | some s' ↦ if t.cancelled then some (stopped, s') else rest s'
      ]

  unfoldable pub run : Config → (ℕ → Deliver → Bool) → List Turn → Session → Option (End × Session)
  unfolding turned
  run cfg handler [] s = some (going, s)
  run cfg handler (t ∷ ts) s =
      turned handler (redial base_backoff t.attempts cfg).0 t s (λ s'. run cfg handler ts s')
