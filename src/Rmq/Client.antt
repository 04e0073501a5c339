-- ===== src/Rmq/Client.antt =====
-- backend/internal/rmq/client.go: the configuration, the states of a client, and the attempts to
-- connect. What the broker and the clock do in each attempt is an argument.
pub mod Dials
use whaticket_community.Prelude.{
  ℕ, zero, suc, ◌+◌, Bool, true, false, Option, none, some, Bytes, if◌then◌else◌, ℤ, pos, negsuc,
}

pub data State : Type 0 where
  disconnected connecting connected disabled shutting_down : State

-- Durations are in milliseconds.
pub record Config : Type 0 where
  pub reconnect_attempts : ℕ
  pub reconnect_backoff : ℕ
  pub publish_confirm_timeout : ℕ
  pub prefetch_count : ℕ

-- The numbers that the configuration gives.
pub record RawConfig : Type 0 where
  pub reconnect_attempts : ℤ
  pub reconnect_backoff : ℤ
  pub publish_confirm_timeout : ℤ
  pub prefetch_count : ℤ

-- `if x <= 0 { x = fallback }`
unfoldable pub positive_or : ℕ → ℤ → ℕ
positive_or fallback (pos zero) = fallback
positive_or fallback (pos (suc n)) = suc n
positive_or fallback (negsuc n) = fallback

abbrev pub default_reconnect_attempts : ℕ
default_reconnect_attempts = 10

abbrev pub default_reconnect_backoff : ℕ
default_reconnect_backoff = 3000

abbrev pub default_publish_confirm_timeout : ℕ
default_publish_confirm_timeout = 5000

abbrev pub default_prefetch_count : ℕ
default_prefetch_count = 16

-- The configuration as `New` completes it.
unfoldable pub completed : RawConfig → Config
unfolding positive_or
completed raw = record {
  reconnect_attempts = positive_or default_reconnect_attempts raw.reconnect_attempts;
  reconnect_backoff = positive_or default_reconnect_backoff raw.reconnect_backoff;
  publish_confirm_timeout = positive_or default_publish_confirm_timeout raw.publish_confirm_timeout;
  prefetch_count = positive_or default_prefetch_count raw.prefetch_count;
}

-- What comes of `amqp.Dial` and `setupChannels`.
pub data Dialed : Type 0 where
  refused setup_failed ready : Dialed

-- What an attempt meets: whether the context has ended before it and in the wait after it.
pub record Attempt : Type 0 where
  pub ended : Bool
  pub dialed : Dialed
  pub ended_waiting : Bool

pub data Verdict : Type 0 where
  up cancelled gave_up : Verdict

-- How the attempts end, with the calls of `Dial` and the waits that were begun.
pub record Dialing : Type 0 where
  pub verdict : Verdict
  pub dials : ℕ
  pub waits : ℕ

abbrev pub stop : Verdict → ℕ → ℕ → Dialing
stop verdict dials waits = record { verdict = verdict; dials = dials; waits = waits }

-- What follows a failed attempt, with the rounds that are left after it.
abbrev pub after_failure : Bool → ℕ → Dialing → ℕ → ℕ → Dialing
after_failure ended_waiting zero later dials waits = stop gave_up dials waits
after_failure ended_waiting (suc rounds) later dials waits =
    if ended_waiting then stop cancelled dials (waits + 1) else later

module _ (meets : ℕ → Attempt) where
  -- The rounds that are left from an attempt on.
  unfoldable pub attempts_from : ℕ → ℕ → ℕ → ℕ → Dialing
  attempts_from zero attempt dials waits = stop gave_up dials waits
  attempts_from (suc left) attempt dials waits =
      let later = attempts_from left (attempt + 1) (dials + 1) (waits + 1) in
      let failed = after_failure (meets attempt).ended_waiting left later (dials + 1) waits in
      if (meets attempt).ended then stop cancelled dials waits else elim (meets attempt).dialed [
        | ready ↦ stop up (dials + 1) waits
        | refused ↦ failed
        | setup_failed ↦ failed
      ]

  -- `dialAndSetup`
  unfoldable pub dial_and_setup : Config → Dialing
  unfolding attempts_from
  dial_and_setup cfg = attempts_from cfg.reconnect_attempts 1 0 0
