-- ===== src/Plugin/Idle.antt =====
-- The timeout of an idle session (`timeoutThread` of the Spark plugin's `SparkPlugListener`).
use spark_plug.Common.{
  ℕ, ◌+◌, ◌-◌, ◌*◌, ◌^◌, ◌≤◌, ◌<◌, pos, negsuc, ◌≡◌, ◌↔◌, Bool, true, false, arith, inl, inr, leb,
  Bool-cases,
}
use spark_plug.Server.{as_i64}
use spark_plug.Plugin.{Driver, idle_limit, is_idle, timeout_round}

-- The clock and the timeout are below 2^62 milliseconds, some 146 million years.
abbrev pub IsInRange : ℕ → ℕ → Type 0
IsInRange now timeout = (now < 2 ^ 62) × (timeout * 1000 < 2 ^ 62)

limit_after :
    (now timeout : ℕ)
    → IsInRange now timeout
    → timeout * 1000 ≤ now
    → idle_limit now timeout ≡ pos (now - timeout * 1000)
unfolding idle_limit as_i64
limit_after now timeout h k = ground arith

limit_before :
    (now timeout : ℕ)
    → IsInRange now timeout
    → now < timeout * 1000
    → idle_limit now timeout ≡ negsuc (timeout * 1000 - now - 1)
unfolding idle_limit as_i64
limit_before now timeout h k = ground arith

-- In that range the time is compared as it is meant to be.
pub is_idle_iff :
    (last now timeout : ℕ)
    → IsInRange now timeout
    → (is_idle last now timeout ≡ true) ↔ (last + timeout * 1000 < now)
is_idle_iff last now timeout h = elim (Bool-cases (leb (timeout * 1000) now)) [
  | inl e ↦ rw (limit_after now timeout h (ground arith)) (ground arith)
  | inr e ↦ rw (limit_before now timeout h (ground arith)) (ground arith)
]

-- The first time at which the thread may stop the session.
abbrev pub deadline : Driver → ℕ → ℕ
deadline d timeout = d.config.last_active + timeout * 1000

pub round_waits :
    (timeout now : ℕ) (d : Driver)
    → IsInRange now timeout
    → now ≤ deadline d timeout
    → timeout_round timeout now false d ≡ d
unfolding timeout_round
round_waits timeout now d h k = ground (arith, is_idle_iff d.config.last_active now timeout h)

pub round_stops :
    (timeout now : ℕ) (d : Driver)
    → IsInRange now timeout
    → deadline d timeout < now
    → (timeout_round timeout now false d).stopped ≡ true
unfolding timeout_round
round_stops timeout now d h k = ground (arith, is_idle_iff d.config.last_active now timeout h)

pub round_stopped :
    (timeout now : ℕ) (active : Bool) (d : Driver)
    → IsInRange now timeout
    → d.watched ≡ true
    → (timeout_round timeout now active d).watched ≡ false
    → (active ≡ false) × (deadline d timeout < now)
unfolding timeout_round
round_stopped timeout now active d h w e =
    ground (arith, is_idle_iff d.config.last_active now timeout h)
