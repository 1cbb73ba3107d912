-- ===== src/Server.antt =====
-- server/src/lib.rs: the maintenance commands `prune` and `check`.
pub mod Prune
pub mod Check
pub mod Marks
pub mod Run
pub mod Startup
pub mod Start
use spark_plug.Common.{
  ℕ, zero, suc, ◌+◌, ◌-◌, ◌%◌, ◌^◌, ℤ, pos, negsuc, ◌-ℤ◌, pos_part, neg_part, String, Bool, true,
  false, not, ◌&&◌, ◌||◌, Option, none, some, List, [], ◌∷◌, if◌then◌else◌, is_some, Result, ok,
  err, le_int, ok_or, leb, ltb,
}
use spark_plug.Application.{State, running, failed, finished, state_eq, DateTime, Model}
use spark_plug.Database.{Database, DbResult, has_id}
use spark_plug.Proxy.Upstream.{mark_failed}

-- `as i64`, of a `u64`.
unfoldable pub as_i64 : ℕ → ℤ
as_i64 n = if ltb n (2 ^ 63) then pos n else negsuc (2 ^ 64 - 1 - n)

abbrev pub i64_max : ℕ
i64_max = 2 ^ 63 - 1

-- The nearest `i64` to an integer.
abbrev pub saturate : ℤ → ℤ
saturate (pos n) = if leb n i64_max then pos n else pos i64_max
saturate (negsuc n) = if leb n i64_max then negsuc n else negsuc i64_max

-- `i64::saturating_sub`
unfoldable pub saturating_sub : ℤ → ℤ → ℤ
saturating_sub a b = saturate (a -ℤ b)

-- The argument of `from_timestamp` in `prune`: the clock's seconds and the threshold.
unfoldable pub cutoff_seconds : ℕ → ℕ → ℤ
unfolding as_i64 saturating_sub
cutoff_seconds now older_than_seconds = saturating_sub (as_i64 now) (as_i64 older_than_seconds)

-- The cutoff of `prune`, by the clock's seconds.
unfoldable pub cutoff_at : (ℤ → Option DateTime) → Result String ℕ → ℕ → Result String DateTime
unfolding cutoff_seconds
cutoff_at from_timestamp (err e) older_than_seconds = err e
cutoff_at from_timestamp (ok now) older_than_seconds =
    ok_or (from_timestamp (cutoff_seconds now older_than_seconds))
      "Failed to create prune cutoff timestamp"

-- The filters of `prune`.
abbrev pub is_over : Model → Bool
is_over m = state_eq m.state failed || state_eq m.state finished

abbrev pub is_pruned : DateTime → Model → Bool
is_pruned cutoff m = is_over m && le_int m.created_at cutoff

abbrev pub is_running : Model → Bool
is_running m = state_eq m.state running

abbrev pub health_check_retries : ℕ
health_check_retries = 3

-- The loop of `check_application_health`: the rounds left and the number of this one. The outcome
-- of `send_session_message` in each round is an argument.
unfoldable pub healthy_within :
    (ℕ → Result String (Unit {0})) → ℕ → ℕ → Option String → Result String (Unit {0})
healthy_within send zero attempt none = err "health check retries should capture the last error"
healthy_within send zero attempt (some last_error) = err last_error
healthy_within send (suc left) attempt last_error = elim (send attempt) [
  | ok u ↦ ok tt
  | err error ↦ healthy_within send left (attempt + 1) (some error)
]

unfoldable pub check_application_health : (ℕ → Result String (Unit {0})) → Result String (Unit {0})
unfolding healthy_within
check_application_health send = healthy_within send (suc health_check_retries) 0 none

abbrev pub is_err : Result String (Unit {0}) → Bool
is_err (ok u) = false
is_err (err e) = true

-- The outcome of each round's message to an address with a token, and that of the messages for each
-- application, by its id: two applications may be at one address, and two messages to it fare
-- differently.
abbrev pub Replies : Type 0
Replies = String → String → ℕ → Result String (Unit {0})

abbrev pub Health : Type 0
Health = ℤ → Replies

unfoldable pub should_fail : Replies → String → Option String → Bool
unfolding check_application_health
should_fail replies token (some address) = is_err (check_application_health (replies address token))
should_fail replies token none = true

module _ (D : Database) where
  -- `prune`, after `ensure_db`; `from_timestamp` of `chrono` is an argument, as are the seconds of
  -- `duration_since(UNIX_EPOCH)`, which fails for a clock before the epoch.
  unfoldable pub prune_at : Result String DateTime → D.Db → Result String ℕ × D.Db
  prune_at (err e) db = (err e, db)
  prune_at (ok cutoff) db = D.delete_many (is_pruned cutoff) db

  unfoldable pub prune : (ℤ → Option DateTime) → Result String ℕ → ℕ → D.Db → Result String ℕ × D.Db
  unfolding prune_at cutoff_at
  prune from_timestamp now older_than_seconds db =
      prune_at (cutoff_at from_timestamp now older_than_seconds) db

  -- The loop of `check` over the running applications, and its count.
  check_apps : Health → List Model → ℕ → D.Db → Result String ℕ × D.Db
  unfolding should_fail
  check_apps health [] failed_count db = (ok failed_count, db)
  check_apps health (app ∷ apps) failed_count db =
      let (r, db') = D.update app.id mark_failed db in
      let skipped = check_apps health apps failed_count db in
      let marked = check_apps health apps (failed_count + 1) db' in
      if should_fail (health app.id) app.token app.address
      then (elim r [ ok m ↦ marked | err e ↦ (err e, db') ])
      else skipped

  check_found : Health → DbResult (List Model) → D.Db → Result String ℕ × D.Db
  unfolding check_apps
  check_found health (err e) db = (err e, db)
  check_found health (ok running_apps) db = check_apps health running_apps 0 db

  unfoldable pub check : Health → D.Db → Result String ℕ × D.Db
  unfolding check_found
  check health db = check_found health (D.find_all is_running db) db
