-- ===== src/Proxy/Upstream.antt =====
-- server/src/proxy.rs: finding the address of a session and connecting to it.
pub mod Waiting
pub mod Retries
use spark_plug.Common.{
  ℕ, zero, suc, ◌+◌, String, Bool, true, false, Option, none, some, List, [], ◌∷◌, Result, ok, err,
  ok_or, if◌then◌else◌, unwrap_or,
}
use spark_plug.Application.{State, launching, running, failed, finished, Model}
use spark_plug.Database.{Database}
use spark_plug.Error.{
  Error, application_not_found, missing_application_address, invalid_application_state, database,
  upstream_connect, upstream_handshake, internal,
}
use spark_plug.Proxy.Cache.{has_token}

abbrev pub max_upstream_connect_retries : ℕ
max_upstream_connect_retries = 3

-- The match on the state of the application: an answer, or none while it launches.
unfoldable pub address_of : State → Option String → Option (Result Error String)
address_of running address = some (ok_or address missing_application_address)
address_of launching address = none
address_of s address = some (err (invalid_application_state s))

-- `mark_application_failed`: the columns that it sets.
abbrev pub mark_failed : Model → Model
mark_failed m = record m { address = none; state = failed }

-- The errors after which the loop of `resolve_upstream_connection` tries again.
abbrev pub is_retried : Error → Bool
is_retried (upstream_connect _) = true
is_retried (upstream_handshake _) = true
is_retried _ = false

-- How that loop ends. A connection is a number.
pub data Attempts : Type 0 where
  connected : ℕ → Attempts
  refused : Error → Attempts
  exhausted : Option Error → Attempts

abbrev round : Result Error ℕ → Option Error → (Option Error → Attempts) → Attempts
round (ok sender) last_error more = connected sender
round (err error) last_error more =
    let again = more (some error) in if is_retried error then again else refused error

-- The rounds that are left, the number of this one, and `last_error`; the outcome of
-- `connect_upstream` in each round is an argument.
unfoldable pub attempts : (ℕ → Result Error ℕ) → ℕ → ℕ → Option Error → Attempts
attempts connect zero attempt last_error = exhausted last_error
attempts connect (suc left) attempt last_error =
    round (connect attempt) last_error (λ last. attempts connect left (attempt + 1) last)

module _ (D : Database) where
  -- One look of the loop of `resolve_upstream_address`: whether the requests' channel is closed,
  -- and the database at that moment.
  abbrev pub Poll : Type 0
  Poll = Bool × D.Db

  abbrev verdict_of : Result String (Option Model) → Option (Result Error String)
  verdict_of (err e) = some (err (database e))
  verdict_of (ok none) = some (err application_not_found)
  verdict_of (ok (some app)) = address_of app.state app.address

  unfoldable pub verdict : String → Poll → Option (Result Error String)
  unfolding address_of
  verdict token (closed, db) =
      if closed
      then some (err application_not_found)
      else verdict_of (D.find_one (has_token token) db)

  -- `resolve_upstream_address` over the looks that it takes, a second apart; `none` while it waits.
  unfoldable pub resolve_upstream_address : String → List Poll → Option (Result Error String)
  resolve_upstream_address token [] = none
  resolve_upstream_address token (p ∷ ps) =
      let rest = resolve_upstream_address token ps in
      elim (verdict token p) [ some r ↦ some r | none ↦ rest ]

  unfoldable pub mark_application_failed : String → D.Db → Result Error (Unit {0}) × D.Db
  mark_application_failed token db =
      let (r, db') = D.update_many mark_failed (has_token token) db in
      (elim r [ ok n ↦ ok tt | err e ↦ err (database e) ], db')

  -- After the retries. The `expect` of `last_error` is the panic text.
  give_up : String → Option Error → D.Db → Result Error (ℕ × String) × D.Db
  unfolding mark_application_failed
  give_up token last_error db =
      let (r, db') = mark_application_failed token db in
      (
        elim r [
          | ok u ↦ err (
              unwrap_or last_error
                (internal "connection retries should capture the last upstream error"))
          | err e ↦ err e
        ],
        db',
      )

  after_attempts : String → String → Attempts → D.Db → Result Error (ℕ × String) × D.Db
  unfolding give_up
  after_attempts token address (connected sender) db = (ok (sender, address), db)
  after_attempts token address (refused e) db = (err e, db)
  after_attempts token address (exhausted last_error) db = give_up token last_error db

  -- `resolve_upstream_connection`, from the address on; `db` is the database after the retries.
  after_address :
      String → (ℕ → Result Error ℕ) → Result Error String → D.Db → Result Error (ℕ × String) × D.Db
  unfolding after_attempts attempts
  after_address token connect (err e) db = (err e, db)
  after_address token connect (ok address) db =
      after_attempts token address (attempts connect (suc max_upstream_connect_retries) 0 none) db

  unfoldable pub resolve_upstream_connection :
      String → List Poll → (ℕ → Result Error ℕ) → D.Db → Option (Result Error (ℕ × String) × D.Db)
  unfolding after_address resolve_upstream_address
  resolve_upstream_connection token polls connect db = elim (resolve_upstream_address token polls) [
    | none ↦ none
    | some r ↦ some (after_address token connect r db)
  ]
