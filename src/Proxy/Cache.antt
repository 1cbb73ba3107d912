-- ===== src/Proxy/Cache.antt =====
-- server/src/proxy.rs: `UpstreamConnectionCache`, the dispatchers of the sessions by token. A
-- sender is the number of its channel. The map is behind a mutex: each section under the lock is
-- one step, and `sender_for` has two of them, with a database query between.
pub mod Isolation
pub mod Senders
use spark_plug.Common.{
  ℕ, ◌+◌, String, Bool, not, Option, none, some, List, [], ◌∷◌, ◌==◌, string_eq, if◌then◌else◌,
  Result, ok, err,
}
use spark_plug.Map.{Map, get, insert, remove}
use spark_plug.Application.{Model}
use spark_plug.Database.{Database}
use spark_plug.Error.{Error, application_not_found, database}

-- `next` numbers the channels; `spawned` holds the dispatcher tasks, by channel and token.
pub record Cache : Type 0 where
  pub connections : Map ℕ
  pub next : ℕ
  pub spawned : List (ℕ × String)

-- `UpstreamConnectionCache::new`
abbrev pub new : Cache
new = record { connections = []; next = 0; spawned = [] }

-- `is_closed` of every sender at one moment: whether its dispatcher has ended.
abbrev pub Closed : Type 0
Closed = ℕ → Bool

abbrev pub has_token : String → Model → Bool
has_token token m = m.token == token

abbrev pub open_one : Closed → Option ℕ → Option ℕ
open_one closed none = none
open_one closed (some sender) = if not (closed sender) then some sender else none

-- An open sender for the token.
unfoldable pub cached : Closed → Cache → String → Option ℕ
cached closed c token = open_one closed (get c.connections token)

-- A new channel and its dispatcher.
abbrev pub spawn : String → Cache → Cache
spawn token c = record {
  connections = insert c.connections token c.next;
  next = c.next + 1;
  spawned = (c.next, token) ∷ c.spawned;
}

-- The second section of `sender_for`.
unfoldable pub reuse_or_spawn : Closed → String → Cache → ℕ × Cache
unfolding cached
reuse_or_spawn closed token c = elim (cached closed c token) [
  | some sender ↦ (sender, c)
  | none ↦ (c.next, spawn token c)
]

module _ (D : Database) where
  -- What the query between the two sections decides.
  after_query : Result String (Option Model) → Closed → String → Cache → Result Error ℕ × Cache
  unfolding reuse_or_spawn
  after_query (err e) closed token c = (err (database e), c)
  after_query (ok none) closed token c = (err application_not_found, c)
  after_query (ok (some app)) closed token c =
      let (sender, c') = reuse_or_spawn closed token c in (ok sender, c')

  -- `now` and `later` are the states of the channels in the two sections, and `during` is what the
  -- other tasks do to the cache while the query runs.
  unfoldable pub sender_for :
      Closed → Closed → (Cache → Cache) → D.Db → String → Cache → Result Error ℕ × Cache
  unfolding after_query cached
  sender_for now later during db token c = elim (cached now c token) [
    | some sender ↦ (ok sender, c)
    | none ↦ after_query (D.find_one (has_token token) db) later token (during c)
  ]

abbrev remove_if : Closed → String → Cache → Option ℕ → Cache
remove_if closed token c none = c
remove_if closed token c (some sender) =
    if closed sender then record c { connections = remove c.connections token } else c

unfoldable pub remove_closed : Closed → String → Cache → Cache
remove_closed closed token c = remove_if closed token c (get c.connections token)

unfoldable pub invalidate : String → Cache → Cache
invalidate token c = record c { connections = remove c.connections token }
