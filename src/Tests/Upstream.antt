-- ===== src/Tests/Upstream.antt =====
-- Runs of finding and reaching the upstream of a session.
use spark_plug.Common.{
  ℕ, zero, suc, ◌≡◌, refl, false, none, some, List, [], ◌∷◌, ok, err, map_where, string_eq,
}
use spark_plug.Application.{launching}
use spark_plug.Database.Memory.{memory}
use spark_plug.Proxy.Cache.{has_token}
use spark_plug.Proxy.Upstream.{
  Poll, mark_failed, resolve_upstream_address, resolve_upstream_connection, verdict, address_of,
}
use spark_plug.Proxy.Connect.{Dial}
use spark_plug.Proxy.Connect.Settles.{connect, IsSettled, resolve_upstream_connection-IsSettled}
use spark_plug.Tests.Data.{rows, row}

-- A look that finds the application LAUNCHING, and one that finds it RUNNING.
abbrev polls : List (Poll memory)
polls = (false, row 1 "ada" launching "t1" none ∷ []) ∷ (false, rows) ∷ []

found : resolve_upstream_address memory "t1" polls ≡ some (ok "10.0.0.1:15002")
unfolding resolve_upstream_address verdict address_of
found = refl

-- The stream is refused twice, and then the handshake succeeds.
abbrev dial : ℕ → Dial
dial zero = record { tcp = λ address. err "refused"; handshake = λ stream. ok 7 }
dial (suc zero) = record { tcp = λ address. err "refused"; handshake = λ stream. ok 7 }
dial (suc (suc i)) = record { tcp = λ address. ok 1; handshake = λ stream. ok 7 }

resolve_upstream_connection-IsSettled_example :
    IsSettled memory "t1" dial "10.0.0.1:15002" polls rows
      (resolve_upstream_connection memory "t1" polls (connect dial "10.0.0.1:15002") rows)
resolve_upstream_connection-IsSettled_example =
    resolve_upstream_connection-IsSettled memory "t1" dial "10.0.0.1:15002" polls rows 1
      (map_where (has_token "t1") mark_failed rows) found refl
