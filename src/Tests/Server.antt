-- ===== src/Tests/Server.antt =====
-- Runs of the maintenance commands.
use spark_plug.Common.{
  [], ◌∷◌, All, map_where, ◌≢◌, ◌^◌, ◌-◌, pos, ◌≡◌, refl, ◌&&◌, none, some, ok, ◌*◌, List, ◌∷◌,
  arith, err,
}
use spark_plug.Application.{Model, finished, launching}
use spark_plug.Database.Memory.{memory}
use spark_plug.Server.{
  prune, prune_at, cutoff_at, cutoff_seconds, as_i64, saturating_sub, check_application_health,
}
use spark_plug.Server.Prune.{IsOver, IsWithout, prune_wraps}
use spark_plug.Server.{check, should_fail, is_running}
use spark_plug.Proxy.Upstream.{mark_failed}
use spark_plug.Server.Marks.{check_rows}
use spark_plug.Server.Check.{is_down}
use spark_plug.Tests.Data.{rows, row}

-- One more application, finished.
abbrev pub table : List Model
table = row 3 "ada" finished "t3" none ∷ rows

-- A threshold one second short of 2^64, with the clock at 1000 seconds.
prune_wraps_example :
    IsWithout IsOver table
      (prune memory (λ t. some (pos (1001 * 1000000000))) (ok 1000) (2 ^ 64 - 1) table).1
unfolding prune prune_at cutoff_at cutoff_seconds as_i64 saturating_sub
prune_wraps_example =
    prune_wraps memory (λ t. some (pos (1001 * 1000000000))) 1000 1 table 1 (omega arith)
      (omega arith) refl (omega arith, (omega arith, (omega arith, tt))) refl

rows_unique : All (λ r. r.id ≢ pos 1) (row 2 "bob" launching "t2" none ∷ [])
rows_unique = ((λ e. absurd (ground (arith, e))), tt)

-- The running application's driver does not answer.
check_rows_example :
    (check memory (λ id address token n. err "timeout") rows).1
    ≡ map_where
        (λ m. is_running m && is_down (λ address token n. err "timeout") m.token m.address)
        mark_failed
        rows
unfolding check should_fail check_application_health
check_rows_example =
    check_rows (λ id address token n. err "timeout") memory rows 1 (rows_unique, (tt, tt)) refl
