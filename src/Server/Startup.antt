-- ===== src/Server/Startup.antt =====
-- server/src/lib.rs: what `run` does before its loop, `kerberos_creds_task`, and `shutdown_signal`.
-- The migrations, the processes and the socket are parameters, over a state of the rest of the world.
pub mod Ready
use Prim.Native.String.{◌++◌}
use spark_plug.Common.{
  ℕ, zero, suc, String, Option, none, some, List, [], ◌∷◌, Result, ok, ◌>>=◌, unwrap_or,
}
use spark_plug.Text.Show.{show}
use spark_plug.Config.{ProxyConfig, KerberosConfig, get_bind_port}
use spark_plug.Server.Run.{Event, signal, bind_host}

pub record System (W : Type 0) : Type 0 where
  -- `Migrator::up`
  pub up : W → Result String (Unit {0}) × W
  pub which : String → Result String String
  -- `Command::new(program).args(args).output()`, and `sleep`, in seconds
  pub output : String → List String → W → Result String (Unit {0}) × W
  pub sleep : ℕ → W → W
  -- `TcpListener::bind`
  pub bind : String → Result String (Unit {0})

abbrev pub kinit_args : KerberosConfig → List String
kinit_args c = "-kt" ∷ c.keytab ∷ c.principal ∷ []

abbrev pub renewal_seconds : KerberosConfig → ℕ
renewal_seconds c = unwrap_or c.renewal_interval 3600

abbrev pub bind_address : ProxyConfig → String
bind_address c = bind_host c.bind_host ++ (":" ++ show (get_bind_port c))

-- The signals of the system, and the event of the loop of `run` that they are. `ctrl_c` waits for
-- the first, and the future `terminate` for the second.
pub data Signal : Type 0 where
  interrupt terminate other : Signal

abbrev pub shutdown_signal : Signal → Option Event
shutdown_signal interrupt = some signal
shutdown_signal terminate = some signal
shutdown_signal other = none

module _ {W : Type 0} (S : System W) where
  -- One round of the loop of the task: an error is only logged.
  abbrev pub renew : String → KerberosConfig → W → W
  renew kinit c w = S.sleep (renewal_seconds c) (S.output kinit (kinit_args c) w).1

  abbrev pub rounds : String → KerberosConfig → ℕ → W → W
  rounds kinit c zero w = w
  rounds kinit c (suc n) w = rounds kinit c n (renew kinit c w)

  -- The task, by its number of rounds; `expect` panics where there is no `kinit`.
  unfoldable pub kerberos_creds_task : KerberosConfig → Result String (ℕ → W → W)
  kerberos_creds_task c = do kinit ← S.which "kinit"; ok (rounds kinit c)

  unfoldable pub ensure_db : W → Result String (Unit {0}) × W
  ensure_db w = S.up w

  unfoldable pub task_if : Option KerberosConfig → Result String (Option (ℕ → W → W))
  unfolding kerberos_creds_task
  task_if none = ok none
  task_if (some c) = do task ← kerberos_creds_task c; ok (some task)

  -- `run`, up to its loop: the task that was started, if any.
  unfoldable pub prepare : ProxyConfig → W → Result String (Option (ℕ → W → W)) × W
  unfolding ensure_db task_if
  prepare c w =
      let (migrated, w') = ensure_db w in
      (
        (do
          done ← migrated
          task ← task_if c.kerberos_config
          bound ← S.bind (bind_address c)
          ok task),
        w',
      )
