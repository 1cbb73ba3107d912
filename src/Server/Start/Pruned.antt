-- ===== src/Server/Start/Pruned.antt =====
-- `main` of server/src/main.rs with the command `prune`.
use mathlib.Core.Path.{subst}
use spark_plug.Common.{
  ℕ, ◌^◌, ◌<◌, String, ◌≡◌, refl, some, Result, ok, err, pos, ◌-ℤ◌, bind_ok, ok_injective,
  ok-ne-err, ap, sym, ◌∙◌, unwrap_or,
}
use spark_plug.Application.{DateTime}
use spark_plug.Database.{Database}
use spark_plug.Auth.{Identity}
use spark_plug.Config.{ProxyConfig, create}
use spark_plug.Launcher.Setup.{Machine}
use spark_plug.Server.{prune as delete_ended}
use spark_plug.Server.Prune.{IsOld, IsWithout, prune_old}
use spark_plug.Server.Start.{
  Resources, Commands, Args, prune, start, Server, from_config, logged, migrated, execute, main,
}
use spark_plug.Server.Start.Made.{from_config-IsMade}

module _ {D : Database} (R : Resources D) (C : Commands R) where
  -- The rows of the store that the configuration names, without those that are FAILED or FINISHED
  -- and were created at the cutoff or before it, which is `seconds` before the clock.
  pub record IsPruned (args : Args) (now seconds : ℕ) (db : D.Db) : Type 0 where
    pub config : ProxyConfig
    pub read : create C.figment args.config_file ≡ ok config
    pub store : D.Db
    pub connected : R.connect (unwrap_or config.store "sqlite::memory:") ≡ ok store
    pub cutoff : DateTime
    pub at_cutoff : C.from_timestamp (pos now -ℤ pos seconds) ≡ some cutoff
    pub rows : IsWithout (IsOld cutoff) (D.rows store) (D.rows db)

  logged_ok :
      (o : Result String ℕ × D.Db)
      → (logged R C o).0 ≡ ok tt
      → (n : ℕ) × (o.0 ≡ ok n) × ((logged R C o).1 ≡ o.1)
  logged_ok (ok n, db) e = (n, refl, refl)
  logged_ok (err x, db) e = absurd (ok-ne-err (sym e))

  migrated_ok :
      (then : D.Db → Result String (Unit {0}) × D.Db) (o : Result String (Unit {0}) × D.Db)
      → (migrated R C then o).0 ≡ ok tt
      → migrated R C then o ≡ then o.1
  migrated_ok then (ok u, db) e = refl
  migrated_ok then (err x, db) e = absurd (ok-ne-err (sym e))

  -- What is deleted from the store.
  abbrev Deleted : ℕ → ℕ → D.Db → D.Db → Type 0
  Deleted now seconds before db =
      (cutoff : DateTime) × (C.from_timestamp (pos now -ℤ pos seconds) ≡ some cutoff)
      × IsWithout (IsOld cutoff) (D.rows before) (D.rows db)

  pruned_db :
      (now seconds : ℕ) (db : D.Db)
      → now < 2 ^ 63
      → seconds < 2 ^ 63
      → (logged R C (delete_ended D C.from_timestamp (ok now) seconds db)).0 ≡ ok tt
      → Deleted now seconds db (logged R C (delete_ended D C.from_timestamp (ok now) seconds db)).1
  pruned_db now seconds db h k e =
      let (n, done, same) = logged_ok (delete_ended D C.from_timestamp (ok now) seconds db) e in
      let (cutoff, at, rows) = prune_old D C.from_timestamp now seconds db n h k done in
      (cutoff, at, subst (IsWithout (IsOld cutoff) (D.rows db)) (ap D.rows (sym same)) rows)

  execute-Deleted :
      (now seconds : ℕ) (s : Server R)
      → ((db : D.Db) → D.rows (C.ensure_db db).1 ≡ D.rows db)
      → C.now ≡ ok now
      → now < 2 ^ 63
      → seconds < 2 ^ 63
      → (execute R C (prune seconds) s).0 ≡ ok tt
      → Deleted now seconds s.db (execute R C (prune seconds) s).1
  unfolding execute
  execute-Deleted now seconds s kept clock h k e =
      let body : Result String ℕ → D.Db → Result String (Unit {0}) × D.Db =
        λ c db. logged R C (delete_ended D C.from_timestamp c seconds db) in
      let db = (C.ensure_db s.db).1 in
      let same = migrated_ok (body C.now) (C.ensure_db s.db) e ∙ ap (λ c. body c db) clock in
      let (cutoff, at, rows) = pruned_db now seconds db h k (sym (ap (λ o. o.0) same) ∙ e) in
      (
        cutoff,
        at,
        subst (λ x. IsWithout (IsOld cutoff) x (D.rows (execute R C (prune seconds) s).1))
            (kept s.db)
            (subst (λ o. IsWithout (IsOld cutoff) (D.rows db) (D.rows o.1)) (sym same) rows),
      )

  IsPruned-of :
      (I : Identity) (machine : Machine) (args : Args) (now seconds : ℕ) (config : ProxyConfig)
      (s : Server R) (o : Result String (Unit {0}) × D.Db)
      → ((db : D.Db) → D.rows (C.ensure_db db).1 ≡ D.rows db)
      → C.now ≡ ok now
      → now < 2 ^ 63
      → seconds < 2 ^ 63
      → create C.figment args.config_file ≡ ok config
      → from_config R I machine config ≡ ok s
      → execute R C (prune seconds) s ≡ o
      → o.0 ≡ ok tt
      → IsPruned args now seconds o.1
  IsPruned-of I machine args now seconds config s o kept clock h k read made same done =
      let (cutoff, at, rows) =
        execute-Deleted now seconds s kept clock h k (ap (λ x. x.0) same ∙ done) in
      record {
        config = config;
        read = read;
        store = s.db;
        connected = (from_config-IsMade R I machine config s made).store;
        cutoff = cutoff;
        at_cutoff = at;
        rows = subst (λ x. IsWithout (IsOld cutoff) (D.rows s.db) (D.rows x.1)) same rows;
      }

  -- Where the migrations leave the rows as they are, and the clock and the threshold are below 2^63
  -- seconds, a `main` that is run to prune and succeeds has read the configuration, has connected to
  -- the store that it names, and has deleted from it exactly the applications that are FAILED or
  -- FINISHED and were created at the cutoff or before it, the time that many seconds before the
  -- clock.
  pub main-IsPruned :
      (I : Identity) (machine : Machine) (args : Args) (now seconds : ℕ)
      (o : Result String (Unit {0}) × D.Db)
      → ((db : D.Db) → D.rows (C.ensure_db db).1 ≡ D.rows db)
      → C.now ≡ ok now
      → now < 2 ^ 63
      → seconds < 2 ^ 63
      → args.command ≡ some (prune seconds)
      → main R C I machine args ≡ ok o
      → o.0 ≡ ok tt
      → IsPruned args now seconds o.1
  unfolding main
  main-IsPruned I machine args now seconds o kept clock h k c e done =
      let (config, e1, r1) = bind_ok (create C.figment args.config_file) _ e in
      let (server, e2, r2) = bind_ok (from_config R I machine config) _ r1 in
      IsPruned-of I machine args now seconds config server o kept clock h k e1 e2
        (ap (λ x. execute R C (unwrap_or x start) server) (sym c) ∙ ok_injective r2) done
