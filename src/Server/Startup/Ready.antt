-- ===== src/Server/Startup/Ready.antt =====
-- When `run` of server/src/lib.rs gets to its loop.
use mathlib.Core.Path.{subst}
use spark_plug.Common.{
  ℕ, String, ◌≡◌, refl, Option, none, some, ok, err, bind_ok, ok_injective, Result-cases, inl, inr,
  ok-ne-err, sym, ◌∙◌,
}
use spark_plug.Config.{ProxyConfig, KerberosConfig}
use spark_plug.Server.Startup.{
  System, rounds, kerberos_creds_task, task_if, ensure_db, bind_address, prepare,
}

module _ {W : Type 0} (S : System W) where
  -- The task is there exactly if Kerberos is configured, and each of its rounds runs the `kinit`
  -- that is found, with the configured keytab and principal.
  abbrev pub IsTask : Option KerberosConfig → Option (ℕ → W → W) → Type 0
  IsTask none none = Unit
  IsTask (some c) (some task) =
      (kinit : String) × (S.which "kinit" ≡ ok kinit) × (task ≡ rounds S kinit c)
  IsTask none (some task) = ⊥
  IsTask (some c) none = ⊥

  pub record IsReady (c : ProxyConfig) (w : W) (task : Option (ℕ → W → W)) : Type 0 where
    pub migrated : (S.up w).0 ≡ ok tt
    pub bound : S.bind (bind_address c) ≡ ok tt
    pub renewed : IsTask c.kerberos_config task

  missing_tool :
      (c : KerberosConfig) (x : String) → S.which "kinit" ≡ err x → task_if S (some c) ≡ err x
  unfolding task_if kerberos_creds_task
  missing_tool c x f = rw f refl

  found_tool :
      (c : KerberosConfig) (kinit : String)
      → S.which "kinit" ≡ ok kinit
      → task_if S (some c) ≡ ok (some (rounds S kinit c))
  unfolding task_if kerberos_creds_task
  found_tool c kinit f = rw f refl

  task_if-IsTask :
      (c : Option KerberosConfig) (task : Option (ℕ → W → W))
      → task_if S c ≡ ok task
      → IsTask c task
  unfolding task_if kerberos_creds_task
  task_if-IsTask none none e = tt
  task_if-IsTask none (some t) e = cc
  task_if-IsTask (some c) o e = elim (Result-cases (S.which "kinit")) [
    | inr (x, f) ↦ absurd (ok-ne-err (sym e ∙ missing_tool c x f))
    | inl (kinit, f) ↦
        subst (IsTask (some c)) (ok_injective (sym (found_tool c kinit f) ∙ e)) (kinit, f, refl)
  ]

  -- A server that gets to its loop has migrated its database, has bound the configured address, and
  -- runs a Kerberos task of the configuration exactly if one is configured.
  pub prepare-IsReady :
      (c : ProxyConfig) (w : W) (task : Option (ℕ → W → W))
      → (prepare S c w).0 ≡ ok task
      → IsReady c w task
  unfolding prepare ensure_db
  prepare-IsReady c w task e =
      let (done, e1, r1) = bind_ok (S.up w).0 _ e in
      let (t, e2, r2) = bind_ok (task_if S c.kerberos_config) _ r1 in
      let (u, e3, r3) = bind_ok (S.bind (bind_address c)) _ r2 in
      record {
        migrated = e1;
        bound = e3;
        renewed = task_if-IsTask c.kerberos_config task (e2 ∙ r3);
      }
