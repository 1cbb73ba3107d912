-- ===== src/Launcher/Setup/Ready.antt =====
-- What a launcher that `from_config` of server/src/launcher.rs makes can rely on.
use mathlib.Core.Path.{subst}
use spark_plug.Common.{
  bind_ok, ok_injective, ok-ne-err, String, ◌≡◌, refl, true, Option, none, some, List, [], ◌∷◌,
  arith, ok, All, In, inl, ap, sym, ◌∙◌, string_eq,
}
use spark_plug.Config.{SparkVersion, ProxyConfig, get_callback_addr}
use spark_plug.Launcher.Names.{SparkLauncher}
use spark_plug.Launcher.Launch.{select_version}
use spark_plug.Launcher.Setup.{
  Machine, default_version, spark_home, find_default_spark_home, default_home, default_versions,
  some_version, check_homes, plugin_path, from_config,
}

module _ (machine : Machine) where
  -- Where the versions come from: the configuration, or one default version whose home is
  -- `SPARK_HOME`, or else that of the installed Spark.
  pub data IsFrom (config : ProxyConfig) : List SparkVersion → Type 0 where
    configured :
        (versions : List SparkVersion)
        → config.spark_versions ≡ some versions
        → IsFrom config versions
    environment :
        (home : String)
        → config.spark_versions ≡ none
        → machine.var spark_home ≡ some home
        → IsFrom config (default_version home (machine.which "python3") ∷ [])
    installed :
        (home : String)
        → config.spark_versions ≡ none
        → machine.var spark_home ≡ none
        → find_default_spark_home machine ≡ ok home
        → IsFrom config (default_version home (machine.which "python3") ∷ [])

  -- A launcher that can choose a version.
  pub record IsReady (config : ProxyConfig) (l : SparkLauncher) : Type 0 where
    pub versions_from : IsFrom config l.versions
    pub homes : All (λ v. machine.exists v.home ≡ true) l.versions
    pub first : SparkVersion
    pub chosen : select_version l none ≡ ok first
    pub listed : In first l.versions
    pub callback : get_callback_addr machine.local_ip config ≡ ok l.callback_addr

  check_homes_sound :
      (vs : List SparkVersion)
      → check_homes machine vs ≡ ok tt
      → All (λ v. machine.exists v.home ≡ true) vs
  unfolding check_homes
  check_homes_sound [] e = tt
  check_homes_sound (v ∷ vs) e = (ground arith, check_homes_sound vs (ground arith))

  default_versions_from :
      (config : ProxyConfig) (o : Option (List SparkVersion)) (home : Option String)
      (vs : List SparkVersion)
      → config.spark_versions ≡ o
      → machine.var spark_home ≡ home
      → default_versions machine o ≡ ok vs
      → IsFrom config vs
  unfolding default_versions default_home
  default_versions_from config (some versions) home vs c h e =
      let same : versions ≡ vs = cc e in subst (IsFrom config) same (configured versions c)
  default_versions_from config none (some home) vs c h e =
      let same : default_version home (machine.which "python3") ∷ [] ≡ vs = cc (e, h) in
      subst (IsFrom config) same (environment home c h)
  default_versions_from config none none vs c h e =
      let (home, f, g) =
        bind_ok (default_home machine (machine.var spark_home))
          (λ x. ok (default_version x (machine.which "python3") ∷ [])) e in
      let found : find_default_spark_home machine ≡ ok home = cc (f, h) in
      subst (IsFrom config) (ok_injective g) (installed home c h found)

  first_ok :
      (l : SparkLauncher) (vs : List SparkVersion)
      → l.versions ≡ vs
      → some_version machine vs ≡ ok tt
      → (v : SparkVersion) × (select_version l none ≡ ok v) × In v vs
  first_ok l [] same e = absurd (unfold some_version in ok-ne-err (sym e))
  first_ok l (v ∷ vs) same e = (v, unfold select_version in rw same refl, inl refl)

  is_ready :
      (config : ProxyConfig) (l : SparkLauncher) (vs : List SparkVersion) (addr : String)
      → l.versions ≡ vs
      → l.callback_addr ≡ addr
      → default_versions machine config.spark_versions ≡ ok vs
      → get_callback_addr machine.local_ip config ≡ ok addr
      → some_version machine vs ≡ ok tt
      → check_homes machine vs ≡ ok tt
      → IsReady config l
  is_ready config l vs addr same same_addr e1 e2 e3 e4 =
      let (first, chosen, listed) = first_ok l vs same e3 in
      record {
        versions_from = subst (IsFrom config) (sym same) (
            default_versions_from config config.spark_versions (machine.var spark_home) vs refl refl
              e1);
        homes =
            subst (All (λ v. machine.exists v.home ≡ true)) (sym same) (check_homes_sound vs e4);
        first = first;
        chosen = chosen;
        listed = subst (In first) (sym same) listed;
        callback = e2 ∙ ap (λ a. ok a) (sym same_addr);
      }

  -- A launcher that is made has its versions from the configuration, from `SPARK_HOME` or from an
  -- installed Spark, in this order; the homes of all of them exist; and a launch that names no
  -- version finds the first one, where indexing cannot panic.
  pub from_config-IsReady :
      (config : ProxyConfig) (l : SparkLauncher)
      → from_config machine config ≡ ok l
      → IsReady config l
  unfolding from_config
  from_config-IsReady config l e =
      let (vs, e1, r1) = bind_ok (default_versions machine config.spark_versions) _ e in
      let (addr, e2, r2) = bind_ok (get_callback_addr machine.local_ip config) _ r1 in
      let (u, e3, r3) = bind_ok (some_version machine vs) _ r2 in
      let (u', e4, r4) = bind_ok (check_homes machine vs) _ r3 in
      let (plugin, e5, r5) =
        bind_ok (plugin_path machine machine.embedded_plugin config.plugin_path) _ r4 in
      is_ready config l vs addr (ap (λ x. x.versions) (sym (ok_injective r5)))
        (ap (λ x. x.callback_addr) (sym (ok_injective r5))) e1 e2 e3 e4
