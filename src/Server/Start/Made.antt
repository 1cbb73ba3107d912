-- ===== src/Server/Start/Made.antt =====
-- What a server that `Server::from_config` of server/src/lib.rs makes has.
use mathlib.Core.Path.{subst}
use spark_plug.Common.{
  ok_or, bind_ok, ok_injective, String, ◌≡◌, refl, Option, none, some, [], ◌∷◌, ok, ap, sym, ◌∙◌,
  unwrap_or, ok-ne-err,
}
use spark_plug.Map.{get}
use spark_plug.Database.{Database}
use spark_plug.Auth.{Identity}
use spark_plug.Auth.{from_config as user_auth}
use spark_plug.Config.{ProxyConfig, TlsConfig}
use spark_plug.Launcher.Setup.{Machine}
use spark_plug.Launcher.Setup.{from_config as spark_launcher}
use spark_plug.Launcher.Setup.Ready.{IsReady, from_config-IsReady}
use spark_plug.Server.Start.{
  Resources, TlsAcceptor, tls_acceptor, acceptor_if, load_tls_acceptor, Server, from_config,
}

module _ {D : Database} (R : Resources D) where
  -- An acceptor, if one is configured, of the configured files, that offers HTTP/2 first.
  pub data IsAcceptor : Option TlsConfig → Option (TlsAcceptor R) → Type 0 where
    plain : IsAcceptor none none
    secured :
        (tls : TlsConfig) (a : TlsAcceptor R)
        → R.certs tls.cert ≡ ok a.certs
        → R.private_key tls.key ≡ ok (some a.key)
        → R.single_cert a.certs a.key ≡ ok tt
        → a.alpn_protocols ≡ "h2" ∷ "http/1.1" ∷ []
        → IsAcceptor (some tls) (some a)

  pub record IsMade (I : Identity) (machine : Machine) (config : ProxyConfig) (s : Server R)
      : Type 0 where
    pub same_config : s.config ≡ config
    pub store : R.connect (unwrap_or config.store "sqlite::memory:") ≡ ok s.db
    pub launcher : IsReady machine config s.launcher
    pub auth_methods : user_auth I config.auth_methods ≡ ok s.auth_methods
    pub acceptor : IsAcceptor config.tls s.tls_acceptor
    pub no_sessions : (token : String) → get s.upstreams.connections token ≡ none

  some_of : {A : Type 0} (o : Option A) (x : String) (a : A) → ok_or o x ≡ ok a → o ≡ some a
  some_of none x a e = absurd (ok-ne-err (sym e))
  some_of (some b) x a e = ap some (ok_injective e)

  secured_by :
      (tls : TlsConfig) (a : TlsAcceptor R)
      → tls_acceptor R tls ≡ ok a
      → IsAcceptor (some tls) (some a)
  unfolding tls_acceptor
  secured_by tls a e =
      let (certs, e1, r1) = bind_ok (R.certs tls.cert) _ e in
      let (found, e2, r2) = bind_ok (R.private_key tls.key) _ r1 in
      let (key, e3, r3) =
        bind_ok (ok_or found "called `Option::unwrap()` on a `None` value") _ r2 in
      let (fits, e4, r4) = bind_ok (R.single_cert certs key) _ r3 in
      subst (λ x. IsAcceptor (some tls) (some x)) (ok_injective r4)
        (secured tls _ e1 (e2 ∙ ap ok (some_of found _ key e3)) e4 refl)

  acceptor_if-IsAcceptor :
      (o : Option TlsConfig) (a : Option (TlsAcceptor R)) → acceptor_if R o ≡ ok a → IsAcceptor o a
  unfolding acceptor_if
  acceptor_if-IsAcceptor none a e = subst (IsAcceptor none) (ok_injective e) plain
  acceptor_if-IsAcceptor (some tls) a e =
      let (acceptor, f, g) = bind_ok (tls_acceptor R tls) _ e in
      subst (IsAcceptor (some tls)) (ok_injective g) (secured_by tls acceptor f)

  IsMade-with :
      (I : Identity) (machine : Machine) (config : ProxyConfig) (s : Server R)
      → s.config ≡ config
      → ((token : String) → get s.upstreams.connections token ≡ none)
      → R.connect (unwrap_or config.store "sqlite::memory:") ≡ ok s.db
      → spark_launcher machine config ≡ ok s.launcher
      → user_auth I config.auth_methods ≡ ok s.auth_methods
      → load_tls_acceptor R config ≡ ok s.tls_acceptor
      → IsMade I machine config s
  IsMade-with I machine config s same empty e1 e2 e3 e4 = record {
    same_config = same;
    store = e1;
    launcher = from_config-IsReady machine config s.launcher e2;
    auth_methods = e3;
    acceptor = acceptor_if-IsAcceptor config.tls s.tls_acceptor (unfold load_tls_acceptor in e4);
    no_sessions = empty;
  }

  pub from_config-IsMade :
      (I : Identity) (machine : Machine) (config : ProxyConfig) (s : Server R)
      → from_config R I machine config ≡ ok s
      → IsMade I machine config s
  unfolding from_config
  from_config-IsMade I machine config s e =
      let (db, e1, r1) = bind_ok (R.connect (unwrap_or config.store "sqlite::memory:")) _ e in
      let (launcher, e2, r2) = bind_ok (spark_launcher machine config) _ r1 in
      let (methods, e3, r3) = bind_ok (user_auth I config.auth_methods) _ r2 in
      let (acceptor, e4, r4) = bind_ok (load_tls_acceptor R config) _ r3 in
      subst (IsMade I machine config) (ok_injective r4)
        (IsMade-with I machine config _ refl (λ token. unfold get in refl) e1 e2 e3 e4)
