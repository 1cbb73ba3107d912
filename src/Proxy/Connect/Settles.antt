-- ===== src/Proxy/Connect/Settles.antt =====
-- `resolve_upstream_connection` of server/src/proxy.rs with its `connect_upstream`.
use mathlib.Core.Path.{subst}
use spark_plug.Common.{
  ℕ, zero, suc, ◌<◌, String, ◌≡◌, true, Option, none, some, List, arith, Result, ok, err, inl, inr,
  ◌⊎◌, sym, map_where, le-cases, Result-cases,
}
use spark_plug.Application.{failed}
use spark_plug.Database.{Database}
use spark_plug.Error.{Error}
use spark_plug.Proxy.Cache.{has_token}
use spark_plug.Proxy.Connect.{Dial, connect_upstream}
use spark_plug.Proxy.Upstream.{
  Poll, mark_failed, is_retried, resolve_upstream_address, resolve_upstream_connection,
}
use spark_plug.Proxy.Upstream.Retries.{
  IsRetried, AllRetried, resolve_upstream_connection-connects, resolve_upstream_connection-gives_up,
}

connect_upstream_retried :
    (d : Dial) (address : String) (e : Error)
    → connect_upstream d address ≡ err e
    → is_retried e ≡ true
unfolding connect_upstream
connect_upstream_retried d address e h = ground arith

module _ (dial : ℕ → Dial) (address : String) where
  abbrev pub connect : ℕ → Result Error ℕ
  connect i = connect_upstream (dial i) address

  IsRetried-of : (i : ℕ) (e : Error) → connect i ≡ err e → IsRetried connect i
  IsRetried-of i e h = record {
    error = e;
    failed = h;
    again = connect_upstream_retried (dial i) address e h;
  }

  -- The first of some rounds that connects, if there is one.
  pub record IsFirst (n i sender : ℕ) : Type 0 where
    pub bound : i < n
    pub before : AllRetried connect 0 i
    pub connects : connect i ≡ ok sender

  all_up_to : (n : ℕ) → AllRetried connect 0 n → IsRetried connect n → AllRetried connect 0 (suc n)
  all_up_to n hs h i p q = elim (le-cases i n (omega arith)) [
    | inl e ↦ subst (IsRetried connect) (sym e) h
    | inr l ↦ hs i p (omega arith)
  ]

  IsFirst-round : (n : ℕ) → AllRetried connect 0 n ⊎ ((i : ℕ) × (sender : ℕ) × IsFirst n i sender)
  IsFirst-round zero = inl (λ i p q. absurd (omega arith))
  IsFirst-round (suc n) = elim (IsFirst-round n) [
    | inr (i, sender, f) ↦ inr (
      i,
      sender,
      record { bound = (let b = f.bound in omega arith); before = f.before; connects = f.connects },
    )
    | inl hs ↦ elim (Result-cases (connect n)) [
      | inl (sender, e) ↦ inr (n, sender, record { bound = omega arith; before = hs; connects = e })
      | inr (x, e) ↦ inl (all_up_to n hs (IsRetried-of n x e))
    ]
  ]

module _ (D : Database) (token : String) (dial : ℕ → Dial) (address : String)
    (polls : List (Poll D)) (db : D.Db) where
  -- How a session that has found its address goes on: it has the connection of the first round of
  -- the four that connects; or no round connects, it fails with the error of the last one, and
  -- exactly the applications with its token are FAILED without an address.
  pub data IsSettled : Option (Result Error (ℕ × String) × D.Db) → Type 0 where
    reached :
        (i sender : ℕ)
        → IsFirst dial address 4 i sender
        → IsSettled (some (ok (sender, address), db))
    lost :
        (e : Error) (db' : D.Db)
        → AllRetried (connect dial address) 0 4
        → connect dial address 3 ≡ err e
        → D.rows db'
          ≡ map_where
              (has_token token)
              (λ m. record m { address = none; state = failed })
              (D.rows db)
        → IsSettled (some (err e, db'))

  -- With an address, and an update of the application that would succeed, a session settles: every
  -- error of `connect_upstream` is retried, so the loop ends with a connection or with the
  -- application marked as failed, and never with its other arm.
  pub resolve_upstream_connection-IsSettled :
      (n : ℕ) (db' : D.Db)
      → resolve_upstream_address D token polls ≡ some (ok address)
      → D.update_many mark_failed (has_token token) db ≡ (ok n, db')
      → IsSettled (resolve_upstream_connection D token polls (connect dial address) db)
  resolve_upstream_connection-IsSettled n db' e u = elim (IsFirst-round dial address 4) [
    | inr (i, sender, f) ↦
        subst IsSettled
          (sym (
            resolve_upstream_connection-connects D token (connect dial address) polls db address i
              sender e f.bound f.before f.connects))
          (reached i sender f)
    | inl hs ↦
        let (x, last, same, rows) =
          resolve_upstream_connection-gives_up D token (connect dial address) polls db address e hs
            n db' u in
        subst IsSettled (sym same) (lost x db' hs last rows)
  ]
