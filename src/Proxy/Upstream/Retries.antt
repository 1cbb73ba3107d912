-- ===== src/Proxy/Upstream/Retries.antt =====
-- Connecting to a session with retries (`resolve_upstream_connection` of server/src/proxy.rs).
use mathlib.Core.Path.{subst}
use spark_plug.Common.{
  ℕ, zero, suc, ◌+◌, ◌≤◌, ◌<◌, String, ◌≡◌, refl, true, false, Option, none, some, List, arith,
  Result, ok, err, inl, inr, ap, sym, ◌∙◌, map_where, le-cases,
}
use spark_plug.Database.{Database}
use spark_plug.Error.{Error}
use spark_plug.Proxy.Cache.{has_token}
use spark_plug.Proxy.Upstream.{
  Poll, mark_failed, is_retried, Attempts, connected, refused, exhausted, attempts,
  resolve_upstream_address, resolve_upstream_connection, mark_application_failed, give_up,
  after_attempts, after_address,
}

module _ (connect : ℕ → Result Error ℕ) where
  -- Round `i` fails with an error after which the loop goes on.
  pub record IsRetried (i : ℕ) : Type 0 where
    pub error : Error
    pub failed : connect i ≡ err error
    pub again : is_retried error ≡ true

  -- So do all rounds from `a` on, below `b`.
  abbrev pub AllRetried : ℕ → ℕ → Type 0
  AllRetried a b = (i : ℕ) → a ≤ i → i < b → IsRetried i

  -- What one round does.
  attempts_ok :
      (left a : ℕ) (last : Option Error) (sender : ℕ)
      → connect a ≡ ok sender
      → attempts connect (suc left) a last ≡ connected sender
  attempts_ok left a last sender e = unfold attempts in rw e

  attempts_retry :
      (left a : ℕ) (last : Option Error) (h : IsRetried a)
      → attempts connect (suc left) a last ≡ attempts connect left (a + 1) (some h.error)
  attempts_retry left a last h = unfold attempts in rw h.failed (rw h.again)

  attempts_refuse :
      (left a : ℕ) (last : Option Error) (e : Error)
      → connect a ≡ err e
      → is_retried e ≡ false
      → attempts connect (suc left) a last ≡ refused e
  attempts_refuse left a last e f g = unfold attempts in rw f (rw g)

  retried_from : (a b : ℕ) → IsRetried a → AllRetried (a + 1) b → AllRetried a b
  retried_from a b h hs i p q = elim (le-cases a i p) [
    | inl e ↦ subst IsRetried e h
    | inr l ↦ hs i l q
  ]

  -- The loop connects in the first round that succeeds, all rounds before it being retried.
  attempts_connects :
      (left a i sender : ℕ) (last : Option Error)
      → a ≤ i
      → i < a + left
      → AllRetried a i
      → connect i ≡ ok sender
      → attempts connect left a last ≡ connected sender
  attempts_connects zero a i sender last p q hs e = absurd (omega arith)
  attempts_connects (suc left) a i sender last p q hs e = elim (le-cases a i p) [
    | inl eq ↦ attempts_ok left a last sender (ap connect eq ∙ e)
    | inr l ↦
        let h = hs a (omega arith) (omega arith) in
        attempts_retry left a last h
        ∙ attempts_connects left (a + 1) i sender (some h.error) (omega arith) (omega arith)
            (λ j r t. hs j (omega arith) t) e
  ]

  -- Rounds that are all retried use up the loop, whose last error is that of the last round.
  attempts_exhausted :
      (left a : ℕ) (last : Option Error)
      → AllRetried a (a + suc left)
      → (e : Error) × (connect (a + left) ≡ err e)
        × (attempts connect (suc left) a last ≡ exhausted (some e))
  attempts_exhausted zero a last hs =
      let h = hs a (omega arith) (omega arith) in
      let q : a + zero ≡ a = omega arith in
      (h.error, ap connect q ∙ h.failed, attempts_retry zero a last h ∙ unfold attempts in refl)
  attempts_exhausted (suc left) a last hs =
      let h = hs a (omega arith) (omega arith) in
      let (e, f, g) =
        attempts_exhausted left (a + 1) (some h.error)
          (λ i p l. hs i (omega arith) (omega arith)) in
      let q : a + suc left ≡ a + 1 + left = omega arith in
      (e, ap connect q ∙ f, attempts_retry (suc left) a last h ∙ g)

module _ (D : Database) (token : String) (connect : ℕ → Result Error ℕ) where
  -- The four rounds of the loop.
  abbrev rounds : Attempts
  rounds = attempts connect 4 0 none

  address_found :
      (polls : List (Poll D)) (db : D.Db) (r : Result Error String)
      → resolve_upstream_address D token polls ≡ some r
      → resolve_upstream_connection D token polls connect db
        ≡ some (after_address D token connect r db)
  address_found polls db r e = unfold resolve_upstream_connection in ground arith

  resolve_connection_at :
      (polls : List (Poll D)) (db : D.Db) (address : String) (o : Attempts)
      → resolve_upstream_address D token polls ≡ some (ok address)
      → attempts connect 4 0 none ≡ o
      → resolve_upstream_connection D token polls connect db
        ≡ some (after_attempts D token address o db)
  resolve_connection_at polls db address o e f =
      address_found polls db (ok address) e ∙ ap some (unfold after_address in rw f)

  -- With an address, and a round of the four, counted from 0, that connects after rounds that are
  -- all retried, a session gets that round's connection and the database stays as it is.
  pub resolve_upstream_connection-connects :
      (polls : List (Poll D)) (db : D.Db) (address : String) (i sender : ℕ)
      → resolve_upstream_address D token polls ≡ some (ok address)
      → i < 4
      → AllRetried connect 0 i
      → connect i ≡ ok sender
      → resolve_upstream_connection D token polls connect db ≡ some (ok (sender, address), db)
  resolve_upstream_connection-connects polls db address i sender e bound hs f =
      resolve_connection_at polls db address (connected sender) e
        (attempts_connects connect 4 0 i sender none (omega arith) bound hs f)
      ∙ unfold after_attempts in refl

  -- With an address, and all four rounds retried, a session whose application can be updated gets
  -- the error of the last round, and exactly the applications with the token become FAILED without
  -- an address.
  pub resolve_upstream_connection-gives_up :
      (polls : List (Poll D)) (db : D.Db) (address : String)
      → resolve_upstream_address D token polls ≡ some (ok address)
      → AllRetried connect 0 4
      → (n : ℕ) (db' : D.Db) → D.update_many mark_failed (has_token token) db ≡ (ok n, db')
      → (e : Error) × (connect 3 ≡ err e)
        × (resolve_upstream_connection D token polls connect db ≡ some (err e, db'))
        × (D.rows db' ≡ map_where (has_token token) mark_failed (D.rows db))
  resolve_upstream_connection-gives_up polls db address e hs n db' u =
      let (x, f, g) = attempts_exhausted connect 3 0 none hs in
      (
        x,
        f,
        resolve_connection_at polls db address (exhausted (some x)) e g
            ∙ ap some (unfold after_attempts give_up mark_application_failed in rw u),
        sym (ap (λ r. D.rows r.1) u)
            ∙ (D.update_many_ok mark_failed (has_token token) db n (ap (λ r. r.0) u)).0,
      )
