-- ===== src/Proxy/Upstream/Waiting.antt =====
-- Finding the address of a session (`resolve_upstream_address` of server/src/proxy.rs).
use spark_plug.Common.{
  String, ◌≡◌, ◌↔◌, refl, Bool, true, false, Option, none, some, List, [], ◌∷◌, arith, string_eq,
  eq_iff, Result, ok, err, In, All, Any, inl, inr, Result-cases, Option-cases, sym, ◌∙◌,
  none-ne-some,
}
use spark_plug.Application.{State, launching, running, Model}
use spark_plug.Database.{Database, DbResult}
use spark_plug.Error.{Error}
use spark_plug.Proxy.Cache.{has_token}
use spark_plug.Proxy.Upstream.{Poll, address_of, verdict, resolve_upstream_address}

module _ (D : Database) (token : String) where
  -- At this look an application with the token is RUNNING at the address.
  pub record RunsAt (address : String) (p : Poll D) : Type 0 where
    pub opened : p.0 ≡ false
    pub row : Model
    pub listed : In row (D.rows p.1)
    pub token_of_row : row.token ≡ token
    pub state : row.state ≡ running
    pub address_of_row : row.address ≡ some address

  -- At this look the application is still LAUNCHING.
  pub record IsWaiting (p : Poll D) : Type 0 where
    pub opened : p.0 ≡ false
    pub row : Model
    pub answer : D.find_one (has_token token) p.1 ≡ ok (some row)
    pub state : row.state ≡ launching

  address_of_ok :
      (s : State) (o : Option String) (a : String)
      → address_of s o ≡ some (ok a)
      → (s ≡ running) × (o ≡ some a)
  unfolding address_of
  address_of_ok s o a e = ground arith

  address_of-none : (s : State) (o : Option String) → address_of s o ≡ none → s ≡ launching
  unfolding address_of
  address_of-none s o e = ground arith

  verdict_of_row :
      (db : D.Db) (m : Model)
      → D.find_one (has_token token) db ≡ ok (some m)
      → verdict D token (false, db) ≡ address_of m.state m.address
  verdict_of_row db m f = unfold verdict in ground arith

  verdict_ok :
      (closed : Bool) (db : D.Db) (a : String)
      → verdict D token (closed, db) ≡ some (ok a)
      → RunsAt a (closed, db)
  verdict_ok true db a e = absurd (unfold verdict in ground arith)
  verdict_ok false db a e = elim (Result-cases (D.find_one (has_token token) db)) [
    | inr (x, f) ↦ absurd (unfold verdict in ground arith)
    | inl (o, f) ↦ go o f
  ]
    where
      go : (o : Option Model) → D.find_one (has_token token) db ≡ ok o → RunsAt a (false, db)
      go none f = absurd (unfold verdict in ground arith)
      go (some m) f =
          let q : address_of m.state m.address ≡ some (ok a) = sym (verdict_of_row db m f) ∙ e in
          let (state, address) = address_of_ok m.state m.address a q in
          let (t, i) = D.find_one_ok (has_token token) db (some m) f in
          record {
            opened = refl;
            row = m;
            listed = i;
            token_of_row = (eq_iff m.token token).0 t;
            state = state;
            address_of_row = address;
          }

  verdict-none :
      (closed : Bool) (db : D.Db) → verdict D token (closed, db) ≡ none → IsWaiting (closed, db)
  verdict-none true db e = absurd (unfold verdict in ground arith)
  verdict-none false db e = go (D.find_one (has_token token) db) refl
    where
      go :
          (r : DbResult (Option Model))
          → D.find_one (has_token token) db ≡ r
          → IsWaiting (false, db)
      go (err x) f = absurd (unfold verdict in ground arith)
      go (ok none) f = absurd (unfold verdict in ground arith)
      go (ok (some m)) f = record {
        opened = refl;
        row = m;
        answer = f;
        state = address_of-none m.state m.address (sym (verdict_of_row db m f) ∙ e);
      }

  address_of_launching : (s : State) (o : Option String) → s ≡ launching → address_of s o ≡ none
  unfolding address_of
  address_of_launching s o e = rw e

  verdict_of_IsWaiting : (p : Poll D) → IsWaiting p → verdict D token p ≡ none
  verdict_of_IsWaiting (closed, db) h =
      rw h.opened
        (verdict_of_row db h.row h.answer ∙ address_of_launching h.row.state h.row.address h.state)

  resolve_cons :
      (p : Poll D) (ps : List (Poll D)) (r : Result Error String)
      → verdict D token p ≡ some r
      → resolve_upstream_address D token (p ∷ ps) ≡ some r
  resolve_cons p ps r e = unfold resolve_upstream_address in ground arith

  resolve_wait :
      (p : Poll D) (ps : List (Poll D))
      → verdict D token p ≡ none
      → resolve_upstream_address D token (p ∷ ps) ≡ resolve_upstream_address D token ps
  resolve_wait p ps e = unfold resolve_upstream_address in ground arith

  -- An address that is found for a token is that of an application which had the token and was
  -- RUNNING at that address at one of the looks, the requests' channel being open.
  pub resolve-RunsAt :
      (polls : List (Poll D)) (address : String)
      → resolve_upstream_address D token polls ≡ some (ok address)
      → Any (RunsAt address) polls
  resolve-RunsAt [] address e = absurd (unfold resolve_upstream_address in none-ne-some e)
  resolve-RunsAt (p ∷ ps) address e = elim (Option-cases (verdict D token p)) [
    | inl waits ↦ inr (resolve-RunsAt ps address (sym (resolve_wait p ps waits) ∙ e))
    | inr (r, v) ↦ inl (verdict_ok p.0 p.1 address (v ∙ sym (resolve_cons p ps r v) ∙ e))
  ]

  -- The loop goes on exactly as long as every look finds an application that is LAUNCHING.
  pub resolve_waits_iff :
      (polls : List (Poll D))
      → (resolve_upstream_address D token polls ≡ none) ↔ All IsWaiting polls
  resolve_waits_iff [] = (λ e. tt, λ h. unfold resolve_upstream_address in refl)
  resolve_waits_iff (p ∷ ps) = (
    λ e. elim (Option-cases (verdict D token p)) [
      | inl waits ↦
          (verdict-none p.0 p.1 waits, (resolve_waits_iff ps).0 (sym (resolve_wait p ps waits) ∙ e))
      | inr (r, v) ↦ absurd (none-ne-some (sym e ∙ resolve_cons p ps r v))
    ],
    λ h. resolve_wait p ps (verdict_of_IsWaiting p h.0) ∙ (resolve_waits_iff ps).1 h.1,
  )
