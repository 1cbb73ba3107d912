-- ===== src/Proxy/Cache/Senders.antt =====
-- What `sender_for` of server/src/proxy.rs hands out.
use mathlib.Core.Path.{subst}
use mathlib.Core.Bool.{false≢true}
use spark_plug.Common.{
  ℕ, String, ◌≡◌, refl, false, Option, none, some, arith, Result, ok, err, All, In, ◌⊎◌, inl, inr,
  Option-cases, ap, ok_injective, ok-ne-err, sym, ◌∙◌, eq_refl, All-In,
}
use spark_plug.Map.{get, get-insert}
use spark_plug.Application.{Model}
use spark_plug.Database.{Database, DbResult}
use spark_plug.Error.{Error, application_not_found, database}
use spark_plug.Proxy.Cache.{
  Cache, Closed, has_token, open_one, cached, reuse_or_spawn, after_query, sender_for,
}
use spark_plug.Proxy.Cache.Isolation.{
  empty, IsIsolated, IsIsolated-empty, Reach, Reach-IsIsolated, spawned_of, reused_of,
}

-- The sender `s` is the one under the token, and leads to the token's dispatcher.
pub record Serves (token : String) (s : ℕ) (c : Cache) : Type 0 where
  pub cached : get c.connections token ≡ some s
  pub tasked : In (s, token) c.spawned

open_one_sound : (closed : Closed) (o : Option ℕ) (s : ℕ) → open_one closed o ≡ some s → o ≡ some s
open_one_sound closed none s e = cc
open_one_sound closed (some t) s e = ground arith

cached-Serves :
    {c : Cache} (h : IsIsolated c) (closed : Closed) (token : String) (s : ℕ)
    → cached closed c token ≡ some s
    → Serves token s c
cached-Serves {c} h closed token s e =
    let g : get c.connections token ≡ some s =
      open_one_sound closed (get c.connections token) s (unfold cached in e) in
    record { cached = g; tasked = h.tasked token s g }

reuse_or_spawn-Serves :
    {c : Cache} (h : IsIsolated c) (closed : Closed) (token : String)
    → Serves token (reuse_or_spawn closed token c).0 (reuse_or_spawn closed token c).1
reuse_or_spawn-Serves {c} h closed token = elim (Option-cases (cached closed c token)) [
  | inl e ↦
      rw (spawned_of closed token c e)
        (record { cached = simp (get-insert, eq_refl); tasked = inl refl })
  | inr (s, e) ↦ rw (reused_of closed token c s e) (cached-Serves h closed token s e)
]

module _ (D : Database) (now later : Closed) (during : Cache → Cache) (db : D.Db) (token : String)
    (c : Cache) where
  abbrev outcome : Result Error ℕ × Cache
  outcome = sender_for D now later during db token c

  abbrev looked_up : DbResult (Option Model)
  looked_up = D.find_one (has_token token) db

  fast : (s : ℕ) → cached now c token ≡ some s → outcome ≡ (ok s, c)
  unfolding sender_for
  fast s e = ground arith

  slow : cached now c token ≡ none → outcome ≡ after_query D looked_up later token (during c)
  unfolding sender_for
  slow e = ground arith

  after_query-some :
      (m : Model) (d : Cache)
      → after_query D (ok (some m)) later token d
        ≡ (ok (reuse_or_spawn later token d).0, (reuse_or_spawn later token d).1)
  unfolding after_query
  after_query-some m d = refl

  after_query-Serves :
      (r : DbResult (Option Model)) (s : ℕ) (d : Cache)
      → IsIsolated d
      → (after_query D r later token d).0 ≡ ok s
      → Serves token s (after_query D r later token d).1
  after_query-Serves (err x) s d h e = absurd (unfold after_query in ok-ne-err (sym e))
  after_query-Serves (ok none) s d h e = absurd (unfold after_query in ok-ne-err (sym e))
  after_query-Serves (ok (some m)) s d h e =
      let q : (reuse_or_spawn later token d).0 ≡ s =
        ok_injective (sym (ap (λ p. p.0) (after_query-some m d)) ∙ e) in
      rw (after_query-some m d) (
        subst (λ t. Serves token t (reuse_or_spawn later token d).1) q
          (reuse_or_spawn-Serves h later token))

  -- The sender that `sender_for` hands out for a token is the one that the cache then holds for
  -- it, and leads to the dispatcher of that token.
  pub sender_for-Serves :
      (s : ℕ)
      → Reach empty c
      → Reach c (during c)
      → (sender_for D now later during db token c).0 ≡ ok s
      → Serves token s (sender_for D now later during db token c).1
  sender_for-Serves s r q e = elim (Option-cases (cached now c token)) [
    | inl miss ↦ rw (slow miss) (
        after_query-Serves looked_up s (during c)
          (Reach-IsIsolated (Reach-IsIsolated IsIsolated-empty r) q)
          (sym (ap (λ p. p.0) (slow miss)) ∙ e))
    | inr (t, hit) ↦ rw (fast t hit) (
        subst (λ x. Serves token x c) (ok_injective (sym (ap (λ p. p.0) (fast t hit)) ∙ e))
          (cached-Serves (Reach-IsIsolated IsIsolated-empty r) now token t hit))
  ]

  abbrev Refused : Result Error ℕ × Cache → Type 0
  Refused o =
      ((o.0 ≡ err application_not_found) ⊎ ((x : String) × (o.0 ≡ err (database x))))
      × (o.1 ≡ during c)

  after_query_unknown :
      All (λ m. has_token token m ≡ false) (D.rows db)
      → (r : DbResult (Option Model)) → looked_up ≡ r
      → Refused (after_query D r later token (during c))
  unfolding after_query
  after_query_unknown absent (err x) f = (inr (x, refl), refl)
  after_query_unknown absent (ok none) f = (inl refl, refl)
  after_query_unknown absent (ok (some m)) f =
      let (t, i) = D.find_one_ok (has_token token) db (some m) f in
      let no_match = All-In (λ m. has_token token m ≡ false) (D.rows db) absent i in
      absurd (false≢true (sym no_match ∙ t))

  -- A token that no application has gets no dispatcher: where the cache has no open sender for
  -- it, the request is refused, and the cache is what the other tasks have made of it.
  pub sender_for_unknown :
      All (λ m. has_token token m ≡ false) (D.rows db)
      → cached now c token ≡ none
      → (((sender_for D now later during db token c).0 ≡ err application_not_found)
          ⊎ ((x : String) × ((sender_for D now later during db token c).0 ≡ err (database x))))
        × ((sender_for D now later during db token c).1 ≡ during c)
  sender_for_unknown absent miss = rw (slow miss) (after_query_unknown absent looked_up refl)
