-- ===== src/Proxy/Cache/Isolation.antt =====
-- The cache of upstream connections keeps the sessions apart (server/src/proxy.rs), whatever the
-- order in which tasks enter its locked sections.
use spark_plug.Common.{
  ℕ, ◌<◌, String, ◌≡◌, refl, Option, none, some, arith, string_eq, eq_iff, In, inl, inr,
  Option-cases, Bool-cases,
}
use spark_plug.Map.{get, get-insert, get-remove}
use spark_plug.Proxy.Cache.{
  Cache, new, Closed, cached, spawn, reuse_or_spawn, remove_closed, invalidate,
}

abbrev pub empty : Cache
empty = new

-- Each sender in the map leads to the dispatcher of its token, and no channel has two.
pub record IsIsolated (c : Cache) : Type 0 where
  pub tasked : (k : String) (s : ℕ) → get c.connections k ≡ some s → In (s, k) c.spawned
  pub numbered : (k : String) (s : ℕ) → In (s, k) c.spawned → s < c.next
  pub single : (s : ℕ) (j k : String) → In (s, j) c.spawned → In (s, k) c.spawned → j ≡ k

pub IsIsolated-empty : IsIsolated empty
IsIsolated-empty = record {
  tasked = λ k s e. unfold get in cc e;
  numbered = λ k s h. absurd h;
  single = λ s j k h h'. absurd h;
}

pub spawned_of :
    (closed : Closed) (token : String) (c : Cache)
    → cached closed c token ≡ none
    → reuse_or_spawn closed token c ≡ (c.next, spawn token c)
unfolding reuse_or_spawn
spawned_of closed token c e = ground arith

pub reused_of :
    (closed : Closed) (token : String) (c : Cache) (s : ℕ)
    → cached closed c token ≡ some s
    → reuse_or_spawn closed token c ≡ (s, c)
unfolding reuse_or_spawn
reused_of closed token c s e = ground arith

module _ {c : Cache} (h : IsIsolated c) where
  spawn-IsIsolated : (token : String) → IsIsolated (spawn token c)
  spawn-IsIsolated token = record {
    tasked = λ k s e.
        ground (arith, get-insert c.connections token k c.next, eq_iff token k, h.tasked k s);
    numbered = λ k s i. ground (arith, h.numbered k s);
    single = λ s j k i i'. ground (arith, h.numbered j s, h.numbered k s, h.single s j k);
  }

  remove-IsIsolated : (token : String) → IsIsolated (invalidate token c)
  unfolding invalidate
  remove-IsIsolated token = record {
    tasked = λ k s e. ground (arith, get-remove c.connections token k, h.tasked k s);
    numbered = h.numbered;
    single = h.single;
  }

  reuse_or_spawn-IsIsolated :
      (closed : Closed) (token : String) → IsIsolated (reuse_or_spawn closed token c).1
  reuse_or_spawn-IsIsolated closed token = elim (Option-cases (cached closed c token)) [
    | inl e ↦ rw (spawned_of closed token c e) (spawn-IsIsolated token)
    | inr (s, e) ↦ rw (reused_of closed token c s e) h
  ]

  remove_closed-IsIsolated :
      (closed : Closed) (token : String) → IsIsolated (remove_closed closed token c)
  remove_closed-IsIsolated closed token = go (get c.connections token) refl
    where
      go : (o : Option ℕ) → get c.connections token ≡ o → IsIsolated (remove_closed closed token c)
      go none e = unfold remove_closed in rw e h
      go (some s) e = elim (Bool-cases (closed s)) [
        | inl t ↦ unfold remove_closed in rw e (rw t (unfold invalidate in remove-IsIsolated token))
        | inr t ↦ unfold remove_closed in rw e (rw t h)
      ]

-- The locked sections of the tasks. The one that only reads the map changes nothing.
pub data Step (c : Cache) : Cache → Type 0 where
  served : (closed : Closed) (token : String) → Step c (reuse_or_spawn closed token c).1
  dropped : (closed : Closed) (token : String) → Step c (remove_closed closed token c)
  forgot : (token : String) → Step c (invalidate token c)

pub data Reach (c : Cache) : Cache → Type 0 where
  here : Reach c c
  next : {d e : Cache} → Reach c d → Step d e → Reach c e

Step-IsIsolated : {c d : Cache} → Step c d → IsIsolated c → IsIsolated d
Step-IsIsolated (served closed token) h = reuse_or_spawn-IsIsolated h closed token
Step-IsIsolated (dropped closed token) h = remove_closed-IsIsolated h closed token
Step-IsIsolated (forgot token) h = remove-IsIsolated h token

pub Reach-IsIsolated : {c d : Cache} → IsIsolated c → Reach c d → IsIsolated d
Reach-IsIsolated h here = h
Reach-IsIsolated h (next r st) = Step-IsIsolated st (Reach-IsIsolated h r)

-- In whatever order the tasks have entered the locked sections since the server started, an open
-- sender of the cache under a token leads to the dispatcher of that token and of no other.
pub cached-isolated :
    (c : Cache) (closed : Closed) (j k : String) (s : ℕ)
    → Reach empty c
    → cached closed c j ≡ some s
    → In (s, j) c.spawned × (In (s, k) c.spawned → j ≡ k)
cached-isolated c closed j k s r e =
    let h = Reach-IsIsolated IsIsolated-empty r in
    let i = h.tasked j s (unfold cached in ground arith) in (i, λ i'. h.single s j k i i')
