-- ===== src/Server/Prune.antt =====
-- What `prune` deletes, and its cutoff (server/src/lib.rs).
use spark_plug.Common.{
  ℕ, ◌+◌, ◌-◌, ◌*◌, ◌^◌, ◌≤◌, ◌<◌, ◌≡◌, ◌↔◌, refl, Bool, true, not, ◌||◌, ◌⊎◌, Option, some, List,
  [], ◌∷◌, All, arith, ℤ, pos, negsuc, ◌-ℤ◌, ◌≤ℤ◌, le_int_iff, keep, String, Option-cases, inl, inr,
  Result, ok, err, ok-ne-err, ok_injective, ap, sym, ◌∙◌,
}
use spark_plug.Application.{DateTime, Model, State, launching, running, failed, finished, state_eq}
use spark_plug.Database.{Database}
use spark_plug.Server.{
  as_i64, saturating_sub, cutoff_seconds, cutoff_at, is_over, is_pruned, prune, prune_at,
}

as_i64_small : (n : ℕ) → n < 2 ^ 63 → as_i64 n ≡ pos n
as_i64_small n h = unfold as_i64 in ground arith

as_i64_large : (n : ℕ) → 2 ^ 63 ≤ n → as_i64 n ≡ negsuc (2 ^ 64 - 1 - n)
as_i64_large n h = unfold as_i64 in ground arith

sub_small : (a b : ℕ) → a < 2 ^ 63 → b < 2 ^ 63 → saturating_sub (pos a) (pos b) ≡ pos a -ℤ pos b
sub_small a b h k = unfold saturating_sub in ground arith

-- For a clock and a threshold below 2^63 seconds, the cutoff is their difference.
pub cutoff_seconds_exact :
    (now older_than_seconds : ℕ)
    → now < 2 ^ 63
    → older_than_seconds < 2 ^ 63
    → cutoff_seconds now older_than_seconds ≡ pos now -ℤ pos older_than_seconds
cutoff_seconds_exact now s h k =
    unfold cutoff_seconds in rw (as_i64_small now h) (rw (as_i64_small s k) (sub_small now s h k))

-- The cutoff of a threshold that is short of 2^64 seconds by `j`: `j` seconds after the clock.
cutoff_seconds_wraps :
    (now j : ℕ) → 0 < j → now + j < 2 ^ 63 → cutoff_seconds now (2 ^ 64 - j) ≡ pos (now + j)
cutoff_seconds_wraps now j h k =
    unfold cutoff_seconds in
    rw (as_i64_small now (omega arith))
      (rw (as_i64_large (2 ^ 64 - j) (omega arith)) (unfold saturating_sub in ground arith))

-- An application that has come to its end, and was created at a time or before it.
abbrev pub IsOver : Model → Type 0
IsOver m = (m.state ≡ failed) ⊎ (m.state ≡ finished)

abbrev pub IsOld : DateTime → Model → Type 0
IsOld cutoff m = IsOver m × (m.created_at ≤ℤ cutoff)

is_over_iff : (m : Model) → (is_over m ≡ true) ↔ IsOver m
is_over_iff m = go m.state
  where
    go :
        (s : State)
        → ((state_eq s failed || state_eq s finished) ≡ true) ↔ ((s ≡ failed) ⊎ (s ≡ finished))
    go launching = ground arith
    go running = ground arith
    go failed = ground arith
    go finished = ground arith

is_pruned_iff : (cutoff : DateTime) (m : Model) → (is_pruned cutoff m ≡ true) ↔ IsOld cutoff m
is_pruned_iff cutoff m = ground (arith, is_over_iff m, le_int_iff m.created_at cutoff)

-- A test of a property.
abbrev pub IsTest : (Model → Bool) → (Model → Type 0) → Type 0
IsTest test P = (m : Model) → (test m ≡ true) ↔ P m

-- The rows without those of a property.
pub record IsWithout (P : Model → Type 0) (before after : List Model) : Type 0 where
  pub test : Model → Bool
  pub tests : IsTest test P
  pub rows : after ≡ keep (λ m. not (test m)) before

keep-same :
    (p q : Model → Bool) (ms : List Model)
    → All (λ m. p m ≡ q m) ms
    → keep (λ m. not (p m)) ms ≡ keep (λ m. not (q m)) ms
keep-same p q [] h = refl
keep-same p q (m ∷ ms) h = rw (keep-same p q ms h.1) (rw h.0 refl)

pruned-over :
    (cutoff : DateTime) (ms : List Model)
    → All (λ m. m.created_at ≤ℤ cutoff) ms
    → All (λ m. is_pruned cutoff m ≡ is_over m) ms
pruned-over cutoff [] h = tt
pruned-over cutoff (m ∷ ms) h =
    (ground (arith, le_int_iff m.created_at cutoff, h.0), pruned-over cutoff ms h.1)

All-past :
    (now j : ℕ) (ms : List Model)
    → 0 < j
    → All (λ m. m.created_at ≤ℤ pos ((now + 1) * 1000000000)) ms
    → All (λ m. m.created_at ≤ℤ pos ((now + j) * 1000000000)) ms
All-past now j [] h past = tt
All-past now j (m ∷ ms) h past = (later m.created_at past.0, All-past now j ms h past.1)
  where
    later : (t : DateTime) → t ≤ℤ pos ((now + 1) * 1000000000) → t ≤ℤ pos ((now + j) * 1000000000)
    later t p = omega (arith, p, h)

module _ (D : Database) where
  prune_at_rows :
      (o : Result String DateTime) (cutoff : DateTime) (db : D.Db) (n : ℕ)
      → o ≡ ok cutoff
      → (prune_at D o db).0 ≡ ok n
      → D.rows (prune_at D o db).1 ≡ keep (λ m. not (is_pruned cutoff m)) (D.rows db)
  unfolding prune_at
  prune_at_rows (err e) cutoff db n same h = absurd (ok-ne-err (sym same))
  prune_at_rows (ok c) cutoff db n same h =
      D.delete_many_ok (is_pruned c) db n h
      ∙ ap (λ c. keep (λ m. not (is_pruned c m)) (D.rows db)) (ok_injective same)

  -- A prune that succeeds, by its cutoff.
  pub prune_rows :
      (from_timestamp : ℤ → Option DateTime) (now older_than_seconds : ℕ) (cutoff : DateTime)
      (db : D.Db) (n : ℕ)
      → from_timestamp (cutoff_seconds now older_than_seconds) ≡ some cutoff
      → (prune D from_timestamp (ok now) older_than_seconds db).0 ≡ ok n
      → D.rows (prune D from_timestamp (ok now) older_than_seconds db).1
        ≡ keep (λ m. not (is_pruned cutoff m)) (D.rows db)
  unfolding prune
  prune_rows from_timestamp now s cutoff db n e h =
      prune_at_rows (cutoff_at from_timestamp (ok now) s) cutoff db n
        (unfold cutoff_at in rw e refl) h

  prune_at-err :
      (e : String) (o : Result String DateTime) (db : D.Db) (n : ℕ)
      → o ≡ err e
      → (prune_at D o db).0 ≡ ok n
      → ⊥
  unfolding prune_at
  prune_at-err e o db n same h = cc

  -- A prune that succeeds, where the clock and the threshold are below 2^63 seconds, has a cutoff:
  -- the time of their difference.
  pub prune_old :
      (from_timestamp : ℤ → Option DateTime) (now older_than_seconds : ℕ) (db : D.Db) (n : ℕ)
      → now < 2 ^ 63
      → older_than_seconds < 2 ^ 63
      → (prune D from_timestamp (ok now) older_than_seconds db).0 ≡ ok n
      → (cutoff : DateTime) × (from_timestamp (pos now -ℤ pos older_than_seconds) ≡ some cutoff)
        × IsWithout
            (IsOld cutoff)
            (D.rows db)
            (D.rows (prune D from_timestamp (ok now) older_than_seconds db).1)
  prune_old from_timestamp now s db n h k e =
      elim (Option-cases (from_timestamp (cutoff_seconds now s))) [
        | inl f ↦ absurd (
            prune_at-err "Failed to create prune cutoff timestamp"
              (cutoff_at from_timestamp (ok now) s) db n (unfold cutoff_at in rw f refl)
              (unfold prune in e))
        | inr (cutoff, f) ↦ (
          cutoff,
          ap from_timestamp (sym (cutoff_seconds_exact now s h k)) ∙ f,
          record {
            test = is_pruned cutoff;
            tests = is_pruned_iff cutoff;
            rows = prune_rows from_timestamp now s cutoff db n f e;
          },
        )
      ]

  -- Where the clock, of `now` seconds, and `now + j` seconds are in range, and no row was created
  -- more than a second after the clock: a threshold that is `j` seconds short of 2^64, which the
  -- `u64` holds, makes a prune that succeeds delete every application that is FAILED or FINISHED,
  -- however new, and no other.
  pub prune_wraps :
      (from_timestamp : ℤ → Option DateTime) (now j : ℕ) (db : D.Db) (n : ℕ)
      → 0 < j
      → now + j < 2 ^ 63
      → from_timestamp (pos (now + j)) ≡ some (pos ((now + j) * 1000000000))
      → All (λ m. m.created_at ≤ℤ pos ((now + 1) * 1000000000)) (D.rows db)
      → (prune D from_timestamp (ok now) (2 ^ 64 - j) db).0 ≡ ok n
      → IsWithout IsOver (D.rows db) (D.rows (prune D from_timestamp (ok now) (2 ^ 64 - j) db).1)
  prune_wraps from_timestamp now j db n h k t past e =
      let cutoff = pos ((now + j) * 1000000000) in
      record {
        test = is_over;
        tests = is_over_iff;
        rows =
            prune_rows from_timestamp now (2 ^ 64 - j) cutoff db n
              (ap from_timestamp (cutoff_seconds_wraps now j h k) ∙ t) e
            ∙ keep-same (is_pruned cutoff) is_over (D.rows db)
                (pruned-over cutoff (D.rows db) (All-past now j (D.rows db) h past));
      }
