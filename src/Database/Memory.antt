-- ===== src/Database/Memory.antt =====
-- A database that meets the laws of `Database`: the rows in a list, and no statement fails.
use mathlib.Core.Path.{subst}
use mathlib.Core.List.{Perm}
use mathlib.Core.List.Perm
use spark_plug.Common.{
  String, ℕ, suc, ◌≤◌, ℤ, pos, pos_part, ◌≡◌, ◌≢◌, refl, Bool, not, Option, none, some, List, [],
  ◌∷◌, arith, int_eq, eq_iff, ok, err, ok-ne-err, ok_injective, sym, keep, map_where, count_where,
  find, All, if◌then◌else◌, leb,
}
use spark_plug.Application.{Model}
use spark_plug.Database.{Database, NewModel, IsInserted, DbResult, IsOneOf, has_id}

-- The next value of the primary key's sequence.
abbrev next_id : List Model → ℕ
next_id [] = 1
next_id (m ∷ ms) = let n = next_id ms in if leb n (pos_part m.id) then suc (pos_part m.id) else n

abbrev make : NewModel → List Model → Model
make new db = record {
  id = pos (next_id db);
  created_at = pos 0;
  username = new.username;
  name = new.name;
  state = new.state;
  token = new.token;
  address = none;
  application_id = none;
}

abbrev updated : Option Model → DbResult Model
updated none = err "None of the records are updated"
updated (some m) = ok m

abbrev update_by_id : ℤ → (Model → Model) → List Model → Option Model → DbResult Model × List Model
update_by_id i f db none = (updated none, db)
update_by_id i f db (some m) = (updated (some (f m)), map_where (has_id i) f db)

All-fresh : (k : ℕ) (db : List Model) → next_id db ≤ k → All (λ r. r.id ≢ pos k) db
All-fresh k [] h = tt
All-fresh k (m ∷ ms) h = (ground (arith, eq_iff m.id (pos k)), All-fresh k ms (ground arith))

find-IsOneOf : (p : Model → Bool) (db : List Model) → IsOneOf p db (find p db)
find-IsOneOf p [] = tt
find-IsOneOf p (m ∷ ms) = ground (arith, find-IsOneOf p ms)

pub update_by_id_ok :
    (i : ℤ) (f : Model → Model) (db : List Model) (o : Option Model) (m : Model)
    → (update_by_id i f db o).0 ≡ ok m
    → (update_by_id i f db o).1 ≡ map_where (has_id i) f db
update_by_id_ok i f db none m h = cc
update_by_id_ok i f db (some a) m h = refl

pub update_by_id_err :
    (i : ℤ) (f : Model → Model) (db : List Model) (o : Option Model) (e : String)
    → (update_by_id i f db o).0 ≡ err e
    → (update_by_id i f db o).1 ≡ db
update_by_id_err i f db none e h = refl
update_by_id_err i f db (some a) e h = cc

pub insert_law :
    (new : NewModel) (db : List Model) (m : Model)
    → ◌≡◌ {A = DbResult Model} (ok (make new db)) (ok m)
    → IsInserted new m
      × (◌≡◌ {A = List Model} (make new db ∷ db) (m ∷ db))
      × All (λ r. r.id ≢ m.id) db
insert_law new db m h =
    let e : make new db ≡ m = cc in
    subst
      (λ m.
        IsInserted new m
        × (◌≡◌ {A = List Model} (make new db ∷ db) (m ∷ db))
        × All (λ r. r.id ≢ m.id) db)
      e
      (
        record {
          username = refl;
          name = refl;
          state = refl;
          token = refl;
          address = refl;
          application_id = refl;
        },
        refl,
        All-fresh (next_id db) db (omega arith),
      )

pub find_law :
    (p : Model → Bool) (db : List Model) (o : Option Model)
    → ◌≡◌ {A = DbResult (Option Model)} (ok (find p db)) (ok o)
    → IsOneOf p db o
find_law p db o h = let e : find p db ≡ o = cc in subst (IsOneOf p db) e (find-IsOneOf p db)

pub keep_law :
    (p : Model → Bool) (db : List Model) (ms : List Model)
    → ◌≡◌ {A = DbResult (List Model)} (ok (keep p db)) (ok ms)
    → Perm ms (keep p db)
keep_law p db ms h =
    let e : keep p db ≡ ms = cc in subst (λ xs. Perm xs (keep p db)) e (Perm.refl _)

abbrev pub memory : Database
memory = record {
  Db = List Model;
  rows = λ db. db;
  insert = λ new db. (ok (make new db), make new db ∷ db);
  find_one = λ p db. ok (find p db);
  find_all = λ p db. ok (keep p db);
  update_many = λ f p db. (ok (count_where p db), map_where p f db);
  update = λ i f db. update_by_id i f db (find (has_id i) db);
  delete_many = λ p db. (ok (count_where p db), keep (λ m. not (p m)) db);
  insert_ok = insert_law;
  insert_err = λ new db e h. absurd (ok-ne-err h);
  find_one_ok = find_law;
  find_all_ok = keep_law;
  update_many_ok = λ f p db n h. (refl, sym (ok_injective h));
  update_many_err = λ f p db e h. absurd (ok-ne-err h);
  update_ok = λ i f db m h. update_by_id_ok i f db (find (has_id i) db) m h;
  update_err = λ i f db e h. update_by_id_err i f db (find (has_id i) db) e h;
  delete_many_ok = λ p db n h. refl;
  delete_many_err = λ p db e h. absurd (ok-ne-err h);
}
