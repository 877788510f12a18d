-- ===== src/Snapshot/Rows.antt =====
-- Reading a table of snapshots after a row was saved or deleted.
use reputo.Prelude.{
  String, ◌≡◌, refl, sym, subst, not, none, some, List, [], ◌∷◌, arith, str_eq, str_eq_iff, keep,
  if◌then◌else◌,
}
use reputo.Snapshot.Repository.{Snapshot, find_one, save}

pub id-of_find_one :
    (id : String) (rows : List Snapshot) (row : Snapshot)
    → find_one id rows ≡ some row
    → row.id ≡ id
unfolding find_one
id-of_find_one id [] row h = cc
id-of_find_one id (r ∷ rows) row h = ground (arith, id-of_find_one id rows row, str_eq_iff r.id id)

pub find_one-id :
    (id : String) (rows : List Snapshot) (row : Snapshot)
    → find_one id rows ≡ some row
    → find_one row.id rows ≡ some row
find_one-id id rows row h =
    subst (λ k. find_one k rows ≡ some row) (sym (id-of_find_one id rows row h)) h

-- The saved row replaces the one that had its id, and no other.
pub find_one-save :
    (row old : Snapshot) (rows : List Snapshot) (j : String)
    → find_one row.id rows ≡ some old
    → find_one j (save row rows) ≡ (if str_eq row.id j then some row else find_one j rows)
unfolding find_one save
find_one-save row old [] j h = cc
find_one-save row old (r ∷ rows) j h = ground (
  arith,
  find_one-save row old rows j,
  str_eq_iff r.id row.id,
  str_eq_iff r.id j,
  str_eq_iff row.id j,
)

pub find_one-save_self :
    (row old : Snapshot) (rows : List Snapshot)
    → find_one row.id rows ≡ some old
    → find_one row.id (save row rows) ≡ some row
find_one-save_self row old rows h =
    ground (arith, find_one-save row old rows row.id h, str_eq_iff row.id row.id)

pub find_one-save_at :
    (id : String) (row old : Snapshot) (rows : List Snapshot)
    → row.id ≡ id
    → find_one id rows ≡ some old
    → find_one id (save row rows) ≡ some row
find_one-save_at id row old rows e h =
    subst (λ k. find_one k (save row rows) ≡ some row) e
      (find_one-save_self row old rows (subst (λ k. find_one k rows ≡ some old) (sym e) h))

pub save-save :
    (a b : Snapshot) (rows : List Snapshot) → a.id ≡ b.id → save b (save a rows) ≡ save b rows
unfolding save
save-save a b [] e = refl
save-save a b (r ∷ rows) e =
    ground (
      arith,
      save-save a b rows e,
      str_eq_iff r.id a.id,
      str_eq_iff r.id b.id,
      str_eq_iff a.id b.id,
    )

pub find_one-delete :
    (id j : String) (rows : List Snapshot)
    → find_one j (keep (λ r. not (str_eq r.id id)) rows)
      ≡ (if str_eq id j then none else find_one j rows)
unfolding find_one
find_one-delete id j [] = ground arith
find_one-delete id j (r ∷ rows) =
    ground
      (arith, find_one-delete id j rows, str_eq_iff r.id id, str_eq_iff r.id j, str_eq_iff id j)
