-- ===== src/Snapshot/Listed.antt =====
-- Which rows a pass of the reconciler lists (snapshot.repository.ts `findUnsettled`).
use mathlib.Core.List.{Memᴰ}
use reputo.Prelude.{
  true, not, ◌&&◌, ℕ, ◌<◌, String, ◌≡◌, ◌⊎◌, refl, subst, sym, inl, inr, some, List, [], ◌∷◌, arith,
  ltb, str_eq, Bool-cases,
}
use reputo.Snapshot.Status.{queued, running, is_terminal}
use reputo.Snapshot.Repository.{
  Snapshot, find_unsettled, find_one, insert_by_created, order_by_created,
}

insert-new : (row : Snapshot) (rows : List Snapshot) → Memᴰ row (insert_by_created row rows)
unfolding insert_by_created
insert-new row [] = Memᴰ.head refl
insert-new row (r ∷ rows) = elim (Bool-cases (ltb r.created_at row.created_at)) [
  | inl t ↦ rw t (Memᴰ.tail (insert-new row rows))
  | inr n ↦ rw n (Memᴰ.head refl)
]

insert-old :
    (row new : Snapshot) (rows : List Snapshot)
    → Memᴰ row rows
    → Memᴰ row (insert_by_created new rows)
unfolding insert_by_created
insert-old row new [] m = elim m [ ]
insert-old row new (r ∷ rows) m = elim (Bool-cases (ltb r.created_at new.created_at)) [
  | inr n ↦ rw n (Memᴰ.tail m)
  | inl t ↦ rw t (elim m [
    | Memᴰ.head e ↦ Memᴰ.head e
    | Memᴰ.tail later ↦ Memᴰ.tail (insert-old row new rows later)
  ])
]

-- A row that is queued or running and has rested is listed.
pub unsettled-Memᴰ :
    (row : Snapshot) (before : ℕ) (rows : List Snapshot)
    → Memᴰ row rows
    → (row.status ≡ queued) ⊎ (row.status ≡ running)
    → row.updated_at < before
    → Memᴰ row (find_unsettled before rows)
unfolding find_unsettled order_by_created
unsettled-Memᴰ row before [] m open_still rested = elim m [ ]
unsettled-Memᴰ row before (r ∷ rows) m open_still rested =
    let later = find_unsettled before rows in
    let listed = not (is_terminal r.status) && ltb r.updated_at before in
    elim m [
      | Memᴰ.head e ↦
          let fits : listed ≡ true =
            subst (λ x. (not (is_terminal x.status) && ltb x.updated_at before) ≡ true) e
              (ground (arith, open_still, rested)) in
          rw fits (subst (λ x. Memᴰ x (insert_by_created r later)) (sym e) (insert-new r later))
      | Memᴰ.tail deep ↦
          let there = unsettled-Memᴰ row before rows deep open_still rested in
          elim (Bool-cases listed) [
            | inl t ↦ rw t (insert-old row r later there)
            | inr n ↦ rw n there
          ]
    ]

pub find_one-Memᴰ :
    (id : String) (rows : List Snapshot) {row : Snapshot}
    → find_one id rows ≡ some row
    → Memᴰ row rows
unfolding find_one
find_one-Memᴰ id [] h = ground (arith, h)
find_one-Memᴰ id (r ∷ rows) {row} h = elim (Bool-cases (str_eq r.id id)) [
  | inl t ↦ let e : row ≡ r = ground (arith, h, t) in Memᴰ.head e
  | inr n ↦ Memᴰ.tail (find_one-Memᴰ id rows (ground (arith, h, n)))
]
