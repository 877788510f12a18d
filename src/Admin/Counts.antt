-- ===== src/Admin/Counts.antt =====
-- Counting rows of the allowlist before and after an update.
use reputo.Prelude.{
  ℕ, ◌+◌, ◌≤◌, String, Bool, true, false, ◌&&◌, ◌≡◌, refl, some, List, [], ◌∷◌, arith, str_eq,
  str_eq_iff, count, any, find, Bool-cases, inl, inr,
}
use reputo.Admin.Allowlist.{
  AllowlistRow, is_owner, has_key, is_current, update, count_active_owners,
}

-- how many rows have a key
abbrev pub keyed : String → String → List AllowlistRow → ℕ
keyed p e = count (has_key p e)

-- The unique index of the table.
abbrev pub IsUnique : List AllowlistRow → Type 0
IsUnique rows = (p e : String) → keyed p e rows ≤ 1

-- an update that leaves the keys alone
abbrev pub KeepsKey : (AllowlistRow → AllowlistRow) → Type 0
KeepsKey f = (row : AllowlistRow) → ((f row).provider ≡ row.provider) × ((f row).email ≡ row.email)

pub keyed-update :
    (q : AllowlistRow → Bool) (f : AllowlistRow → AllowlistRow) (p e : String)
    (rows : List AllowlistRow)
    → KeepsKey f
    → keyed p e (update q f rows) ≡ keyed p e rows
unfolding update
keyed-update q f p e [] k = refl
keyed-update q f p e (row ∷ rows) k = elim (Bool-cases (q row)) [
  | inl t ↦ rw (t, (k row).0, (k row).1) (omega (arith, keyed-update q f p e rows k))
  | inr n ↦ rw n (omega (arith, keyed-update q f p e rows k))
]

-- an update that revokes or demotes loses at most the rows of its key
pub owners-update_key :
    (p e : String) (g : AllowlistRow → Bool) (f : AllowlistRow → AllowlistRow)
    (rows : List AllowlistRow)
    → count_active_owners p rows
      ≤ count_active_owners p (update (λ row. has_key p e row && g row) f rows) + keyed p e rows
unfolding count_active_owners update
owners-update_key p e g f [] = omega arith
owners-update_key p e g f (row ∷ rows) = elim (Bool-cases (has_key p e row)) [
  | inl t ↦ rw t (ground (arith, owners-update_key p e g f rows))
  | inr n ↦ rw n (ground (arith, owners-update_key p e g f rows))
]

-- an active owner of a provider
abbrev pub is_active_owner : String → AllowlistRow → Bool
is_active_owner p row = str_eq row.provider p && is_owner row.role && is_current row

-- an update that never makes an owner something else loses none
pub owners-update_raise :
    (p : String) (q : AllowlistRow → Bool) (f : AllowlistRow → AllowlistRow)
    (rows : List AllowlistRow)
    → ((row : AllowlistRow)
        → q row ≡ true
        → is_active_owner p row ≡ true
        → is_active_owner p (f row) ≡ true)
    → count_active_owners p rows ≤ count_active_owners p (update q f rows)
unfolding count_active_owners update
owners-update_raise p q f [] h = omega arith
owners-update_raise p q f (row ∷ rows) h = ground (arith, owners-update_raise p q f rows h, h row)

update-of_unkeyed :
    (p e : String) (g : AllowlistRow → Bool) (f : AllowlistRow → AllowlistRow)
    (rows : List AllowlistRow)
    → keyed p e rows ≡ 0
    → update (λ row. has_key p e row && g row) f rows ≡ rows
unfolding update
update-of_unkeyed p e g f [] h = refl
update-of_unkeyed p e g f (row ∷ rows) h = ground (arith, update-of_unkeyed p e g f rows)

-- With one row to a key, an update of a row that is no active owner loses no owner.
pub owners-update_other :
    (p e : String) (f : AllowlistRow → AllowlistRow) (rows : List AllowlistRow)
    {found : AllowlistRow}
    → keyed p e rows ≤ 1
    → find (λ row. has_key p e row && is_current row) rows ≡ some found
    → is_owner found.role ≡ false
    → count_active_owners p rows
      ≤ count_active_owners p (update (λ row. has_key p e row && is_current row) f rows)
unfolding count_active_owners update
owners-update_other p e f [] u h n = omega arith
owners-update_other p e f (row ∷ rows) {found} u h n = ground (
  arith,
  owners-update_other p e f rows {found = found},
  update-of_unkeyed p e is_current f rows,
  str_eq_iff row.provider p,
)

pub keyed-of_any :
    (p e : String) (rows : List AllowlistRow) → any (has_key p e) rows ≡ false → keyed p e rows ≡ 0
keyed-of_any p e [] h = refl
keyed-of_any p e (row ∷ rows) h = ground (arith, keyed-of_any p e rows)
