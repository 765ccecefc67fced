-- ===== src/Rectab.antt =====
-- src/ic35sync.c, the table of records and actions that import and sync note while they read. A
-- pointer to a record is a number, and `recid_of` reports the record id behind it. Memory is not
-- exhausted.
pub mod Order
mod Examples
use ic35link.Base.{
  ℕ, zero, suc, ◌+◌, Bool, true, false, Option, none, some, List, [], ◌∷◌, ◌==◌, ◌||◌,
  if◌then◌else◌, replicate,
}

pub data Ic35Op : Type 0 where
  noact : Ic35Op
  delete : Ic35Op
  write : Ic35Op
  update : Ic35Op
  commit : Ic35Op

-- `pim` is `none` for NULL.
pub record RecOp : Type 0 where
  pub rec : ℕ
  pub op : Ic35Op
  pub pim : Option ℕ

-- The table: `none` is an entry whose record is NULL, of which nothing else is read.
abbrev pub Table : Type 0
Table = List (Option RecOp)

abbrev pub add_chunks : ℕ
add_chunks = 64

-- An entry of the record is overwritten, else the first free one; a table that has neither grows.
unfoldable pub put_ic35recs : Table → RecOp → Table
put_ic35recs [] e = some e ∷ replicate 63 none
put_ic35recs (none ∷ t) e = some e ∷ t
put_ic35recs (some x ∷ t) e =
    let rest = put_ic35recs t e in if x.rec == e.rec then some e ∷ t else some x ∷ rest

-- `recid` 0 is the first record, whatever its id. The entry that is returned is free then.
unfoldable pub get_ic35recs : (ℕ → ℕ) → Table → ℕ → Option RecOp × Table
get_ic35recs recid_of [] recid = (none, [])
get_ic35recs recid_of (none ∷ t) recid =
    let (found, rest) = get_ic35recs recid_of t recid in (found, none ∷ rest)
get_ic35recs recid_of (some x ∷ t) recid =
    let (found, rest) = get_ic35recs recid_of t recid in
    if recid == 0 || recid_of x.rec == recid then (some x, none ∷ t) else (found, some x ∷ rest)

-- The records that were left, which it frees, and the empty table.
unfoldable pub del_ic35recs : Table → ℕ × Table
del_ic35recs [] = (0, [])
del_ic35recs (none ∷ t) = del_ic35recs t
del_ic35recs (some x ∷ t) = (suc (del_ic35recs t).0, [])
