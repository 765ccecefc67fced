-- ===== src/Bin.antt =====
-- src/databin.c: the list of binary records in memory, with its read position, and its file.
-- A pointer to a list element, or to the record of one, is the number `at` that the element got
-- when it was allocated; a freed element is no longer in the list.
pub mod Walk
pub mod Places
pub mod Opened
pub mod Safe
pub mod Lookup
pub mod Order
pub mod Disk
pub mod RoundTrip
mod Examples
use ic35link.Base.{
  ℕ, suc, ◌+◌, ◌≡◌, Bool, true, false, Option, none, some, List, [], ◌∷◌, ◌++◌, ◌==◌, ◌||◌, not,
  if◌then◌else◌, map, ltb,
}
use ic35link.Base.Int.{ℤ}
use ic35link.Record.{
  Ic35Rec, new_ic35rec, set_ic35recid, set_ic35recchg, set_ic35recdata, get_ic35recdata,
}
use ic35link.Record.Ids.{file_id, rec_id, file_any}

pub record Elmt : Type 0 where
  pub at : ℕ
  pub rec : Ic35Rec

-- `next_at` is the pointer that the next malloc() returns.
pub record Bin : Type 0 where
  pub binlist : List Elmt
  pub binget : Option ℕ
  pub next_at : ℕ

unfoldable pub bin_rewind : Bin → Bin
bin_rewind s = record s { binget = none }

-- The elements behind the one at a pointer: `none` is a pointer to an element that was freed.
unfoldable pub behind : ℕ → List Elmt → Option (List Elmt)
behind at [] = none
behind at (e ∷ es) = let rest = behind at es in if e.at == at then some es else rest

abbrev pub is_in_file : ℕ → Elmt → Bool
is_in_file fileid e = fileid == file_any || file_id e.rec.id == fileid

unfoldable pub first_in_file : ℕ → List Elmt → Option Elmt
first_in_file fileid [] = none
first_in_file fileid (e ∷ es) =
    let rest = first_in_file fileid es in if is_in_file fileid e then some e else rest

abbrev pub at_of : Option Elmt → Option ℕ
at_of none = none
at_of (some e) = some e.at

-- Where bin_getrec() starts to look.
unfoldable pub from : Option ℕ → List Elmt → Option (List Elmt)
from none es = some es
from (some at) es = behind at es

unfoldable pub look : Bin → ℕ → Option (List Elmt) → Option (Option Elmt × Bin)
look s fileid none = none
look s fileid (some es) =
    let found = first_in_file fileid es in some (found, record s { binget = at_of found })

-- `none` when the read position is an element that was freed, which C leaves undefined; else the
-- record found, `none` for NULL, and the list.
unfoldable pub bin_getrec : Bin → ℕ → Option (Option Elmt × Bin)
bin_getrec s fileid = look s fileid (from s.binget s.binlist)

unfoldable pub find_id : ℕ → List Elmt → Option Elmt
find_id recid [] = none
find_id recid (e ∷ es) = let rest = find_id recid es in if e.rec.id == recid then some e else rest

unfoldable pub bin_getrec_byid : Bin → ℕ → Option Elmt
bin_getrec_byid s recid = if rec_id recid == 0 then none else find_id recid s.binlist

-- The record at a pointer is changed in its place.
unfoldable pub change : ℕ → (Ic35Rec → Ic35Rec) → List Elmt → List Elmt
change at f [] = []
change at f (e ∷ es) = (if e.at == at then record e { rec = f e.rec } else e) ∷ change at f es

-- Id and data of one record to another: the source, whose data may be rebuilt, and the target.
unfoldable pub copy_rec : ℕ → Ic35Rec → Ic35Rec → Ic35Rec × Ic35Rec
copy_rec stray to r =
    let (r', bytes, dlen) = get_ic35recdata r in
    (r', set_ic35recdata stray (set_ic35recid to r.id) bytes)

-- `none` is a NULL `ic35rec`. The binary record, whose data may be rebuilt, and the IC35 record.
unfoldable pub bin_updic35rec : ℕ → Option Ic35Rec → Ic35Rec → Ic35Rec × Ic35Rec
bin_updic35rec stray none r = copy_rec stray new_ic35rec r
bin_updic35rec stray (some ic35rec) r = copy_rec stray ic35rec r

abbrev pub has_file : ℕ → List Elmt → Bool
has_file f [] = false
has_file f (e ∷ es) = file_id e.rec.id == f || has_file f es

-- Behind the last element of the file, or at the end when the file has none.
unfoldable pub insert_in_file : ℕ → Elmt → List Elmt → List Elmt
insert_in_file f new [] = new ∷ []
insert_in_file f new (e ∷ es) =
    let rest = insert_in_file f new es in
    if file_id e.rec.id == f then (if has_file f es then e ∷ rest else e ∷ new ∷ es) else e ∷ rest

unfoldable pub put_found : ℕ → Bin → Ic35Rec → Option Elmt → Bin × Ic35Rec × ℕ
put_found stray s r (some e) =
    let (r', to) = copy_rec stray e.rec r in
    (record s { binlist = change e.at (λ old. to) s.binlist }, r', e.at)
put_found stray s r none =
    let (r', to) = copy_rec stray new_ic35rec r in
    let new : Elmt = record { at = s.next_at; rec = to } in
    let es = insert_in_file (file_id r.id) new s.binlist in
    (record s { binlist = es; next_at = suc s.next_at }, r', s.next_at)

-- The list, the IC35 record, whose data may be rebuilt, and the pointer to the binary record.
unfoldable pub bin_putic35rec : ℕ → Bin → Ic35Rec → Bin × Ic35Rec × ℕ
bin_putic35rec stray s r = put_found stray s r (bin_getrec_byid s r.id)

unfoldable pub unlink : ℕ → List Elmt → List Elmt
unlink at [] = []
unlink at (e ∷ es) = let rest = unlink at es in if e.at == at then es else e ∷ rest

unfoldable pub bin_delrec : Bin → ℕ → Bin
bin_delrec s at = record s { binlist = unlink at s.binlist }

unfoldable pub bin_recid : Ic35Rec → ℕ
bin_recid r = r.id

unfoldable pub bin_set_recid : Bin → ℕ → ℕ → Bin
bin_set_recid s at recid = record s { binlist = change at (λ r. set_ic35recid r recid) s.binlist }

-- dataio.h: the status of a PC record, and ic35frec.h: the change flag of a record.
abbrev pub pim_clean : ℕ
pim_clean = 0

abbrev pub pim_dirty : ℕ
pim_dirty = 1

abbrev pub pim_del : ℕ
pim_del = 3

abbrev pub ic35_new : ℕ
ic35_new = 0x80

abbrev pub ic35_mod : ℕ
ic35_mod = 0x40

abbrev pub ic35_del : ℕ
ic35_del = 0x20

abbrev pub ic35_clean : ℕ
ic35_clean = 0x00

unfoldable pub bin_recstat : Ic35Rec → ℕ
bin_recstat r =
    if r.chg == ic35_clean
    then pim_clean
    else if r.chg == ic35_new || r.chg == ic35_mod
    then pim_dirty
    else if r.chg == ic35_del
    then pim_del
    else pim_dirty

-- A status that is none of the three changes nothing.
unfoldable pub set_recstat : Ic35Rec → ℕ → Ic35Rec
set_recstat r stat =
    if stat == pim_clean
    then set_ic35recchg r ic35_clean
    else if stat == pim_dirty
    then set_ic35recchg r ic35_new
    else if stat == pim_del
    then set_ic35recchg r ic35_del
    else r

unfoldable pub bin_set_recstat : Bin → ℕ → ℕ → Bin
bin_set_recstat s at stat = record s { binlist = change at (λ r. set_recstat r stat) s.binlist }
