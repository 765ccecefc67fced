-- ===== src/Record/Compare.antt =====
-- cmp_ic35rec() of src/ic35frec.c: which differences between two records are ignored.
-- Of a time text with five characters the C code reads one byte more than it stored; here the text
-- ends there.
pub mod Spec
use ic35link.Base.{
  ℕ, zero, suc, ◌+◌, ◌-◌, ◌%◌, ◌^◌, Bool, true, false, Option, none, some, List, [], ◌∷◌, ◌++◌,
  ◌==◌, ◌&&◌, ◌||◌, not, if◌then◌else◌, take, get_or,
}
use ic35link.Base.Int.{ℤ, pos, ok, err}
use ic35link.Record.{Ic35Rec, ic35recfld}
use ic35link.Record.Ids.{
  file_id, file_fld, ic35fnflds, a_category_id, m_category_id, t_category_id, s_start_time,
  s_end_time, s_alarm_before, s_alarm_repeat, s_rep_end_date, s_rep_count,
}

-- strcmp() == 0
unfoldable pub bytes_eq : List ℕ → List ℕ → Bool
bytes_eq [] [] = true
bytes_eq [] (b ∷ bs) = false
bytes_eq (a ∷ as') [] = false
bytes_eq (a ∷ as') (b ∷ bs) = if a == b then bytes_eq as' bs else false

-- `*p` of a C string.
abbrev pub first : List ℕ → ℕ
first s = get_or s 0 0

-- The IC35's odd times end in ":x" or "<x": these are set to "00". Of a text of fewer than four
-- characters the source looks at a byte behind its NUL, which is 0 here; what it writes then stands
-- behind the NUL too and leaves the text as it is.
unfoldable pub plain_time : ℕ → List ℕ → List ℕ
plain_time fldid s =
    let t = take 6 s in
    if (fldid == s_start_time && get_or t 4 0 == b':')
      || (fldid == s_end_time && get_or t 4 0 == b'<')
    then take 4 t ++ b'0' ∷ b'0' ∷ []
    else t

abbrev pub is_category : ℕ → Bool
is_category fldid = fldid == a_category_id || fldid == m_category_id || fldid == t_category_id

-- The switch on a field whose texts differ: whether the loop goes on.
unfoldable pub ignored : Ic35Rec → ℕ → List ℕ → List ℕ → Bool
ignored rec2 fldid ic35fld binfld =
    if is_category fldid
    then true
    else if fldid == s_start_time || fldid == s_end_time
    then bytes_eq (plain_time fldid ic35fld) binfld
    else if fldid == s_rep_end_date || fldid == s_rep_count
    then first (ic35recfld rec2 s_alarm_repeat) % 2 ^ 4 == 0
    else if fldid == s_alarm_repeat
    then first binfld % 2 ^ 6 == first ic35fld % 2 ^ 6
      && first (ic35recfld rec2 s_alarm_before) == 0
    else false

unfoldable pub field_same : Ic35Rec → Ic35Rec → ℕ → Bool
field_same rec1 rec2 fldid =
    let ic35fld = ic35recfld rec1 fldid in
    let binfld = ic35recfld rec2 fldid in
    if bytes_eq binfld ic35fld then true else ignored rec2 fldid ic35fld binfld

-- `left` fields from index `fi` on.
unfoldable pub cmp_loop : Ic35Rec → Ic35Rec → ℕ → ℕ → ℕ → ℤ
cmp_loop rec1 rec2 fileid zero fi = ok
cmp_loop rec1 rec2 fileid (suc left) fi =
    let rest = cmp_loop rec1 rec2 fileid left (suc fi) in
    if field_same rec1 rec2 (file_fld fileid fi) then rest else pos 1

-- `none` is a NULL record.
unfoldable pub cmp_ic35rec : Option Ic35Rec → Option Ic35Rec → ℤ
cmp_ic35rec none none = ok
cmp_ic35rec none (some rec2) = err
cmp_ic35rec (some rec1) none = err
cmp_ic35rec (some rec1) (some rec2) =
    let fileid = file_id rec1.id in
    if not (fileid == file_id rec2.id) then err else cmp_loop rec1 rec2 fileid (ic35fnflds fileid) 0
