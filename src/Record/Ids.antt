-- ===== src/Record/Ids.antt =====
-- src/ic35frec.h: record ids, field ids and the files of the IC35; src/ic35frec.c: `ic35files`.
use ic35link.Base.{
  ℕ, ◌+◌, ◌*◌, ◌/◌, ◌%◌, ◌^◌, Bool, Option, none, some, List, [], ◌∷◌, ◌==◌, ◌||◌, if◌then◌else◌,
}

abbrev pub fileaddr : ℕ
fileaddr = 0x05

abbrev pub filememo : ℕ
filememo = 0x06

abbrev pub filetodo : ℕ
filetodo = 0x07

abbrev pub filesched : ℕ
filesched = 0x08

abbrev pub file_any : ℕ
file_any = 0

abbrev pub maxflds : ℕ
maxflds = 21

abbrev pub file_id : ℕ → ℕ
file_id frid = frid / 2 ^ 24 % 2 ^ 8

abbrev pub rec_id : ℕ → ℕ
rec_id frid = frid % 2 ^ 24

abbrev pub file_rec_id : ℕ → ℕ → ℕ
file_rec_id fid rid = fid % 2 ^ 8 * 2 ^ 24 + rid % 2 ^ 24

abbrev pub fld_file : ℕ → ℕ
fld_file fldid = fldid / 2 ^ 8 % 2 ^ 8

abbrev pub fld_idx : ℕ → ℕ
fld_idx fldid = fldid % 2 ^ 8

-- An index is below 256, so `|` is a sum.
abbrev pub file_fld : ℕ → ℕ → ℕ
file_fld fileid index = fileid * 2 ^ 8 + index

pub record Ic35File : Type 0 where
  pub id : ℕ
  pub nfld : ℕ
  pub name : List ℕ

abbrev pub ic35files : List Ic35File
ic35files =
    record {
      id = fileaddr;
      nfld = 21;
      name = b'A' ∷ b'd' ∷ b'd' ∷ b'r' ∷ b'e' ∷ b's' ∷ b's' ∷ b'e' ∷ b's' ∷ [];
    }
    ∷ record { id = filememo; nfld = 4; name = b'M' ∷ b'e' ∷ b'm' ∷ b'o' ∷ [] }
    ∷ record {
      id = filesched;
      nfld = 10;
      name = b'S' ∷ b'c' ∷ b'h' ∷ b'e' ∷ b'd' ∷ b'u' ∷ b'l' ∷ b'e' ∷ [];
    }
    ∷ record {
      id = filetodo;
      nfld = 8;
      name = b'T' ∷ b'o' ∷ b' ' ∷ b'D' ∷ b'o' ∷ b' ' ∷ b'L' ∷ b'i' ∷ b's' ∷ b't' ∷ [];
    }
    ∷ []

abbrev pub find_file : List Ic35File → ℕ → Option Ic35File
find_file [] fileid = none
find_file (f ∷ fs) fileid = if f.id == fileid then some f else find_file fs fileid

abbrev pub ic35fdesc : ℕ → Option Ic35File
ic35fdesc fileid = find_file ic35files fileid

unfoldable pub ic35fnflds : ℕ → ℕ
ic35fnflds fileid = elim (ic35fdesc fileid) [ none ↦ 0 | some f ↦ f.nfld ]

unfoldable pub ic35fname : ℕ → Option (List ℕ)
ic35fname fileid = elim (ic35fdesc fileid) [ none ↦ none | some f ↦ some f.name ]

abbrev pub a_category_id : ℕ
a_category_id = file_fld fileaddr 17

abbrev pub s_start_time : ℕ
s_start_time = file_fld filesched 2

abbrev pub s_end_time : ℕ
s_end_time = file_fld filesched 3

abbrev pub s_alarm_before : ℕ
s_alarm_before = file_fld filesched 4

abbrev pub s_alarm_repeat : ℕ
s_alarm_repeat = file_fld filesched 6

abbrev pub s_rep_end_date : ℕ
s_rep_end_date = file_fld filesched 8

abbrev pub s_rep_count : ℕ
s_rep_count = file_fld filesched 9

abbrev t_completed : ℕ
t_completed = file_fld filetodo 2

abbrev t_priority : ℕ
t_priority = file_fld filetodo 3

abbrev pub t_category_id : ℕ
t_category_id = file_fld filetodo 6

abbrev pub m_category_id : ℕ
m_category_id = file_fld filememo 2

-- The fields of one binary byte, of set_ic35recfld().
unfoldable pub is_binary : ℕ → Bool
is_binary fldid =
    fldid == a_category_id
    || fldid == s_alarm_before
    || fldid == s_alarm_repeat
    || fldid == s_rep_count
    || fldid == t_completed
    || fldid == t_priority
    || fldid == t_category_id
    || fldid == m_category_id
