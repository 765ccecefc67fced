-- ===== src/Record.antt =====
-- src/ic35frec.c and src/ic35frec.h: records of the IC35 files, field by field and as raw data.
-- A field's pointer is the text that it points to, up to the NUL that was stored behind it. Memory
-- is not exhausted, and which buffer a text lies in is left out.
pub mod Ids
pub mod Wf
pub mod Parse
pub mod Invariant
pub mod RoundTrip
pub mod Fields
pub mod Compare
mod Examples
use ic35link.Base.{
  ℕ, zero, suc, ◌+◌, ◌-◌, ◌%◌, ◌^◌, Bool, true, false, Option, none, some, List, [], ◌∷◌, ◌++◌, map,
  ltb, leb, ◌==◌, ◌&&◌, ◌||◌, if◌then◌else◌, length, take, drop, set, get_or, replicate, u8, min,
}
use ic35link.Base.CString.{c_str, strlen}
use Ids.{file_id, rec_id, fld_file, fld_idx, ic35fnflds, is_binary, maxflds}

pub record Fld : Type 0 where
  pub len : ℕ
  pub ptr : Option (List ℕ)

abbrev pub empty_fld : Fld
empty_fld = record { len = 0; ptr = none }

pub record Ic35Rec : Type 0 where
  pub id : ℕ
  pub chg : ℕ
  pub data_len : ℕ
  pub raw : Option (List ℕ)
  pub nflds : ℕ
  pub flds : List Fld

unfoldable pub nrecflds : ℕ → ℕ
nrecflds fldid =
    let nflds = ic35fnflds (fld_file fldid) in
    if nflds == 0 || leb nflds (fld_idx fldid) || leb maxflds (fld_idx fldid) then 0 else nflds

unfoldable pub new_ic35rec : Ic35Rec
new_ic35rec = record {
  id = 0;
  chg = 0;
  data_len = 0;
  raw = none;
  nflds = 0;
  flds = replicate maxflds empty_fld;
}

unfoldable pub del_ic35recbuffs : Ic35Rec → Ic35Rec
del_ic35recbuffs r = record r {
  flds = replicate maxflds empty_fld;
  nflds = 0;
  data_len = elim r.raw [ none ↦ r.data_len | some _ ↦ 0 ];
  raw = none;
}

unfoldable pub set_ic35recid : Ic35Rec → ℕ → Ic35Rec
set_ic35recid r recid =
    let n = ic35fnflds (file_id recid) in
    if n == 0 then record r { id = recid } else record r { id = recid; nflds = n }

unfoldable pub set_ic35recchg : Ic35Rec → ℕ → Ic35Rec
set_ic35recchg r chgflag = record r { chg = chgflag }

-- The loop that counts the fields: `left` more may come, `lens` is the data from field `nflds` on,
-- and `stray` is the byte that stands behind the data in memory.
unfoldable pub count_loop : ℕ → ℕ → ℕ → List ℕ → ℕ → ℕ → ℕ
count_loop stray dlen zero lens flensum nflds = nflds
count_loop stray dlen (suc left) lens flensum nflds =
    let flensum' = flensum + (get_or lens 0 stray + 1) in
    let rest = count_loop stray dlen left (drop 1 lens) flensum' (suc nflds) in
    if ltb dlen flensum' then nflds else rest

-- The loop that fills the fields from their lengths and from `fptr` on.
unfoldable pub fill : List ℕ → List ℕ → List Fld
fill [] fptr = []
fill (l ∷ lens) fptr = record { len = l; ptr = some (take l fptr) } ∷ fill lens (drop l fptr)

abbrev pub fields_found : ℕ → List ℕ → ℕ
fields_found stray bytes = count_loop stray (length bytes) maxflds bytes 0 0

-- `[]` is NULL or no data.
unfoldable pub set_ic35recdata : ℕ → Ic35Rec → List ℕ → Ic35Rec
set_ic35recdata stray r [] = del_ic35recbuffs r
set_ic35recdata stray r (b ∷ bs) =
    let bytes = b ∷ bs in
    let n = fields_found stray bytes in
    record (del_ic35recbuffs r) {
      raw = some bytes;
      data_len = length bytes;
      nflds = n;
      flds = fill (take n bytes) (drop n bytes) ++ replicate (maxflds - n) empty_fld;
    }

-- What rebuilding does to a field with no data, and the bytes that it copies from a field.
abbrev pub fix_fld : Fld → Fld
fix_fld f = elim f.ptr [ none ↦ empty_fld | some _ ↦ f ]

abbrev pub fld_bytes : Fld → List ℕ
fld_bytes f = elim f.ptr [ none ↦ [] | some text ↦ take f.len text ]

abbrev pub fld_size : Fld → ℕ
fld_size f = f.len + 1

abbrev pub total : List Fld → ℕ
total [] = 0
total (f ∷ fs) = fld_size f + total fs

abbrev pub texts : List Fld → List ℕ
texts [] = []
texts (f ∷ fs) = fld_bytes f ++ texts fs

-- Raw data of fields: their lengths, each a byte, and behind these their texts.
abbrev pub rebuild : List Fld → List ℕ
rebuild fs = map (λ f. u8 (fix_fld f).len) fs ++ texts fs

-- By the raw data that the record holds: its own, or none, which is rebuilt and kept.
abbrev pub fetch_data : Ic35Rec → Option (List ℕ) → Ic35Rec × List ℕ × ℕ
fetch_data r (some bytes) = (r, bytes, r.data_len)
fetch_data r none =
    let fs = take r.nflds r.flds in
    let bytes = rebuild fs in
    let r' = record r {
      raw = some bytes;
      data_len = total fs;
      flds = map fix_fld fs ++ drop r.nflds r.flds;
    } in
    (r', bytes, total fs)

-- Returned are the record, `*pdata` and `*pdlen`.
unfoldable pub get_ic35recdata : Ic35Rec → Ic35Rec × List ℕ × ℕ
get_ic35recdata r = fetch_data r r.raw

-- The bytes of a C string with its NUL, of which a binary field takes the first.
unfoldable pub stored : ℕ → List ℕ → List ℕ
stored flen text = take flen (c_str text ++ 0 ∷ [])

unfoldable pub fld_length : ℕ → List ℕ → ℕ
fld_length fldid text = min (if is_binary fldid then 1 else strlen text) 255

-- A text of length 0 is not stored: the field keeps the pointer that it has.
unfoldable pub put_fld : Fld → ℕ → List ℕ → Fld
put_fld f flen text = record {
  len = flen;
  ptr = if flen == 0 then f.ptr else some (stored flen text);
}

-- A record with no fields yet takes the number of its first field's file.
unfoldable pub claim_flds : Ic35Rec → ℕ → Ic35Rec
claim_flds r n = if r.nflds == 0 then record r { nflds = n } else r

-- The end of set_ic35recfld(): the field gets the text, and the raw data must be rebuilt.
unfoldable pub store_fld : Ic35Rec → ℕ → List ℕ → Ic35Rec
store_fld r fldid text =
    let fi = fld_idx fldid in
    record r {
      flds = set r.flds fi (put_fld (get_or r.flds fi empty_fld) (fld_length fldid text) text);
      data_len = elim r.raw [ none ↦ r.data_len | some _ ↦ 0 ];
      raw = none;
    }

abbrev pub text_of : Option (List ℕ) → List ℕ
text_of none = []
text_of (some text) = text

-- `none` is a NULL `text`.
unfoldable pub set_ic35recfld : Ic35Rec → ℕ → Option (List ℕ) → Ic35Rec
set_ic35recfld r fldid text =
    let n = nrecflds fldid in
    let r' = claim_flds r n in
    if n == 0
    then r
    else if leb r'.nflds (fld_idx fldid)
    then r'
    else store_fld r' fldid (text_of text)

-- The text that the pointer shows, and the length.
unfoldable pub show_fld : Fld → List ℕ × ℕ
show_fld f = elim f.ptr [ none ↦ ([], 0) | some text ↦ (text, f.len) ]

unfoldable pub get_ic35recfld : Ic35Rec → ℕ → List ℕ × ℕ
get_ic35recfld r fldid =
    if nrecflds fldid == 0 then ([], 0) else show_fld (get_or r.flds (fld_idx fldid) empty_fld)

-- As a C string.
unfoldable pub ic35recfld : Ic35Rec → ℕ → List ℕ
ic35recfld r fldid = c_str (get_ic35recfld r fldid).0
