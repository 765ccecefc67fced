-- ===== src/Record/Examples.antt =====
-- Runs of ic35frec.c, and its theorems at concrete inputs.
use ic35link.Base.{
  ℕ, ◌+◌, ◌<◌, ◌≡◌, ◌≢◌, ◌↔◌, refl, false, none, some, List, [], ◌∷◌, arith, length, take,
  replicate, min,
}
use ic35link.Base.CString.{c_str}
use ic35link.Base.Int.{ok}
use ic35link.Record.{
  Ic35Rec, empty_fld, nrecflds, claim_flds, store_fld, put_fld, stored, fld_length, set_ic35recdata,
  get_ic35recdata, set_ic35recfld, get_ic35recfld, ic35recfld, show_fld, count_loop, fields_found,
}
use ic35link.Record.Ids.{file_id, file_fld, filememo, maxflds, is_binary, ic35fnflds, fld_idx}
use ic35link.Record.Wf.{IsWf}
use ic35link.Record.Parse.{fit_count, count_loop-fit_count}
use ic35link.Record.Invariant.{set_ic35recdata-IsWf}
use ic35link.Record.RoundTrip.{parsed, used, set_ic35recdata-get_ic35recdata}
use ic35link.Record.Fields.{ic35recfld-set_ic35recfld, ic35recfld-clear_stale}
use ic35link.Record.Compare.{is_category, cmp_ic35rec}
use ic35link.Record.Compare.Spec.{cmp_ic35rec_iff}

-- A memo with a subject of two bytes, notes of one, a category id and no category.
abbrev memo_data : List ℕ
memo_data = 2 ∷ 1 ∷ 1 ∷ 0 ∷ b'h' ∷ b'i' ∷ b'!' ∷ 9 ∷ []

abbrev memo : Ic35Rec
memo = record {
  id = 0x0600_0001;
  chg = 0;
  data_len = 0;
  raw = none;
  nflds = 4;
  flds =
      record { len = 2; ptr = some (b'h' ∷ b'i' ∷ []) }
      ∷ record { len = 1; ptr = some (b'!' ∷ []) }
      ∷ record { len = 1; ptr = some (9 ∷ []) }
      ∷ replicate 18 empty_fld;
}

memo-IsWf : IsWf memo
memo-IsWf = record { room = refl; few = omega arith; fields = omega arith; whole = refl }

memo_raw : (get_ic35recdata memo).1 ≡ memo_data
unfolding get_ic35recdata
memo_raw = refl

-- Four fields are found, though the fifth byte would be a length too.
memo_found : fields_found 77 memo_data ≡ 4
unfolding count_loop
memo_found = refl

-- When every field is empty the loop reads one byte behind the data, 77 here.
stray_read : fields_found 77 (0 ∷ 0 ∷ 0 ∷ []) ≡ 3
unfolding count_loop
stray_read = refl

count_loop-fit_count_example :
    count_loop 77 3 maxflds (0 ∷ 0 ∷ 0 ∷ []) 0 0 ≡ 0 + fit_count maxflds 3 (0 ∷ 0 ∷ 0 ∷ [])
count_loop-fit_count_example =
    count_loop-fit_count 77 3 maxflds (0 ∷ 0 ∷ 0 ∷ []) 0 0 (omega arith) (omega arith)

set_ic35recdata-IsWf_example : IsWf (set_ic35recdata 77 memo memo_data)
set_ic35recdata-IsWf_example = set_ic35recdata-IsWf 77 memo memo_data memo-IsWf (omega arith)

set_ic35recdata-get_ic35recdata_example :
    let (_, bytes, dlen) = get_ic35recdata memo in
    (dlen ≡ length bytes)
    × ((set_ic35recdata 77 memo bytes).nflds ≡ 4)
    × ((set_ic35recdata 77 memo bytes).flds ≡ parsed 4 (used memo))
set_ic35recdata-get_ic35recdata_example =
    set_ic35recdata-get_ic35recdata 77 memo memo memo-IsWf refl

ic35recfld-set_ic35recfld_example :
    let r' = set_ic35recfld memo (file_fld filememo 0) (some (b'x' ∷ [])) in
    (ic35recfld r' (file_fld filememo 0) ≡ take 255 (c_str (b'x' ∷ [])))
    × ((get_ic35recfld r' (file_fld filememo 0)).1 ≡ min 1 255)
    × (r'.raw ≡ none)
    × ((other : ℕ)
        → fld_idx other ≢ fld_idx (file_fld filememo 0)
        → get_ic35recfld r' other ≡ get_ic35recfld memo other)
unfolding nrecflds ic35fnflds claim_flds is_binary c_str
ic35recfld-set_ic35recfld_example =
    ic35recfld-set_ic35recfld memo (file_fld filememo 0) (b'x' ∷ []) memo-IsWf (omega arith) refl
      (omega arith)

ic35recfld-clear_stale_example :
    let r' = set_ic35recfld memo (file_fld filememo 0) (some []) in
    (ic35recfld r' (file_fld filememo 0) ≡ ic35recfld memo (file_fld filememo 0))
    × ((get_ic35recfld r' (file_fld filememo 0)).1 ≡ 0)
unfolding nrecflds ic35fnflds claim_flds is_binary c_str
ic35recfld-clear_stale_example =
    ic35recfld-clear_stale memo (file_fld filememo 0) (some []) memo-IsWf (omega arith) refl refl

-- The old subject is still shown.
stale_subject :
    ic35recfld (set_ic35recfld memo (file_fld filememo 0) (some [])) (file_fld filememo 0)
    ≡ b'h' ∷ b'i' ∷ []
unfolding ic35recfld get_ic35recfld show_fld set_ic35recfld store_fld put_fld stored fld_length
    nrecflds ic35fnflds claim_flds is_binary c_str
stale_subject = refl

cmp_ic35rec_iff_example : (cmp_ic35rec (some memo) (some memo) ≡ ok) ↔ (
    (i : ℕ)
    → i < ic35fnflds (file_id memo.id)
    → is_category (file_fld (file_id memo.id) i) ≡ false
    → ic35recfld memo (file_fld (file_id memo.id) i)
      ≡ ic35recfld memo (file_fld (file_id memo.id) i))
cmp_ic35rec_iff_example = cmp_ic35rec_iff memo memo refl (omega arith)
