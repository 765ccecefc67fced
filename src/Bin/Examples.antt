-- ===== src/Bin/Examples.antt =====
-- The theorems on databin.c at concrete lists.
use ic35link.Base.{
  ℕ, ◌≡◌, ◌≢◌, ◌↔◌, refl, true, none, some, List, [], ◌∷◌, ◌++◌, arith, length, replicate, map,
}
use ic35link.Base.Int.{ok}
use ic35link.Record.{Ic35Rec, empty_fld, get_ic35recdata}
use ic35link.Record.Ids.{file_any, filememo}
use ic35link.Bin.{
  Elmt, Bin, bin_rewind, bin_getrec, bin_delrec, bin_getrec_byid, find_id, bin_putic35rec,
}
use ic35link.Bin.Walk.{IsDistinct, in_file, collect, bin_getrec-in_file}
use ic35link.Bin.Places.{IsBin}
use ic35link.Bin.Safe.{Call, delrec, done, more, bin_getrec_safe, bin_getrec-bin_delrec}
use ic35link.Bin.Lookup.{raw_data, bin_getrec_byid-bin_putic35rec}
use ic35link.Bin.Order.{IsGrouped, bin_putic35rec-in_file}
use ic35link.Bin.Disk.{bytes, bin_open, bin_close}
use ic35link.Bin.RoundTrip.{Fits, entry, recs, bin_open-bin_close}

abbrev rec_of : ℕ → List ℕ → Ic35Rec
rec_of id data_bytes = record {
  id = id;
  chg = 0x40;
  data_len = length data_bytes;
  raw = some data_bytes;
  nflds = 0;
  flds = replicate 21 empty_fld;
}

-- A memo, an address and a memo to come.
abbrev memo : Ic35Rec
memo = rec_of 0x0600_0001 (1 ∷ 0 ∷ 0 ∷ 0 ∷ b'a' ∷ [])

abbrev addr : Ic35Rec
addr = rec_of 0x0500_0002 (1 ∷ b'b' ∷ [])

abbrev memo2 : Ic35Rec
memo2 = rec_of 0x0600_0003 (0 ∷ 1 ∷ 0 ∷ 0 ∷ b'c' ∷ [])

abbrev two : Bin
two = record {
  binlist = record { at = 4; rec = memo } ∷ record { at = 7; rec = addr } ∷ [];
  binget = some 7;
  next_at = 9;
}

two-IsDistinct : IsDistinct two.binlist
two-IsDistinct = ((omega arith, tt), (tt, tt))

two-IsBin : IsBin two
two-IsBin = (two-IsDistinct, (omega arith, (omega arith, tt)), refl)

bin_getrec-in_file_example :
    collect 3 filememo (bin_rewind two) ≡ some (record { at = 4; rec = memo } ∷ [], bin_rewind two)
bin_getrec-in_file_example = bin_getrec-in_file two filememo two-IsDistinct

delete_memo : Call two (bin_delrec two 4)
delete_memo = delrec two 4 (λ e. absurd (ground arith))

-- Then one is put, the file is written, and the list is read again from a file of two bytes.
abbrev added : Bin
added = (bin_putic35rec 0 (bin_delrec two 4) memo2).0

abbrev name : List ℕ
name = b'a' ∷ b'd' ∷ b'd' ∷ b'r' ∷ []

abbrev shut : Bin
shut = (bin_close added (b'w' ∷ []) name true).1

abbrev again : Bin
again = (bin_open 0 shut (b'r' ∷ []) name (bytes (1 ∷ 2 ∷ []))).1

bin_getrec_safe_example : bin_getrec again file_any ≢ none
bin_getrec_safe_example =
    bin_getrec_safe two again file_any
      (more two (bin_delrec two 4) again delete_memo (
        more (bin_delrec two 4) added again (Call.putic35rec (bin_delrec two 4) 0 memo2) (
          more added shut again (Call.closed added (b'w' ∷ []) name true) (
            more shut again again (Call.opened shut 0 (b'r' ∷ []) name (bytes (1 ∷ 2 ∷ [])))
              (done again)))))
      two-IsBin

bin_getrec-bin_delrec_example :
    (bin_getrec (bin_delrec two 7) filememo ≡ none) ↔ (two.binget ≡ some 7)
bin_getrec-bin_delrec_example = bin_getrec-bin_delrec two 7 filememo two-IsBin

-- The address is deleted while it is at the read position.
dangling : bin_getrec (bin_delrec two 7) filememo ≡ none
dangling = bin_getrec-bin_delrec_example.1 refl

bin_getrec_byid-bin_putic35rec_example :
    (e : Elmt) × (bin_getrec_byid (bin_putic35rec 0 two memo2).0 0x0600_0003 ≡ some e)
    × (e.at ≡ (bin_putic35rec 0 two memo2).2)
    × (raw_data e.rec ≡ raw_data memo2)
    × ((k : ℕ)
        → k ≢ 0x0600_0003
        → bin_getrec_byid (bin_putic35rec 0 two memo2).0 k ≡ bin_getrec_byid two k)
bin_getrec_byid-bin_putic35rec_example =
    bin_getrec_byid-bin_putic35rec 0 two memo2 two-IsDistinct (omega arith)

not_yet : bin_getrec_byid two 0x0600_0003 ≡ none
unfolding bin_getrec_byid find_id
not_yet = refl

bin_putic35rec-in_file_example :
    (new : Elmt) × (new.rec.id ≡ 0x0600_0003)
    × (in_file 6 (bin_putic35rec 0 two memo2).0.binlist
        ≡ (record { at = 4; rec = memo } ∷ []) ++ new ∷ [])
    × ((g : ℕ)
        → g ≢ file_any
        → g ≢ 6
        → in_file g (bin_putic35rec 0 two memo2).0.binlist ≡ in_file g two.binlist)
    × IsGrouped (bin_putic35rec 0 two memo2).0.binlist
bin_putic35rec-in_file_example =
    bin_putic35rec-in_file 0 two memo2 not_yet (omega arith) (refl, (refl, tt))

memo-Fits : Fits memo
unfolding get_ic35recdata
memo-Fits = (omega arith, omega arith, refl, omega arith, omega arith)

addr-Fits : Fits addr
unfolding get_ic35recdata
addr-Fits = (omega arith, omega arith, refl, omega arith, omega arith)

bin_open-bin_close_example :
    (file : List ℕ) × ((bin_close two (b'w' ∷ []) (b'f' ∷ []) true).0 ≡ some file)
    × ((bin_open 0 two (114 ∷ []) (b'f' ∷ []) (bytes file)).0 ≡ ok)
    × (map entry (recs (bin_open 0 two (114 ∷ []) (b'f' ∷ []) (bytes file)).1.binlist)
        ≡ map entry (recs two.binlist))
bin_open-bin_close_example =
    bin_open-bin_close 0 two two (b'w' ∷ []) (b'f' ∷ []) (memo-Fits, (addr-Fits, tt)) refl
