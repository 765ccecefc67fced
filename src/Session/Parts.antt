-- ===== src/Session/Parts.antt =====
-- The interface of the records of the PC filled with the operations of src/databin.c.
use ic35link.Base.{ℕ, ap, ◌∙◌, Option, none, some, List, [], ◌∷◌, ◌==◌, if◌then◌else◌}
use ic35link.Record.{Ic35Rec}
use ic35link.Record.Compare.{cmp_ic35rec}
use ic35link.Bin.{
  Elmt, Bin, bin_rewind, bin_getrec, bin_getrec_byid, bin_updic35rec, bin_putic35rec, bin_delrec,
  bin_recid, bin_set_recid, bin_recstat, bin_set_recstat, change,
}
use ic35link.Bin.Places.{IsBin}
use ic35link.Bin.Safe.{Call-IsBin, Call}
use ic35link.Bin.Lookup.{raw_data, bin_getrec_byid-bin_putic35rec}
use ic35link.Session.{PimOper, PimLaws}

abbrev pub handle_of : Option Elmt → Option ℕ
handle_of none = none
handle_of (some e) = some e.at

abbrev pub got_handle : Option (Option Elmt × Bin) → Option (Option ℕ × Bin)
got_handle none = none
got_handle (some (found, s)) = some (handle_of found, s)

-- The record at a handle; a handle of no record reads as the record that is given.
abbrev pub rec_at : List Elmt → ℕ → Ic35Rec → Ic35Rec
rec_at [] at d = d
rec_at (e ∷ es) at d = if e.at == at then e.rec else rec_at es at d

abbrev bin_put : ℕ → Bin → Ic35Rec → Bin × Ic35Rec
bin_put stray s r = let (s', r', at) = bin_putic35rec stray s r in (s', r')

-- The IC35 record is updated, and the PC record may be rebuilt.
abbrev bin_update : ℕ → Bin → Ic35Rec → ℕ → Bin × Ic35Rec
bin_update stray s r at = (
  record s { binlist = change at (λ old. (bin_updic35rec stray (some r) old).0) s.binlist },
  (bin_updic35rec stray (some r) (rec_at s.binlist at r)).1,
)

-- bin_oper; `stray` is the byte behind raw data, `blank` what a handle of no record would show.
unfoldable pub bin_oper : ℕ → Ic35Rec → PimOper Bin
bin_oper stray blank = record {
  rewind = bin_rewind;
  getrec = λ s fileid. got_handle (bin_getrec s fileid);
  getrec_byid = λ s recid. handle_of (bin_getrec_byid s recid);
  cmpic35rec = λ s r at. cmp_ic35rec (some r) (some (rec_at s.binlist at blank));
  updic35rec = bin_update stray;
  putic35rec = bin_put stray;
  delrec = bin_delrec;
  recid = λ s at. bin_recid (rec_at s.binlist at blank);
  set_recid = bin_set_recid;
  recstat = λ s at. bin_recstat (rec_at s.binlist at blank);
  set_recstat = bin_set_recstat;
}

abbrev pub data_of : Option Elmt → Option (List ℕ)
data_of none = none
data_of (some e) = some (raw_data e.rec)

-- The laws hold of the records in databin.c.
unfoldable pub bin_laws : (stray : ℕ) (blank : Ic35Rec) → PimLaws (bin_oper stray blank)
unfolding bin_oper
bin_laws stray blank = record {
  Good = IsBin;
  view = λ s k. data_of (bin_getrec_byid s k);
  put-Good = λ s r good. Call-IsBin s (bin_putic35rec stray s r).0 (Call.putic35rec s stray r) good;
  put-view_self = λ s r good nz.
      let (e, found, at, bytes, others) = bin_getrec_byid-bin_putic35rec stray s r good.0 nz in
      ap data_of found ∙ ap some bytes;
  put-view_ne = λ s r k good nz ne.
      let (e, found, at, bytes, others) = bin_getrec_byid-bin_putic35rec stray s r good.0 nz in
      ap data_of (others k ne);
}
