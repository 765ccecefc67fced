-- ===== src/Card/Dir.antt =====
-- src/mgrtrans.c: directories of a memory card, and their timestamps.
use ic35link.Base.{
  ℕ, suc, ◌+◌, ◌-◌, ◌*◌, ◌/◌, ◌%◌, ◌^◌, Option, none, some, List, ◌∷◌, ◌++◌, ◌==◌, not,
  if◌then◌else◌, leb, take, u16,
}
use ic35link.Base.CString.{c_str, strlen}
use ic35link.Base.Int.{ℤ, pos, negsuc, ok, err, is_neg}
use ic35link.Com.{Port}
use ic35link.Mgr.{equals}
use ic35link.Mmc.Calls.{FileInfo, mmcdiropen, mmcdircreate, mmcdirgetlen, mmcdirread, mmcdirclose}

pub record DirEntry : Type 0 where
  pub name : List ℕ
  pub attr : ℕ
  pub tstamp : ℕ
  pub size : ℕ

-- FILENAME or FILENAME.EXT, with the date in the upper and the time in the lower 16 bits.
unfoldable pub finfo2dirent : FileInfo → DirEntry
finfo2dirent f =
    let name = take 8 (c_str f.file_name) in
    record {
      name = if strlen f.ext_name == 0 then name else name ++ (b'.' ∷ take 3 (c_str f.ext_name));
      attr = f.attribute;
      tstamp = f.modify_date * 2 ^ 16 + f.modify_time;
      size = f.file_size;
    }

pub record MmcDir : Type 0 where
  pub fdiden : List ℕ
  pub dirent : DirEntry
  pub ndirent : ℕ
  pub dirindex : ℕ

-- After the directory was opened or created: its number of entries.
unfoldable pub dir_len : List ℕ → MmcDir → ℤ × List ℕ × Port → Option MmcDir × Port
dir_len behind fresh (mstat, iden, q) =
    let (mstat', iden', ndirent, r) = mmcdirgetlen behind q iden fresh.ndirent in
    if not (equals mstat 1)
    then (none, q)
    else if not (equals mstat' 1)
    then (none, r)
    else (some (record fresh { fdiden = iden'; ndirent = ndirent; dirindex = 0 }), r)

-- `fresh` is what the memory of the new descriptor holds; `none` is NULL.
unfoldable pub mmc_opendir : List ℕ → Port → List ℕ → MmcDir → Option MmcDir × Port
mmc_opendir behind p dirpath fresh = dir_len behind fresh (mmcdiropen behind p dirpath fresh.fdiden)

unfoldable pub mmc_createdir : List ℕ → Port → List ℕ → MmcDir → Option MmcDir × Port
mmc_createdir behind p dirpath fresh =
    dir_len behind fresh (mmcdircreate behind p dirpath fresh.fdiden)

-- `stack` is what the variable for the entry holds.
unfoldable pub mmc_readdir : List ℕ → FileInfo → Port → MmcDir → Option DirEntry × MmcDir × Port
mmc_readdir behind stack p d =
    let index = u16 (suc d.dirindex) in
    let (mstat, iden, finfo, q) = mmcdirread behind p d.fdiden index stack in
    if leb d.ndirent d.dirindex
    then (none, d, p)
    else if not (equals mstat 1)
    then (none, record d { fdiden = iden; dirindex = index }, q)
    else (
      some (finfo2dirent finfo),
      record d { fdiden = iden; dirindex = index; dirent = finfo2dirent finfo },
      q,
    )

unfoldable pub mmc_closedir : List ℕ → Port → MmcDir → ℤ × Port
mmc_closedir behind p d =
    let (mstat, _, q) = mmcdirclose behind p d.fdiden in if is_neg mstat then (err, q) else (ok, q)

-- struct tm as the timestamp gives it: the year from 1900 and the month from 0.
pub record Tm : Type 0 where
  pub tm_year : ℕ
  pub tm_mon : ℤ
  pub tm_mday : ℕ
  pub tm_hour : ℕ
  pub tm_min : ℕ
  pub tm_sec : ℕ

abbrev pub less_one : ℕ → ℤ
less_one n = if n == 0 then negsuc 0 else pos (n - 1)

unfoldable pub mmctstamptm : ℕ → Tm
mmctstamptm tstamp = record {
  tm_year = tstamp / 2 ^ 25 % 2 ^ 7 + 80;
  tm_mon = less_one (tstamp / 2 ^ 21 % 2 ^ 4);
  tm_mday = tstamp / 2 ^ 16 % 2 ^ 5;
  tm_hour = tstamp / 2 ^ 11 % 2 ^ 5;
  tm_min = tstamp / 2 ^ 5 % 2 ^ 6;
  tm_sec = tstamp % 2 ^ 5 * 2;
}
