-- ===== src/Card/File.antt =====
-- src/mgrtrans.c: files of a memory card, and src/ic35mgr.c: copying them from and to local files.
use ic35link.Base.{
  ℕ, zero, suc, ◌+◌, ◌-◌, Bool, true, false, Option, none, some, List, [], ◌∷◌, ◌++◌, ◌==◌, not,
  if◌then◌else◌, leb, ltb, take, length, u16, u32,
}
use ic35link.Base.Int.{ℤ, pos, negsuc, ok, err, is_neg}
use ic35link.Com.{Port}
use ic35link.Mgr.{equals}
use ic35link.Mmc.Calls.{
  FileInfo, mmcfiledel, mmcfileopen, mmcfilestat, mmcfileread, mmcfilewrite, mmcfileclose,
}
use ic35link.Card.Dir.{DirEntry, finfo2dirent}

pub record MmcFile : Type 0 where
  pub fdiden : List ℕ
  pub size : ℕ
  pub offset : ℕ

unfoldable pub mmc_delfile : List ℕ → Port → List ℕ → ℤ × Port
mmc_delfile behind p filepath =
    let (mstat, q) = mmcfiledel behind p filepath in
    if not (equals mstat 1) then (err, q) else (ok, q)

-- `fresh` is what the memory of the new descriptor holds; `none` is NULL.
unfoldable pub mmc_openfile : List ℕ → Port → List ℕ → ℕ → MmcFile → Option MmcFile × Port
mmc_openfile behind p filepath mode fresh =
    let (mstat, iden, size, q) = mmcfileopen behind p filepath mode fresh.fdiden fresh.size in
    if not (equals mstat 1)
    then (none, q)
    else (some (record { fdiden = iden; size = size; offset = 0 }), q)

-- `stack` is what the variable for the status holds.
unfoldable pub mmc_statfile : List ℕ → FileInfo → Port → MmcFile → Option DirEntry × MmcFile × Port
mmc_statfile behind stack p fp =
    let (mstat, iden, finfo, q) = mmcfilestat behind p fp.fdiden stack in
    if not (equals mstat 1)
    then (none, record fp { fdiden = iden }, q)
    else (some (finfo2dirent finfo), record fp { fdiden = iden }, q)

pub record ReadFile : Type 0 where
  pub rlen : ℤ
  pub fp : MmcFile
  pub buff : List ℕ
  pub port : Port

abbrev pub read_len : MmcFile → ℕ → ℕ
read_len fp blen = if ltb fp.size (u32 (fp.offset + blen)) then fp.size - fp.offset else blen

-- `stack` is what the variable for the length holds.
unfoldable pub mmc_readfile : List ℕ → ℕ → Port → MmcFile → List ℕ → ℕ → ReadFile
mmc_readfile behind stack p fp buff blen =
    let r = mmcfileread behind p fp.fdiden buff (u16 (read_len fp blen)) stack in
    let fp' = record fp { fdiden = r.fdstat; offset = u32 (fp.offset + r.rlen) } in
    if leb fp.size fp.offset
    then record { rlen = pos 0; fp = fp; buff = buff; port = p }
    else if not (equals r.mstat 1)
    then record { rlen = err; fp = record fp { fdiden = r.fdstat }; buff = r.buff; port = r.port }
    else record { rlen = pos r.rlen; fp = fp'; buff = r.buff; port = r.port }

unfoldable pub mmc_writefile : List ℕ → Port → MmcFile → List ℕ → ℕ → ℤ × MmcFile × Port
mmc_writefile behind p fp wdata dlen =
    let (mstat, iden, q) = mmcfilewrite behind p fp.fdiden wdata (u16 dlen) in
    let size = if fp.offset == fp.size then u32 (fp.size + dlen) else fp.size in
    if not (equals mstat 1)
    then (err, record fp { fdiden = iden }, q)
    else (pos dlen, record { fdiden = iden; size = size; offset = u32 (fp.offset + dlen) }, q)

unfoldable pub mmc_closefile : List ℕ → Port → MmcFile → ℤ × Port
mmc_closefile behind p fp =
    let (mstat, _, q) = mmcfileclose behind p fp.fdiden in
    if is_neg mstat then (err, q) else (ok, q)

-- The loop of mmcget(): what the last read returned, whether every fwrite() wrote all, what was
-- given to fwrite(), the descriptor and the line.
abbrev pub Copied : Type 0
Copied = Option (ℤ × Bool × List ℕ × MmcFile × Port)

abbrev pub read_bytes : ReadFile → List ℕ
read_bytes r = elim r.rlen [ pos n ↦ take n r.buff | negsuc n ↦ [] ]

-- Whether the loop ends after a read: `writes` tells of each fwrite() whether it writes all.
unfoldable pub read_ends : (ℕ → Bool) → List ℕ → ReadFile → Option (ℤ × Bool)
read_ends writes out r = elim r.rlen [
  | negsuc n ↦ some (negsuc n, true)
  | pos n ↦
      if n == 0
      then some (pos 0, true)
      else if not (writes (length out))
      then some (pos n, false)
      else none
]

unfoldable pub finish : Option (ℤ × Bool) → List ℕ → ReadFile → Copied → Copied
finish none out r more = more
finish (some (rlen, all)) out r more = some (rlen, all, out, r.fp, r.port)

-- `none` when `rounds` rounds are not enough.
unfoldable pub get_loop :
    ℕ → List ℕ → ℕ → (ℕ → Bool) → Port → MmcFile → List ℕ → ℕ → List ℕ → Copied
get_loop zero behind stack writes p fp buff blen out = none
get_loop (suc rounds) behind stack writes p fp buff blen out =
    let r = mmc_readfile behind stack p fp buff blen in
    let out' = out ++ read_bytes r in
    let more = get_loop rounds behind stack writes r.port r.fp r.buff blen out' in
    finish (read_ends writes out r) out' r more

-- What the local file and the card give to mmcput(): blocks as fread() returns them, and whether
-- the file ended.
unfoldable pub put_loop : List ℕ → Port → MmcFile → List (List ℕ) → Bool × MmcFile × Port
put_loop behind p fp [] = (true, fp, p)
put_loop behind p fp (b ∷ bs) =
    let (wlen, fp', q) = mmc_writefile behind p fp b (length b) in
    let rest = put_loop behind q fp' bs in
    if not (equals wlen (length b)) then (false, fp', q) else rest
