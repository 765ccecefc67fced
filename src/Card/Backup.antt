-- ===== src/Card/Backup.antt =====
-- src/mgrtrans.c: the whole database is read from the IC35 to a file and written back. `buff` is the
-- buffer of 16384 bytes; `writes` tells of each fwrite() whether it writes all, by the length that
-- the file has; messages and the delay at the end are left out.
use ic35link.Base.{
  ℕ, zero, suc, ◌-◌, Bool, true, false, List, [], ◌∷◌, ◌++◌, ◌==◌, not, if◌then◌else◌, ltb, take,
  drop, length, replicate,
}
use ic35link.Base.CString.{write_at}
use ic35link.Base.Int.{ℤ, ok, err, is_neg}
use ic35link.Com.{Port, com_recv}
use ic35link.Mgr.{mcmdrsp, mrecvblk, msendblk, equals, mrsp_gotcmd}

abbrev pub mcmd_backup : ℕ
mcmd_backup = 0x13

abbrev pub mcmd_restinit : ℕ
mcmd_restinit = 0x14

abbrev pub mcmd_info : ℕ
mcmd_info = 0x18

abbrev pub mcmd_restdata : ℕ
mcmd_restdata = 0x70

abbrev pub mrsp_restdata : ℕ
mrsp_restdata = 0xC0

-- HEADBLKSZ, then NDATABLKS times DATABLKSZ.
abbrev pub block_lens : List ℕ
block_lens = 136 ∷ replicate 26 16384

-- INFOBLKSZ and NINFOBLKS
abbrev pub infoblksz : ℕ
infoblksz = 4

abbrev pub ninfoblks : ℕ
ninfoblks = 2

unfoldable pub getdbinfo : Port → List ℕ → ℕ → ℤ × List ℕ × Port
getdbinfo p buff blen =
    let (info, q) = mcmdrsp p mcmd_info mrsp_gotcmd in
    let r = com_recv q blen in
    if not (equals info 0) then (err, buff, q) else (r.rlen, write_at buff 0 r.bytes, r.port)

-- What a phase of the backup leaves: its value, what was given to fwrite(), the buffer, the line.
pub record Saved : Type 0 where
  pub rval : ℤ
  pub out : List ℕ
  pub buff : List ℕ
  pub port : Port

unfoldable pub read_dbblocks : List ℕ → (ℕ → Bool) → Port → List ℕ → List ℕ → Saved
read_dbblocks [] writes p buff out = record { rval = ok; out = out; buff = buff; port = p }
read_dbblocks (blen ∷ lens) writes p buff out =
    let x = mrecvblk p buff blen in
    let out' = out ++ take blen x.buff in
    let rest = read_dbblocks lens writes x.port x.buff out' in
    if not (equals x.rval blen)
    then record { rval = err; out = out; buff = x.buff; port = x.port }
    else if not (writes (length out))
    then record { rval = err; out = out'; buff = x.buff; port = x.port }
    else rest

-- `left` info blocks may come.
unfoldable pub read_dbinfos : ℕ → (ℕ → Bool) → Port → List ℕ → List ℕ → Saved
read_dbinfos zero writes p buff out = record { rval = ok; out = out; buff = buff; port = p }
read_dbinfos (suc left) writes p buff out =
    let (rlen, buff', q) = getdbinfo p buff infoblksz in
    let out' = out ++ take infoblksz buff' in
    let rest = read_dbinfos left writes q buff' out' in
    if not (equals rlen infoblksz)
    then record { rval = err; out = out; buff = buff'; port = q }
    else if not (writes (length out))
    then record { rval = err; out = out'; buff = buff'; port = q }
    else rest

-- _readdatabase(), for blocks of any lengths.
unfoldable pub read_database : List ℕ → (ℕ → Bool) → Port → List ℕ → ℤ × List ℕ × Port
read_database lens writes p buff =
    let (backup, q) = mcmdrsp p mcmd_backup mrsp_gotcmd in
    let b = read_dbblocks lens writes q buff [] in
    let i = read_dbinfos ninfoblks writes b.port b.buff b.out in
    if not (equals backup 0)
    then (err, [], q)
    else if is_neg b.rval
    then (err, b.out, b.port)
    else if is_neg i.rval
    then (err, i.out, i.port)
    else (ok, i.out, i.port)

-- `opened` is whether the file could be created; `buff` is what the new buffer holds.
unfoldable pub readdatabase : Bool → (ℕ → Bool) → Port → List ℕ → ℤ × List ℕ × Port
readdatabase opened writes p buff =
    if opened then read_database block_lens writes p buff else (err, [], p)

-- memcmp( a, b, .. ) == 0
abbrev pub same_bytes : List ℕ → List ℕ → Bool
same_bytes [] [] = true
same_bytes [] (c ∷ cs) = false
same_bytes (b ∷ bs) [] = false
same_bytes (b ∷ bs) (c ∷ cs) = if b == c then same_bytes bs cs else false

-- What the check of the info blocks finds: its value, for how many blocks a mismatch is reported,
-- the buffer and the line.
pub record Checked : Type 0 where
  pub rval : ℤ
  pub mismatches : ℕ
  pub buff : List ℕ
  pub port : Port

-- `tail` is the file from its read position; a mismatch is only reported.
unfoldable pub check_dbinfos : ℕ → Port → List ℕ → List ℕ → ℕ → Checked
check_dbinfos zero p buff tail mismatches = record {
  rval = ok;
  mismatches = mismatches;
  buff = buff;
  port = p;
}
check_dbinfos (suc left) p buff tail mismatches =
    let (rlen, buff', q) = getdbinfo p buff infoblksz in
    let same = same_bytes (take infoblksz buff') (take infoblksz tail) in
    let mismatches' = if same then mismatches else suc mismatches in
    let rest = check_dbinfos left q buff' (drop infoblksz tail) mismatches' in
    if not (equals rlen infoblksz)
    then record { rval = err; mismatches = mismatches; buff = buff'; port = q }
    else if ltb (length tail) infoblksz
    then record { rval = err; mismatches = mismatches; buff = buff'; port = q }
    else rest

-- `file` is the file from its read position.
unfoldable pub write_dbblocks : List ℕ → Port → List ℕ → List ℕ → ℤ × Port
write_dbblocks [] p buff file = (ok, p)
write_dbblocks (blen ∷ lens) p buff file =
    let buff' = write_at buff 0 (take blen file) in
    let x = msendblk p buff' blen in
    let rest = write_dbblocks lens x.port x.buff (drop blen file) in
    if ltb (length file) blen
    then (err, p)
    else if not (equals x.rval blen)
    then (err, x.port)
    else rest

-- fseek() to the last 8 bytes, which fails in a file that is shorter.
abbrev pub info_tail : List ℕ → List ℕ
info_tail file = if ltb (length file) 8 then file else drop (length file - 8) file

-- _writedatabase(), for blocks of any lengths.
unfoldable pub write_database : List ℕ → Port → List ℕ → List ℕ → ℤ × Port
write_database lens p buff file =
    let c = check_dbinfos ninfoblks p buff (info_tail file) 0 in
    let (init, p1) = mcmdrsp c.port mcmd_restinit mrsp_gotcmd in
    let (start, p2) = mcmdrsp p1 mcmd_restdata mrsp_restdata in
    let rest = write_dbblocks lens p2 c.buff file in
    if is_neg c.rval
    then (err, c.port)
    else if is_neg init
    then (err, p1)
    else if is_neg start
    then (err, p2)
    else rest

-- `opened` is whether the file could be opened.
unfoldable pub writedatabase : Bool → Port → List ℕ → List ℕ → ℤ × Port
writedatabase opened p buff file =
    if opened then write_database block_lens p buff file else (err, p)
