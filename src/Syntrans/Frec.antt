-- ===== src/Syntrans/Frec.antt =====
-- src/syntrans.c: records of a file, which are read and written in several blocks.
use ic35link.Base.{
  ℕ, zero, suc, ◌+◌, ◌*◌, Bool, true, false, Option, none, some, List, [], ◌∷◌, ◌++◌, ltb, leb,
  ◌==◌, ◌||◌, not, if◌then◌else◌, length, take, drop, replicate,
}
use ic35link.Base.Int.{ℤ, pos, negsuc, ok, err, is_neg}
use ic35link.Com.{Port}
use ic35link.Record.{Ic35Rec, set_ic35recid, set_ic35recchg, set_ic35recdata, get_ic35recdata}
use ic35link.Record.Ids.{file_id, fileaddr, filememo, filetodo, filesched}
use ic35link.Level4.{Cmd, sendcmd}
use ic35link.Level4.Reply.{Ask, Out, recvrsp, record_start, record_more}

-- The buffer of MAXRLEN bytes, the length `rptr - buff` that is filled, and the record's id and
-- change flag, which are not set before the first block.
pub record Block : Type 0 where
  pub buff : List ℕ
  pub filled : ℕ
  pub rid : ℕ
  pub chg : ℕ

abbrev pub maxrlen : ℕ
maxrlen = 21 * (1 + 255)

-- A block that was received behind what is filled.
abbrev pub store : Block → Out → Block
store b (record_start last rid chg bytes) = record {
  buff = take b.filled b.buff ++ bytes;
  filled = b.filled;
  rid = rid;
  chg = chg;
}
store b (record_more last bytes) = record b { buff = take b.filled b.buff ++ bytes }
store b o = b

abbrev pub is_last : Out → Bool
is_last (record_start last rid chg bytes) = last
is_last (record_more last bytes) = last
is_last o = false

-- The pointer does not move when the block would not fit.
abbrev pub advance : Block → ℤ → Block
advance b (pos rlen) = record b {
  filled = if leb (b.filled + rlen) maxrlen then b.filled + rlen else b.filled;
}
advance b (negsuc n) = b

abbrev pub ask_block : Block → Ask
ask_block b = if b.filled == 0 then Ask.fgetrec b.buff else Ask.fgetmore (drop b.filled b.buff)

-- The loop of _read_frec() in at most `rounds` rounds: `none` when these are not enough, else
-- whether it failed, what was read, and the line.
unfoldable pub read_blocks : ℕ → Port → Block → Option (Bool × Block × Port)
read_blocks zero p b = none
read_blocks (suc rounds) p b =
    let (rlen, out, q) = recvrsp p (ask_block b) in
    let b' = advance (store b out) rlen in
    let (_, r) = sendcmd q Cmd.fgetmore in
    let more = read_blocks rounds r b' in
    if is_neg rlen then some (true, b, q) else if is_last out then some (false, b', q) else more

-- `stray` is the byte behind the data in memory, see set_ic35recdata().
unfoldable pub fill_record : ℕ → Ic35Rec → Bool × Block × Port → ℤ × Ic35Rec × Port
fill_record stray r (failed, b, q) =
    let r' =
      set_ic35recdata stray (set_ic35recchg (set_ic35recid r b.rid) b.chg) (take b.filled b.buff) in
    if failed then (err, r, q) else (pos b.filled, r', q)

unfoldable pub filled_record :
    ℕ → Ic35Rec → Option (Bool × Block × Port) → Option (ℤ × Ic35Rec × Port)
filled_record stray r none = none
filled_record stray r (some done) = some (fill_record stray r done)

abbrev pub blank_block : Block
blank_block = record { buff = replicate maxrlen 0; filled = 0; rid = 0; chg = 0 }

unfoldable pub read_frec_data : ℕ → ℕ → Port → Ic35Rec → Option (ℤ × Ic35Rec × Port)
read_frec_data rounds stray p r = filled_record stray r (read_blocks rounds p blank_block)

-- What read_id_frec() makes of the result: a record of another id does not exist.
unfoldable pub check_id : ℕ → Option (ℤ × Ic35Rec × Port) → Option (ℤ × Ic35Rec × Port)
check_id rid none = none
check_id rid (some (negsuc n, r, q)) = some (err, r, q)
check_id rid (some (pos rlen, r, q)) = some (if not (r.id == rid) then pos 0 else pos rlen, r, q)

unfoldable pub read_id_frec : ℕ → ℕ → Port → ℕ → ℕ → Ic35Rec → Option (ℤ × Ic35Rec × Port)
read_id_frec rounds stray p fd rid r =
    let (sent, q) = sendcmd p (Cmd.fgetirec fd rid) in
    let got = read_frec_data rounds stray q r in
    if is_neg sent then some (err, r, q) else check_id rid got

unfoldable pub read_frec : ℕ → ℕ → Port → ℕ → ℕ → Ic35Rec → Option (ℤ × Ic35Rec × Port)
read_frec rounds stray p fd idx r =
    let (sent, q) = sendcmd p (Cmd.fgetrec fd idx) in
    let got = read_frec_data rounds stray q r in if is_neg sent then some (err, r, q) else got

unfoldable pub read_mod_frec : ℕ → ℕ → Port → ℕ → Ic35Rec → Option (ℤ × Ic35Rec × Port)
read_mod_frec rounds stray p fd r =
    let (sent, q) = sendcmd p (Cmd.fgetmrec fd) in
    let got = read_frec_data rounds stray q r in if is_neg sent then some (err, r, q) else got

abbrev pub magic_of : ℕ → List ℕ
magic_of fileid =
    if fileid == fileaddr
    then 0x51 ∷ 0 ∷ 0 ∷ []
    else if fileid == filememo
    then 0x60 ∷ 0x16 ∷ 0x99 ∷ []
    else if fileid == filetodo || fileid == filesched
    then 0x10 ∷ 0 ∷ 0 ∷ []
    else 0 ∷ 0 ∷ 0 ∷ []

-- The blocks that the loop of _write_frec() goes through, each with `last`, in at most `rounds`
-- rounds: at most 80 bytes each, and one for data of no bytes too.
unfoldable pub blocks : ℕ → List ℕ → List (Bool × List ℕ)
blocks zero wptr = []
blocks (suc rounds) wptr =
    let wlen = if ltb 80 (length wptr) then 80 else length wptr in
    let more = blocks rounds (drop wlen wptr) in
    if leb (length wptr) wlen then (true, take wlen wptr) ∷ [] else (false, take wlen wptr) ∷ more

-- The command of the first block, and of the others.
abbrev pub first_cmd : Bool → ℕ → ℕ → ℕ → ℕ → Bool × List ℕ → Cmd
first_cmd do_write fd orecid fileid dlen (last, wptr) =
    if do_write
    then Cmd.fputrec last fd 0 (magic_of fileid) dlen wptr
    else Cmd.fupdrec last fd orecid (magic_of fileid) dlen wptr

abbrev pub more_cmd : Bool × List ℕ → Cmd
more_cmd (last, wptr) = Cmd.fputmore last wptr

-- What `recid` holds after a response.
abbrev pub recid_or : Out → ℕ → ℕ
recid_or (Out.recid rid) d = rid
recid_or o d = d

-- One command and its response: the result of the loop, if it ends, `recid` and the line.
unfoldable pub write_block : Port → ℕ → Cmd → Option ℤ × ℕ × Port
write_block p recid cmd =
    let (sent, q) = sendcmd p cmd in
    let (rlen, out, r) = recvrsp q Ask.fputrec in
    if is_neg sent
    then (some (negsuc 0), recid, q)
    else if is_neg rlen
    then (some (negsuc 1), recid, r)
    else (none, recid_or out recid, r)

unfoldable pub write_cmds : Port → ℕ → List Cmd → ℤ × ℕ × Port
write_cmds p recid [] = (pos 0, recid, p)
write_cmds p recid (cmd ∷ cmds) =
    let (end, recid', q) = write_block p recid cmd in
    let rest = write_cmds q recid' cmds in elim end [ none ↦ rest | some rval ↦ (rval, recid', q) ]

abbrev pub cmds_of : (Bool × List ℕ → Cmd) → List (Bool × List ℕ) → List Cmd
cmds_of first [] = []
cmds_of first (b ∷ bs) = first b ∷ rest_of bs
  where
    rest_of : List (Bool × List ℕ) → List Cmd
    rest_of [] = []
    rest_of (c ∷ cs) = more_cmd c ∷ rest_of cs

-- `recid` is what the variable on the stack holds. A block is 80 bytes, so the data and one more
-- round are enough rounds.
unfoldable pub write_frec_data : Bool → Port → ℕ → ℕ → Ic35Rec → ℤ × Ic35Rec × Port
write_frec_data do_write p recid fd r =
    let (r', bytes, dlen) = get_ic35recdata r in
    let bs = blocks (suc dlen) (take dlen bytes) in
    let (rval, rid, q) =
      write_cmds p recid (cmds_of (first_cmd do_write fd r.id (file_id r.id) dlen) bs) in
    if is_neg rval then (rval, r', q) else (pos 0, set_ic35recid r' rid, q)

unfoldable pub write_frec : Port → ℕ → ℕ → Ic35Rec → ℤ × Ic35Rec × Port
write_frec p recid fd r =
    let (rval, r', q) = write_frec_data true p recid fd r in
    if is_neg rval then (err, r', q) else (ok, r', q)

unfoldable pub update_frec : Port → ℕ → ℕ → Ic35Rec → ℤ × Ic35Rec × Port
update_frec p recid fd r =
    let (rval, r', q) = write_frec_data false p recid fd r in
    if is_neg rval then (err, r', q) else (ok, r', q)
