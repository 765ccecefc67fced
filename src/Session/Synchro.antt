-- ===== src/Session/Synchro.antt =====
-- The interface of a device filled with the transactions of src/syntrans.c, over the serial line.
use ic35link.Base.{
  ℕ, suc, ◌≢◌, refl, Bool, true, false, Option, none, some, List, arith, if◌then◌else◌,
}
use ic35link.Base.Int.{ℤ, pos, negsuc, err, is_neg}
use ic35link.Com.{Port}
use ic35link.Record.{Ic35Rec}
use ic35link.Level4.{Cmd, sendcmd}
use ic35link.Syntrans.{
  connect, write_sys_info, open_file, get_flen, get_mod_flen, commit_frec, delete_frec, close_file,
  disconnect,
}
use ic35link.Syntrans.Frec.{
  Block, blank_block, read_blocks, filled_record, read_frec_data, check_id, read_frec,
  read_mod_frec, read_id_frec, write_frec, update_frec,
}
use ic35link.Syntrans.Ends.{left, cmd_left, read_blocks_ends}
use ic35link.Session.{Device}

-- What a session is given or finds in memory: whether the serial port opens, the signals and the
-- password for connect(), what the buffers and variables on the stack hold, and the byte behind a
-- record's data.
pub record Env : Type 0 where
  pub opened : Bool
  pub hadsignal : ℕ → ℕ
  pub signal : ℕ
  pub rbuff : List ℕ
  pub idtext : List ℕ
  pub rinfo : List ℕ
  pub passwd : List ℕ
  pub word : ℕ
  pub recid : ℕ
  pub stray : ℕ

-- A read has more rounds than there are bytes to come.
abbrev pub enough : Port → ℕ
enough p = suc (left p)

-- A read with enough rounds ends, see below; the other case is not reached.
abbrev pub ended : Ic35Rec → Port → Option (ℤ × Ic35Rec × Port) → ℤ × Ic35Rec × Port
ended r p none = (err, r, p)
ended r p (some out) = out

abbrev connected : ℤ × List ℕ × Port → ℤ × Port
connected (rval, info, p) = (rval, p)

unfoldable pub syn_device : Env → Device Port
syn_device env = record {
  connect = λ p.
      connected
        (connect env.opened env.hadsignal env.signal env.rbuff env.idtext env.rinfo p env.passwd);
  write_sys_info = write_sys_info;
  open_file = λ p fname. open_file p env.word fname;
  get_flen = λ p fd. get_flen p env.word fd;
  get_mod_flen = λ p fd. get_mod_flen p env.word fd;
  read_frec = λ p fd idx r. ended r p (read_frec (enough p) env.stray p fd idx r);
  read_mod_frec = λ p fd r. ended r p (read_mod_frec (enough p) env.stray p fd r);
  read_id_frec = λ p fd rid r. ended r p (read_id_frec (enough p) env.stray p fd rid r);
  write_frec = λ p fd r. write_frec p env.recid fd r;
  update_frec = λ p fd r. update_frec p env.recid fd r;
  commit_frec = commit_frec;
  delete_frec = delete_frec;
  close_file = close_file;
  disconnect = disconnect;
}

some-none : (x : ℤ × Ic35Rec × Port) → some x ≢ none
some-none x e = absurd (ground arith)

filled-some :
    (stray : ℕ) (r : Ic35Rec) (o : Option (Bool × Block × Port))
    → o ≢ none
    → filled_record stray r o ≢ none
unfolding filled_record
filled-some stray r none h e = h refl
filled-some stray r (some x) h e = absurd (ground arith)

checked-some : (rid : ℕ) (o : Option (ℤ × Ic35Rec × Port)) → o ≢ none → check_id rid o ≢ none
unfolding check_id
checked-some rid none h e = h refl
checked-some rid (some (pos n, r, q)) h e = absurd (ground arith)
checked-some rid (some (negsuc n, r, q)) h e = absurd (ground arith)

-- The reading behind a command that was sent.
data_some :
    (stray : ℕ) (p : Port) (cmd : Cmd) (r : Ic35Rec)
    → read_frec_data (enough p) stray (sendcmd p cmd).1 r ≢ none
unfolding read_frec_data
data_some stray p cmd r =
    filled-some stray r (read_blocks (enough p) (sendcmd p cmd).1 blank_block)
      (read_blocks_ends (enough p) (sendcmd p cmd).1 blank_block (omega (arith, cmd_left p cmd)))

-- With enough rounds a read of a record ends, in each of the three ways to choose the record.
reads_end :
    (stray : ℕ) (p : Port) (fd k : ℕ) (r : Ic35Rec)
    → (read_frec (enough p) stray p fd k r ≢ none)
      × (read_mod_frec (enough p) stray p fd r ≢ none)
      × (read_id_frec (enough p) stray p fd k r ≢ none)
unfolding read_frec read_mod_frec read_id_frec
reads_end stray p fd k r = (
  either (is_neg (sendcmd p (Cmd.fgetrec fd k)).0) (err, r, (sendcmd p (Cmd.fgetrec fd k)).1)
      (data_some stray p (Cmd.fgetrec fd k) r),
  either (is_neg (sendcmd p (Cmd.fgetmrec fd)).0) (err, r, (sendcmd p (Cmd.fgetmrec fd)).1)
      (data_some stray p (Cmd.fgetmrec fd) r),
  either (is_neg (sendcmd p (Cmd.fgetirec fd k)).0) (err, r, (sendcmd p (Cmd.fgetirec fd k)).1)
      (checked-some k (read_frec_data (enough p) stray (sendcmd p (Cmd.fgetirec fd k)).1 r)
        (data_some stray p (Cmd.fgetirec fd k) r)),
)
  where
    either :
        (b : Bool) (x : ℤ × Ic35Rec × Port) {o : Option (ℤ × Ic35Rec × Port)}
        → o ≢ none
        → (if b then some x else o) ≢ none
    either true x h = some-none x
    either false x h = h
