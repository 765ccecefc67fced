-- ===== src/Syntrans.antt =====
-- src/syntrans.c: the transactions of a session with the IC35. Opening and closing the device are
-- I/O: `opened` is whether com_init() succeeds, and com_exit() only closes.
pub mod Frec
pub mod Blocks
pub mod Bounds
pub mod Ends
pub mod Results
mod Examples
use ic35link.Base.{
  ℕ, zero, suc, ◌+◌, ◌-◌, ◌^◌, Bool, true, false, Option, none, some, List, [], ◌∷◌, ◌++◌, ltb, leb,
  ◌==◌, ◌&&◌, ◌||◌, not, if◌then◌else◌, length, take, replicate,
}
use ic35link.Base.CString.{c_str}
use ic35link.Base.Int.{ℤ, pos, negsuc, ok, err, is_neg}
use ic35link.Com.{Port}
use ic35link.Welcome.{welcome}
use ic35link.Level4.{Cmd, sendcmd}
use ic35link.Level4.Layout.{rsp_power_ok, rsp_passwd_ok}
use ic35link.Level4.Reply.{Ask, Out, recvrsp, text, word}

abbrev pub is_ok : ℤ → Bool
is_ok (pos n) = n == 0
is_ok (negsuc n) = false

-- A command and, when it was sent, its response: whether one of the two failed, what was stored,
-- and the line.
unfoldable pub transact : Port → Cmd → Ask → Bool × Out × Port
transact p cmd ask =
    let (sent, q) = sendcmd p cmd in
    let (rlen, out, r) = recvrsp q ask in
    if is_neg sent then (true, Out.nothing, q) else (is_neg rlen, out, r)

-- What a pointer to a word or to a text holds, if it was stored.
abbrev pub word_or : Out → ℕ → ℕ
word_or (word w) d = w
word_or o d = d

abbrev pub text_or : Out → List ℕ → List ℕ
text_or (text s at) d = s
text_or o d = d

-- At most size - 1 bytes of a text: strncat() to an empty string.
abbrev pub copied : ℕ → List ℕ → List ℕ
copied size s = take (size - 1) (c_str s)

-- `hadsignal`, `signal` and `rbuff` are those of welcome().
unfoldable pub synwelcome : Bool → (ℕ → ℕ) → ℕ → List ℕ → Port → ℤ × Port
synwelcome opened hadsignal signal rbuff p =
    let (rval, q) = welcome 0x41 hadsignal signal rbuff p in
    if not opened then (err, p) else if not (is_ok rval) then (err, q) else (ok, q)

-- `idtext` is what the buffer of 40 bytes on the stack holds.
unfoldable pub identify : Port → List ℕ → ℤ × List ℕ × Port
identify p idtext =
    let (failed, out, q) = transact p Cmd.ident (Ask.ident idtext) in
    if failed then (err, [], q) else (ok, copied 40 (text_or out idtext), q)

unfoldable pub power : Port → ℤ × Port
power p =
    let (failed, out, q) = transact p Cmd.getpower Ask.getpower in
    if failed || not (word_or out 0xffff == rsp_power_ok) then (err, q) else (ok, q)

unfoldable pub authenticate : Port → List ℕ → ℤ × Port
authenticate p passwd =
    let (failed, out, q) = transact p (Cmd.password passwd) Ask.password in
    if failed || not (word_or out 0xffff == rsp_passwd_ok) then (err, q) else (ok, q)

-- `rinfo` is what the buffer of 17 bytes on the stack holds.
unfoldable pub read_sys_info : Port → List ℕ → ℤ × List ℕ × Port
read_sys_info p rinfo =
    let (failed, out, q) = transact p Cmd.getdtime (Ask.getdtime rinfo) in
    if failed then (err, [], q) else (ok, copied 17 (text_or out rinfo), q)

unfoldable pub write_sys_info : Port → List ℕ → ℤ × Port
write_sys_info p infodata =
    let (failed, out, q) = transact p (Cmd.setdtime infodata) Ask.setdtime in
    if failed then (err, q) else (ok, q)

unfoldable pub category : Port → List ℕ → ℤ × Port
category p name =
    let (failed, out, q) = transact p (Cmd.category name) Ask.category in
    if failed then (err, q) else (ok, q)

unfoldable pub disconnect : Port → ℤ × Port
disconnect p =
    let (_, q) = sendcmd p Cmd.disconn in
    let (_, _, r) = recvrsp q Ask.disconn in (ok, record r { is_open = false })

-- The stack's buffers and the signal, as above.
unfoldable pub connect :
    Bool → (ℕ → ℕ) → ℕ → List ℕ → List ℕ → List ℕ → Port → List ℕ → ℤ × List ℕ × Port
connect opened hadsignal signal rbuff idtext rinfo p passwd =
    let (w, p1) = synwelcome opened hadsignal signal rbuff p in
    let (i, _, p2) = identify p1 idtext in
    let (o, p3) = power p2 in
    let (a, p4) = authenticate p3 passwd in
    let (s, info, p5) = read_sys_info p4 rinfo in
    if not (is_ok w)
    then (w, [], (disconnect p1).1)
    else if not (is_ok i)
    then (i, [], (disconnect p2).1)
    else if not (is_ok o)
    then (o, [], (disconnect p3).1)
    else if not (is_ok a)
    then (a, [], (disconnect p4).1)
    else if not (is_ok s)
    then (s, [], (disconnect p5).1)
    else (s, info, p5)

-- The file descriptor, or an error. `stack` is what the variable for it holds.
unfoldable pub open_file : Port → ℕ → List ℕ → ℤ × Port
open_file p stack fname =
    let (failed, out, q) = transact p (Cmd.fopen fname) Ask.fopen in
    if failed then (err, q) else (pos (word_or out stack), q)

unfoldable pub get_flen : Port → ℕ → ℕ → ℤ × Port
get_flen p stack fd =
    let (failed, out, q) = transact p (Cmd.fgetlen fd) Ask.fgetlen in
    if failed then (err, q) else (pos (word_or out stack), q)

unfoldable pub get_mod_flen : Port → ℕ → ℕ → ℤ × Port
get_mod_flen p stack fd =
    let (failed, out, q) = transact p (Cmd.fgetmlen fd) Ask.fgetmlen in
    if failed then (err, q) else (pos (word_or out stack), q)

unfoldable pub delete_frec : Port → ℕ → ℕ → ℤ × Port
delete_frec p fd recid =
    let (failed, out, q) = transact p (Cmd.fdelrec fd recid) Ask.fdelrec in
    if failed then (err, q) else (ok, q)

unfoldable pub commit_frec : Port → ℕ → ℕ → ℤ × Port
commit_frec p fd recid =
    let (failed, out, q) = transact p (Cmd.fclrchg fd recid) Ask.fclrchg in
    if failed then (err, q) else (ok, q)

unfoldable pub close_file : Port → ℕ → ℤ × Port
close_file p fd =
    let (failed, out, q) = transact p (Cmd.fclose fd) Ask.fclose in
    if failed then (err, q) else (ok, q)
