-- ===== src/Level4.antt =====
-- src/synproto.c, sendcmd() and recvrsp(): commands and responses in the transmit buffer. The
-- arguments that follow the command id are those of a constructor, what a pointer argument gets is
-- part of the result.
pub mod Layout
pub mod Heads
pub mod Message
pub mod Fields
pub mod Commands
pub mod Wire
pub mod Reply
mod Examples
use ic35link.Base.{
  ℕ, zero, suc, ◌+◌, ◌-◌, ◌*◌, ◌/◌, ◌%◌, ◌^◌, Bool, true, false, Option, none, some, List, [], ◌∷◌,
  ◌++◌, ltb, leb, ◌==◌, ◌&&◌, not, if◌then◌else◌, length, take, drop, get_or, replicate, u8, u16,
  min,
}
use ic35link.Base.CString.{strlen, write_at}
use ic35link.Base.Int.{ℤ, pos, negsuc, err, sub_ℕ, is_neg}
use ic35link.Pdu.{putbyte, putword, putdword, putbtxt, puttext, getbyte, getword, getdword, gettext}
use ic35link.Com.{Port}
use ic35link.Level1.{puthdr, l2sendcmd, l2recvrsp}
use Layout.*

unfoldable pub putcmd : List ℕ → ℕ → ℕ → List ℕ
putcmd pdu at cmd = putbyte (putbyte pdu (at + 0) (cmd / 2 ^ 8 % 2 ^ 8)) (at + 1) (cmd % 2 ^ 8)

unfoldable pub getrsp : List ℕ → ℕ → ℕ
getrsp pdu at = getbyte pdu (at + 0) * 2 ^ 8 + getbyte pdu (at + 1)

abbrev pub sizeof_xbuff : ℕ
sizeof_xbuff = 4096

-- A command id with its arguments; `invalid` is an id that sendcmd() does not know.
pub data Cmd : Type 0 where
  ident : Cmd
  disconn : Cmd
  getpower : Cmd
  password : List ℕ → Cmd
  category : List ℕ → Cmd
  getdtime : Cmd
  setdtime : List ℕ → Cmd
  fopen : List ℕ → Cmd
  fclose : ℕ → Cmd
  fgetlen : ℕ → Cmd
  fgetmlen : ℕ → Cmd
  fgetirec : ℕ → ℕ → Cmd
  fgetrec : ℕ → ℕ → Cmd
  fgetmrec : ℕ → Cmd
  fgetmore : Cmd
  fputrec : Bool → ℕ → ℕ → List ℕ → ℕ → List ℕ → Cmd
  fupdrec : Bool → ℕ → ℕ → List ℕ → ℕ → List ℕ → Cmd
  fputmore : Bool → List ℕ → Cmd
  fdelrec : ℕ → ℕ → Cmd
  fclrchg : ℕ → ℕ → Cmd
  invalid : ℕ → Cmd

abbrev pub cmd_id : Cmd → ℕ
cmd_id ident = cmd_ident
cmd_id disconn = cmd_disconn
cmd_id getpower = cmd_getpower
cmd_id (password s) = cmd_password
cmd_id (category s) = cmd_category
cmd_id getdtime = cmd_getdtime
cmd_id (setdtime s) = cmd_setdtime
cmd_id (fopen s) = cmd_fopen
cmd_id (fclose fd) = cmd_fclose
cmd_id (fgetlen fd) = cmd_fgetlen
cmd_id (fgetmlen fd) = cmd_fgetmlen
cmd_id (fgetirec fd rid) = cmd_fgetirec
cmd_id (fgetrec fd idx) = cmd_fgetrec
cmd_id (fgetmrec fd) = cmd_fgetmrec
cmd_id fgetmore = cmd_fgetmore
cmd_id (fputrec last fd rid magic lr bstr) = cmd_fputrec
cmd_id (fupdrec last fd rid magic lr bstr) = cmd_fupdrec
cmd_id (fputmore last bstr) = cmd_fputmore
cmd_id (fdelrec fd rid) = cmd_fdelrec
cmd_id (fclrchg fd rid) = cmd_fclrchg
cmd_id (invalid id) = id

abbrev pub inventec : List ℕ
inventec =
    b'I' ∷ b'N' ∷ b'V' ∷ b'E' ∷ b'N' ∷ b'T' ∷ b'E' ∷ b'C' ∷ b' ' ∷ b'C' ∷ b'O' ∷ b'R' ∷ b'P' ∷ b'O'
    ∷ b'R' ∷ b'A' ∷ b'T' ∷ b'I' ∷ b'O' ∷ b'N' ∷ b' ' ∷ b'P' ∷ b'R' ∷ b'O' ∷ b'D' ∷ b'U' ∷ b'C'
    ∷ b'T' ∷ []

abbrev pub power_text : List ℕ
power_text = b'P' ∷ b'o' ∷ b'w' ∷ b'e' ∷ b'r' ∷ []

-- `pdu`, `pdulen`, `l2id` and `l3id` after the switch.
pub record Encoded : Type 0 where
  pub pdu : List ℕ
  pub pdulen : ℕ
  pub l2id : ℕ
  pub l3id : ℕ

abbrev pub enc : List ℕ → ℕ → ℕ → ℕ → Encoded
enc pdu pdulen l2id l3id = record { pdu = pdu; pdulen = pdulen; l2id = l2id; l3id = l3id }

abbrev pub write_ids : Bool → List ℕ → ℕ → Encoded
write_ids last pdu pdulen =
    if not last then enc pdu pdulen l2wmore l3more else enc pdu pdulen l2wlast l3last

abbrev pub put_record : Bool → ℕ → ℕ → List ℕ → ℕ → List ℕ → List ℕ → Encoded
put_record last fd rid magic lr bstr pdu =
    let pdu = putword pdu at_fputrec_fd (u16 fd) in
    let pdu = putdword pdu at_fputrec_uid rid in
    let pdu = putbtxt pdu at_fputrec_magic magic 3 in
    let pdu = putdword pdu at_fputrec_lr lr in
    let pdu = putbtxt pdu at_fputrec_data bstr (length bstr) in
    write_ids last pdu (len_fputrec + length bstr)

abbrev pub put_ident : List ℕ → List ℕ
put_ident pdu =
    let pdu = putbtxt pdu at_ident_magic (0x10 ∷ 0 ∷ 0x64 ∷ 0 ∷ []) 4 in
    let pdu = puttext pdu at_ident_text inventec in
    (puthdr pdu at_ident_l3head l3ident (strlen inventec)).0

abbrev pub put_fopen : List ℕ → List ℕ → List ℕ
put_fopen s pdu =
    let pdu = putdword pdu at_fopen_lf2 (strlen s + 2) in
    let pdu = putbyte pdu at_fopen_lf (u8 (strlen s)) in
    let pdu = puttext pdu at_fopen_fname s in putbyte pdu (at_fopen_fname + strlen s) 2

-- The switch of sendcmd(): `none` is an invalid command.
unfoldable pub encode : Cmd → List ℕ → Option Encoded
encode ident pdu = some (enc (put_ident pdu) len_ident l2init 0)
encode disconn pdu = some (enc pdu 0 l2exit 0)
encode getpower pdu =
    some (enc (puttext pdu at_getpower_text power_text) len_getpower l2wlast l3last)
encode (password s) pdu = some (enc (puttext pdu at_password_text s) len_password l2wlast l3last)
encode (category s) pdu = some (enc (puttext pdu at_category_name s) len_category l2wlast l3last)
encode getdtime pdu = some (enc pdu len_getdtime l2read l3last)
encode (setdtime s) pdu = some (enc (puttext pdu at_setdtime_mdyhms s) len_setdtime l2wlast l3last)
encode (fopen s) pdu = some (enc (put_fopen s pdu) (len_fopen + strlen s) l2wlast l3last)
encode (fclose fd) pdu = some (enc (putword pdu at_fclose_fd (u16 fd)) len_fclose l2wlast l3last)
encode (fgetlen fd) pdu = some (enc (putword pdu at_fgetlen_fd (u16 fd)) len_fgetlen l2read l3last)
encode (fgetmlen fd) pdu = some (enc (putword pdu at_fgetlen_fd (u16 fd)) len_fgetlen l2read l3last)
encode (fgetirec fd rid) pdu =
    let pdu = putdword (putword pdu at_fgetirec_fd (u16 fd)) at_fgetirec_uid rid in
    some (enc pdu len_fgetirec l2read l3last)
encode (fgetrec fd idx) pdu =
    let pdu = putword (putword pdu at_fgetrec_fd (u16 fd)) at_fgetrec_index (u16 idx) in
    some (enc pdu len_fgetrec l2read l3last)
encode (fgetmrec fd) pdu = some (enc (putword pdu at_fgetrec_fd (u16 fd)) len_fgetrec l2read l3last)
encode fgetmore pdu = some (enc pdu 0 l2read 0)
encode (fputrec last fd rid magic lr bstr) pdu = some (put_record last fd rid magic lr bstr pdu)
encode (fupdrec last fd rid magic lr bstr) pdu = some (put_record last fd rid magic lr bstr pdu)
encode (fputmore last bstr) pdu =
    some (write_ids last (putbtxt pdu at_cmd bstr (length bstr)) (length bstr))
encode (fdelrec fd rid) pdu = some (
    enc (putdword (putword pdu at_fclrchg_fd (u16 fd)) at_fclrchg_uid rid) len_fclrchg l2wlast
      l3last)
encode (fclrchg fd rid) pdu = some (
    enc (putdword (putword pdu at_fclrchg_fd (u16 fd)) at_fclrchg_uid rid) len_fclrchg l2wlast
      l3last)
encode (invalid id) pdu = none

-- The headers of levels 3 and 2, and the length with them.
unfoldable pub put_heads : Encoded → List ℕ × ℕ
put_heads e =
    let (pdu3, len3) = puthdr e.pdu at_l3head e.l3id e.pdulen in
    let (pdu, pdulen) = if e.l3id == 0 then (e.pdu, e.pdulen) else (pdu3, len3) in
    puthdr pdu at_l2head e.l2id pdulen

unfoldable pub send_encoded : Port → Option Encoded → ℤ × Port
send_encoded p none = (err, p)
send_encoded p (some e) =
    let (pdu, pdulen) = put_heads e in let (rval, _, q) = l2sendcmd p pdu pdulen in (rval, q)

unfoldable pub sendcmd : Port → Cmd → ℤ × Port
sendcmd p cmd = send_encoded p (encode cmd (putcmd (replicate sizeof_xbuff 0) at_cmd (cmd_id cmd)))
