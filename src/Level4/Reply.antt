-- ===== src/Level4/Reply.antt =====
-- src/synproto.c, recvrsp(): what each command's response decodes to.
use ic35link.Base.{
  ℕ, ◌-◌, ◌<◌, ◌≤◌, ◌≡◌, Bool, Option, none, some, List, ltb, leb, ◌==◌, ◌&&◌, if◌then◌else◌,
  length, take, drop, replicate, min, arith,
}
use ic35link.Base.CString.{overwrite}
use ic35link.Base.Int.{ℤ, pos, negsuc, err, sub_ℕ}
use ic35link.Pdu.{getbyte, getword, getdword, gettext}
use ic35link.Com.{Port}
use ic35link.Level1.{l2recvrsp}
use ic35link.Level4.{getrsp, sizeof_xbuff}
use ic35link.Level4.Layout.{
  head_size, at_l2head, at_l3head, at_cmd, at_rspident_text, at_rspgetdtime_mdyhms, sizeof_mdyhms,
  at_rspfopen_fd, at_rspfgetlen_n, at_rspfgetrec_uid, at_rspfgetrec_fx, at_rspfgetrec_data,
  at_rspfputrec_uid, l2rlast, l3last,
}

-- A command id with the buffers that its response may fill: `buff` and `text` are what they hold.
pub data Ask : Type 0 where
  ident : List ℕ → Ask
  disconn : Ask
  getpower : Ask
  password : Ask
  category : Ask
  getdtime : List ℕ → Ask
  setdtime : Ask
  fopen : Ask
  fclose : Ask
  fgetlen : Ask
  fgetmlen : Ask
  fgetrec : List ℕ → Ask
  fgetmore : List ℕ → Ask
  fputrec : Ask
  fdelrec : Ask
  fclrchg : Ask
  invalid : ℕ → Ask

-- What is stored through the pointer arguments. `text` also has the index at which gettext() puts
-- the terminating NUL.
pub data Out : Type 0 where
  nothing : Out
  text : List ℕ → ℕ → Out
  word : ℕ → Out
  record_start : Bool → ℕ → ℕ → List ℕ → Out
  record_more : Bool → List ℕ → Out
  recid : ℕ → Out

-- min( n, size ) of an int and a size_t, for which a negative int is a large number.
abbrev pub min_size : ℤ → ℕ → ℕ
min_size (pos n) size = min n size
min_size (negsuc n) size = size

-- What is left of a response of `pdulen` bytes behind the headers of levels 2 and 3, and the id of
-- level 3.
unfoldable pub strip_heads : List ℕ → ℕ → ℕ × ℕ
strip_heads pdu pdulen =
    let l3id = getbyte pdu at_l3head in
    if leb head_size pdulen
    then (
      if leb head_size (pdulen - head_size)
          then pdulen - head_size - head_size
          else pdulen - head_size,
      l3id,
    )
    else (pdulen, 0)

abbrev pub text_out : List ℕ → ℕ → List ℕ → ℕ → Out
text_out pdu at ptext tlen = text (gettext pdu at ptext tlen) tlen

-- The switch of recvrsp(): the result and what is stored.
unfoldable pub decode : Ask → List ℕ → ℕ → ℕ → ℕ → ℤ × Out
decode (ident ptext) pdu pdulen l2id l3id =
    let rest = sub_ℕ pdulen 4 in
    (rest, text_out pdu at_rspident_text ptext (min_size rest (length ptext)))
decode disconn pdu pdulen l2id l3id = (pos pdulen, nothing)
decode getpower pdu pdulen l2id l3id = (pos pdulen, word (getrsp pdu at_cmd))
decode password pdu pdulen l2id l3id = (pos pdulen, word (getrsp pdu at_cmd))
decode category pdu pdulen l2id l3id = (pos pdulen, word (getrsp pdu at_cmd))
decode (getdtime ptext) pdu pdulen l2id l3id =
    (pos pdulen, text_out pdu at_rspgetdtime_mdyhms ptext (min sizeof_mdyhms (length ptext)))
decode setdtime pdu pdulen l2id l3id = (pos pdulen, nothing)
decode fopen pdu pdulen l2id l3id = (pos pdulen, word (getword pdu at_rspfopen_fd))
decode fclose pdu pdulen l2id l3id = (pos pdulen, nothing)
decode fgetlen pdu pdulen l2id l3id = (pos pdulen, word (getword pdu at_rspfgetlen_n))
decode fgetmlen pdu pdulen l2id l3id = (pos pdulen, word (getword pdu at_rspfgetlen_n))
decode (fgetrec buff) pdu pdulen l2id l3id =
    let got = take (min (length buff) pdulen) (drop at_rspfgetrec_data pdu) in
    (
      sub_ℕ pdulen 5,
      record_start (l2id == l2rlast) (getdword pdu at_rspfgetrec_uid) (getbyte pdu at_rspfgetrec_fx)
          (overwrite buff got),
    )
decode (fgetmore buff) pdu pdulen l2id l3id =
    let got = take (min (length buff) pdulen) (drop at_cmd pdu) in
    (pos pdulen, record_more (l2id == l2rlast) (overwrite buff got))
decode fputrec pdu pdulen l2id l3id =
    if l2id == l2rlast && l3id == l3last
    then (pos pdulen, recid (getdword pdu at_rspfputrec_uid))
    else (pos pdulen, nothing)
decode fdelrec pdu pdulen l2id l3id = (pos pdulen, nothing)
decode fclrchg pdu pdulen l2id l3id = (pos pdulen, nothing)
decode (invalid id) pdu pdulen l2id l3id = (err, nothing)

-- What follows L2recvrsp(), by its result.
unfoldable pub receive : Ask → ℤ → List ℕ → ℤ × Out
receive ask (negsuc n) pdu = (negsuc n, nothing)
receive ask (pos pdulen) pdu =
    let (rest, l3id) = strip_heads pdu pdulen in decode ask pdu rest (getbyte pdu at_l2head) l3id

unfoldable pub recvrsp : Port → Ask → ℤ × Out × Port
recvrsp p ask =
    let (rval, pdu, q) = l2recvrsp p (replicate sizeof_xbuff 0) in
    let (rlen, out) = receive ask rval pdu in (rlen, out, q)

-- Where the terminating NUL of a text goes.
abbrev pub nul_at : Out → Option ℕ
nul_at (text s at) = some at
nul_at o = none

-- The response to an identification, `body` bytes long with its headers and not shorter than these
-- (6 bytes), leaves a text whose
-- terminating NUL lies inside the caller's buffer exactly when the text that follows the two
-- headers and the four magic bytes is there and shorter than the buffer; else the NUL is stored
-- one byte behind the buffer.
receive-ident_nul :
    (body : ℕ) (ptext pdu : List ℕ)
    → 6 ≤ body
    → nul_at (receive (ident ptext) (pos body) pdu).1
      ≡ some (if leb 10 body && ltb (body - 10) (length ptext) then body - 10 else length ptext)
unfolding receive decode strip_heads
receive-ident_nul body ptext pdu h = ground arith

-- The reference info of at most 14 bytes ends inside a buffer of more than 14, whatever arrives.
pub receive-getdtime_nul :
    (body : ℕ) (ptext pdu : List ℕ)
    → 14 < length ptext
    → nul_at (receive (getdtime ptext) (pos body) pdu).1 ≡ some 14
unfolding receive decode strip_heads
receive-getdtime_nul body ptext pdu h = ground arith
