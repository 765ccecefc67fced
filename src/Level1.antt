-- ===== src/Level1.antt =====
-- src/synproto.c: the Level-1 protocol, which carries a command to the IC35 and fetches a response.
pub mod Frame
pub mod Receive
pub mod Sound
pub mod Exchange
mod Examples
use ic35link.Base.{
  ℕ, zero, suc, ◌+◌, ◌-◌, Bool, true, false, Option, none, some, List, [], ◌∷◌, ◌++◌, ltb, leb,
  ◌==◌, not, if◌then◌else◌, length, take, drop, get_or, set, replicate, u16, min,
}
use ic35link.Base.CString.{write_at}
use ic35link.Base.Int.{ℤ, pos, negsuc, ok, err, sub_ℕ, is_neg}
use ic35link.Pdu.{putbyte, putword, getword, chksum}
use ic35link.Com.{Port, com_send, com_recv, com_settimeout}

-- Level-1 PDU ids.
abbrev pub l1init : ℕ
l1init = 0x01

abbrev pub l1dsel : ℕ
l1dsel = 0x02

abbrev pub l1dreq : ℕ
l1dreq = 0x04

abbrev pub l1exit : ℕ
l1exit = 0x05

abbrev pub l1ack0 : ℕ
l1ack0 = 0xf0

abbrev pub l1ack1 : ℕ
l1ack1 = 0xf1

abbrev pub l1data : ℕ
l1data = 0xf2

-- The header and the length of the block with it.
unfoldable pub puthdr : List ℕ → ℕ → ℕ → ℕ → List ℕ × ℕ
puthdr pdu at id len = (putword (putbyte pdu (at + 0) id) (at + 1) (u16 (len + 3)), len + 3)

-- `none` is a NULL `pdu`. Returned are the buffer, com_send()'s result and the line.
unfoldable pub l1send : Port → ℕ → Option (List ℕ) → ℕ → List ℕ × ℤ × Port
l1send p id none l2len =
    let (spdu, slen) = puthdr (replicate 3 0) 0 id 0 in
    let (rval, q) = com_send p (take slen spdu) in ([], rval, q)
l1send p id (some pdu) l2len =
    let (spdu, slen) = puthdr pdu 0 id (l2len + 2) in
    let spdu = putword spdu (slen - 2) (chksum spdu (slen - 2)) in
    let (rval, q) = com_send p (take slen spdu) in (spdu, rval, q)

-- The result, `*prid`, the buffer and the line.
pub record Got : Type 0 where
  pub rval : ℤ
  pub rid : ℕ
  pub pdu : List ℕ
  pub port : Port

-- `x < k` of an int and a count.
abbrev pub below : ℤ → ℕ → Bool
below (pos n) k = ltb n k
below (negsuc n) k = true

-- The end of L1recv(): the checksum of a block that has arrived whole.
unfoldable pub l1recv_check : ℕ → List ℕ → ℕ → Port → Got
l1recv_check rid pdu pdulen p =
    if not (chksum pdu (pdulen - 2) == getword pdu (pdulen - 2))
    then record { rval = err; rid = rid; pdu = pdu; port = p }
    else record { rval = sub_ℕ pdulen 5; rid = rid; pdu = pdu; port = p }

-- The part of L1recv() that follows the length field.
unfoldable pub l1recv_block : Port → ℕ → List ℕ → Got
l1recv_block p rid pdu =
    let pdulen = getword pdu 1 in
    let r = com_recv p (min pdulen (length pdu) - 3) in
    let pdu' = write_at pdu 3 r.bytes in
    if leb pdulen 3
    then record { rval = err; rid = rid; pdu = pdu; port = p }
    else if below r.rlen (pdulen - 3)
    then record { rval = err; rid = rid; pdu = pdu'; port = r.port }
    else l1recv_check rid pdu' pdulen r.port

-- The part that follows the PDU id of a data response.
unfoldable pub l1recv_data : Port → ℕ → Option (List ℕ) → Got
l1recv_data p rid none = record { rval = err; rid = rid; pdu = []; port = p }
l1recv_data p rid (some pdu) =
    let r = com_recv p 2 in
    let pdu' = write_at (set pdu 0 rid) 1 r.bytes in
    if below r.rlen 2
    then record { rval = err; rid = rid; pdu = pdu'; port = r.port }
    else l1recv_block r.port rid pdu'

abbrev pub bytes_of : Option (List ℕ) → List ℕ
bytes_of none = []
bytes_of (some pdu) = pdu

-- `blen` is the length of the buffer.
unfoldable pub l1recv : Port → Option (List ℕ) → Got
l1recv p pdu =
    let r = com_recv p 1 in
    let rid = get_or r.bytes 0 0 in
    if below r.rlen 1
    then record { rval = r.rlen; rid = rid; pdu = bytes_of pdu; port = r.port }
    else if not (rid == l1data)
    then record { rval = ok; rid = rid; pdu = bytes_of pdu; port = r.port }
    else l1recv_data r.port rid pdu

unfoldable pub l2sendcmd : Port → List ℕ → ℕ → ℤ × List ℕ × Port
l2sendcmd p pdu l2len =
    let (_, _, p) = l1send p l1init none 0 in
    let a = l1recv p none in
    let (pdu', _, p) = l1send a.port l1dsel (some pdu) l2len in
    let (old_tmo, p) = com_settimeout p 2000 in
    let b = l1recv p none in
    let (_, q) = com_settimeout b.port old_tmo in
    if not (a.rid == l1ack0)
    then (err, pdu, a.port)
    else if not (b.rid == l1ack1)
    then (err, pdu', q)
    else (ok, pdu', q)

unfoldable pub l2recvrsp : Port → List ℕ → ℤ × List ℕ × Port
l2recvrsp p rsp =
    let (_, _, p) = l1send p l1dreq none 0 in
    let d = l1recv p (some rsp) in
    let (_, _, q) = l1send d.port l1exit none 0 in
    let e = l1recv q none in (if d.rid == l1data then d.rval else err, d.pdu, e.port)
