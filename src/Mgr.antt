-- ===== src/Mgr.antt =====
-- src/mgrproto.c: the manager protocol. Blocks with a checksum, acknowledged and repeated, and the
-- two messages of a memory card operation. Lengths are below 2 ^ 31, so an int that is negative is
-- never equal to one; calloc() succeeds.
pub mod Command
pub mod Loop
pub mod Tried
pub mod Block
pub mod Sound
pub mod Send
pub mod Message
mod Examples
use ic35link.Base.{
  ℕ, zero, suc, ◌+◌, ◌-◌, Bool, true, false, Option, none, some, List, [], ◌∷◌, ltb, leb, ◌==◌,
  ◌&&◌, not, if◌then◌else◌, get_or, take, replicate, ◌⊎◌, inl, inr,
}
use ic35link.Base.CString.{write_at}
use ic35link.Base.Int.{ℤ, pos, negsuc, ok, err, is_neg}
use ic35link.Com.{Port, com_send, com_sendw, com_recv, com_settimeout}
use ic35link.Pdu.{chksum, getword, putword}

-- genproto.h
abbrev pub err_recv : ℤ
err_recv = negsuc 2

abbrev pub err_chksum : ℤ
err_chksum = negsuc 3

abbrev pub err_acknak : ℤ
err_acknak = negsuc 4

-- mgrproto.h
abbrev pub mcmd_mmcard : ℕ
mcmd_mmcard = 0x15

abbrev pub mcmd_posack : ℕ
mcmd_posack = 0x60

abbrev pub mcmd_negack : ℕ
mcmd_negack = 0x62

abbrev pub mrsp_gotcmd : ℕ
mrsp_gotcmd = 0x90

abbrev pub mrsp_gotack : ℕ
mrsp_gotack = 0xA0

abbrev pub mrsp_gotlen : ℕ
mrsp_gotlen = 0xE0

abbrev pub maxretry : ℕ
maxretry = 5

-- `rval == len`
abbrev pub equals : ℤ → ℕ → Bool
equals (pos n) len = n == len
equals (negsuc n) len = false

abbrev pub is_recv_error : ℤ → Bool
is_recv_error (pos n) = false
is_recv_error (negsuc n) = n == 2

-- One byte was received and is the one that is expected.
abbrev pub got_byte : ℤ → List ℕ → ℕ → Bool
got_byte rlen bytes rsp = equals rlen 1 && get_or bytes 0 0 == rsp

-- `left` rounds may come.
unfoldable pub cmdrsp_loop : ℕ → Port → ℕ → ℕ → ℤ × Port
cmdrsp_loop zero p cmd rsp = (err, p)
cmdrsp_loop (suc left) p cmd rsp =
    let (_, p1) = com_send p (cmd ∷ []) in
    let r = com_recv p1 1 in
    let rest = cmdrsp_loop left r.port cmd rsp in
    if got_byte r.rlen r.bytes rsp then (ok, r.port) else rest

unfoldable pub mcmdrsp : Port → ℕ → ℕ → ℤ × Port
mcmdrsp p cmd rsp = cmdrsp_loop maxretry p cmd rsp

-- What a transmission returns: its value, the buffer and the line.
pub record Xmit : Type 0 where
  pub rval : ℤ
  pub buff : List ℕ
  pub port : Port

-- After a transmission `x`, when `left` more may come: how it ends, or the negative acknowledgement
-- was answered, and on this line it is repeated.
unfoldable pub xmit_end : ℕ → ℕ → Xmit → Xmit ⊎ Port
xmit_end dlen left x =
    let (acked, q) = mcmdrsp x.port mcmd_posack mrsp_gotack in
    let (naked, r) = mcmdrsp x.port mcmd_negack mrsp_gotack in
    if equals x.rval dlen
    then inl (record x { rval = if equals acked 0 then x.rval else err_acknak; port = q })
    else if not (is_recv_error x.rval) && ltb 0 left
    then (if equals naked 0 then inr r else inl (record x { rval = err_acknak; port = r }))
    else inl x

-- `pfxmit` transmits into or from the buffer of `dlen` bytes; `rounds` is MAXRETRY+1 - retry.
unfoldable pub xmit_loop : (Port → List ℕ → Xmit) → ℕ → ℕ → ℤ → Port → List ℕ → Xmit
xmit_loop pfxmit dlen zero rval p buff = record { rval = rval; buff = buff; port = p }
xmit_loop pfxmit dlen (suc left) rval p buff =
    let x = pfxmit p buff in
    elim (xmit_end dlen left x) [
      | inl end ↦ end
      | inr q ↦ xmit_loop pfxmit dlen left x.rval q x.buff
    ]

unfoldable pub xmitblk : (Port → List ℕ → Xmit) → ℕ → Port → List ℕ → Xmit
xmitblk pfxmit dlen p buff =
    let (old_tmo, _) = com_settimeout p 0 in
    let (_, p1) = com_settimeout p old_tmo in
    let x = xmit_loop pfxmit dlen (suc maxretry) err p1 buff in
    record x { port = (com_settimeout x.port old_tmo).1 }

unfoldable pub sendblk : ℕ → Port → List ℕ → Xmit
sendblk dlen p buff =
    let (_, p1) = com_sendw p (take dlen buff) in
    let (_, p2) = com_settimeout p1 10000 in
    let r = com_recv p2 2 in
    let rval =
      if equals r.rlen 2 && chksum buff dlen == getword r.bytes 0
      then pos dlen
      else if equals r.rlen 2
      then err_chksum
      else err_recv in
    record { rval = rval; buff = buff; port = (com_settimeout r.port 3000).1 }

-- How many bytes of the buffer are data when `rval` bytes and then `lcsum` bytes were received, and
-- the two bytes of the checksum: as the code takes them from the end of the buffer.
unfoldable pub tail_sum : ℕ → List ℕ → ℕ → List ℕ → ℕ × List ℕ
tail_sum rval buff lcsum bytes =
    if lcsum == 1
    then (rval - 2, get_or buff (rval - 2) 0 ∷ get_or buff (rval - 1) 0 ∷ [])
    else if lcsum == 0
    then (rval - 1, get_or buff (rval - 1) 0 ∷ 0 ∷ [])
    else (rval, bytes)

abbrev pub at_least_two : ℤ → Bool
at_least_two (pos n) = leb 2 n
at_least_two (negsuc n) = false

unfoldable pub data_end : ℤ → List ℕ → ℤ → List ℕ → ℤ
data_end (negsuc n) buff lcsum bytes = err_recv
data_end (pos n) buff (negsuc m) bytes = err_recv
data_end (pos n) buff (pos m) bytes =
    let (len, rcsum) = tail_sum n buff m bytes in
    if chksum buff len == getword rcsum 0 then pos len else err_chksum

-- The second com_recv() is called only when the first gets two bytes or more.
unfoldable pub recvblk : ℕ → Port → List ℕ → Xmit
recvblk blen p buff =
    let (_, p1) = com_settimeout p 2000 in
    let r = com_recv p1 blen in
    let buff' = write_at buff 0 r.bytes in
    let s = com_recv r.port 2 in
    if at_least_two r.rlen
    then record { rval = data_end r.rlen buff' s.rlen s.bytes; buff = buff'; port = s.port }
    else record { rval = err_recv; buff = buff'; port = r.port }

unfoldable pub msendblk : Port → List ℕ → ℕ → Xmit
msendblk p bytes dlen = xmitblk (sendblk dlen) dlen p bytes

unfoldable pub mrecvblk : Port → List ℕ → ℕ → Xmit
mrecvblk p buff blen = xmitblk (recvblk blen) blen p buff

unfoldable pub mmcsend : Port → List ℕ → ℕ → ℤ × Port
mmcsend p sbuff slen =
    let (started, p1) = mcmdrsp p mcmd_mmcard mrsp_gotcmd in
    let (_, p2) = com_sendw p1 (putword (replicate 2 0) 0 slen) in
    let r = com_recv p2 1 in
    let x = msendblk r.port sbuff slen in
    if not (equals started 0)
    then (err, p1)
    else if not (got_byte r.rlen r.bytes mrsp_gotlen)
    then (err, r.port)
    else (if equals x.rval slen then x.rval else err, x.port)

-- The response, when the value is its length.
unfoldable pub mmcrecv : Port → ℤ × List ℕ × Port
mmcrecv p =
    let (old_tmo, p1) = com_settimeout p 5000 in
    let r = com_recv p1 2 in
    let rblen = getword r.bytes 0 in
    let (_, p2) = com_send r.port (mrsp_gotlen ∷ []) in
    let x = mrecvblk p2 (replicate rblen 0) rblen in
    if not (equals r.rlen 2)
    then (err, [], (com_settimeout r.port old_tmo).1)
    else if equals x.rval rblen
    then (x.rval, x.buff, (com_settimeout x.port old_tmo).1)
    else (err, [], (com_settimeout x.port old_tmo).1)
