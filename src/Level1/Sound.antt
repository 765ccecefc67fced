-- ===== src/Level1/Sound.antt =====
-- Whatever arrives, L1recv() (synproto.c) accepts only a checked block that fits its buffer.
use ic35link.Base.{
  ℕ, zero, suc, ◌+◌, ◌-◌, ◌≤◌, ◌≡◌, ap, true, false, some, List, arith, length, set, min,
  length-take, length-set, get_or, ◌≢◌,
}
use ic35link.Base.CString.{write_at, length-write_at}
use ic35link.Base.Int.{ℤ, pos, negsuc}
use ic35link.Pdu.{getword, chksum}
use ic35link.Com.{Port, com_recv}
use ic35link.Com.Chunks.{pending, com_recv_loop-take}
use ic35link.Level1.{below, l1data, l1recv, l1recv_data, l1recv_block, l1recv_check}

-- A reception of k bytes or more was asked for that many.
recv_bound : (p : Port) (want k : ℕ) → below (com_recv p want).rlen k ≡ false → k ≤ want
unfolding com_recv
recv_bound p want k h = ground (
  arith,
  ap (λ (t : List ℕ). length t) (com_recv_loop-take p.incoming want),
  length-take want (pending p.incoming),
)

block_sound :
    (p : Port) (rid n : ℕ) (pdu : List ℕ)
    → (l1recv_block p rid pdu).rval ≡ pos (suc n)
    → (n + 6 ≤ length pdu)
      × (chksum (l1recv_block p rid pdu).pdu (n + 4) ≡ getword (l1recv_block p rid pdu).pdu (n + 4))
      × ((l1recv_block p rid pdu).rid ≡ rid)
unfolding l1recv_block l1recv_check
block_sound p rid n pdu h =
    ground (arith, recv_bound p (min (getword pdu 1) (length pdu) - 3) (getword pdu 1 - 3))

below_one : (z : ℤ) (n : ℕ) → below z 1 ≡ true → z ≢ pos (suc n)
below_one (pos zero) n h = λ e. ground arith
below_one (pos (suc k)) n h = ground arith
below_one (negsuc k) n h = λ e. cc

-- Whatever arrives: when L1recv() returns a positive length n + 1, the id is that of a data
-- response, header, body and checksum (n + 6 bytes) fit the buffer that was passed, and the two
-- bytes behind the body are the checksum of header and body as they stand in the buffer.
pub l1recv_sound :
    (p : Port) (n : ℕ) (buf : List ℕ)
    → (l1recv p (some buf)).rval ≡ pos (suc n)
    → ((l1recv p (some buf)).rid ≡ l1data)
      × (n + 6 ≤ length buf)
      × (chksum (l1recv p (some buf)).pdu (n + 4) ≡ getword (l1recv p (some buf)).pdu (n + 4))
unfolding l1recv l1recv_data
l1recv_sound p n buf h =
    let rid : ℕ = get_or (com_recv p 1).bytes 0 0 in
    let q : Port = (com_recv p 1).port in
    let pdu : List ℕ = write_at (set buf 0 rid) 1 (com_recv q 2).bytes in
    ground (
      arith,
      below_one (com_recv p 1).rlen n,
      block_sound (com_recv q 2).port rid n pdu,
      length-write_at (set buf 0 rid) 1 (com_recv q 2).bytes,
      length-set buf 0 rid,
    )
