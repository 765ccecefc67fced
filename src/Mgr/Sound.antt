-- ===== src/Mgr/Sound.antt =====
-- What Mrecvblk() and Msendblk() of src/mgrproto.c have seen when they succeed, whatever arrives.
use ic35link.Base.{
  ℕ, ◌≤◌, ◌≡◌, refl, sym, ap, ◌∙◌, true, inl, inr, List, arith, length, length-take, Bool-cases,
}
use ic35link.Base.CString.{write_at}
use ic35link.Base.Int.{ℤ, pos, negsuc, ok}
use ic35link.Com.{Port, Received, com_recv, com_recv_loop, com_settimeout}
use ic35link.Com.Chunks.{pending, com_recv_loop-take}
use ic35link.Pdu.{chksum, getword}
use ic35link.Mgr.{
  recvblk, mrecvblk, data_end, tail_sum, at_least_two, mcmdrsp, mcmd_posack, mrsp_gotack,
}
use ic35link.Mgr.Tried.{Tried, xmitblk-From}

-- No more bytes are returned than were asked for.
com_recv-le : (p : Port) (want n : ℕ) → (com_recv p want).rlen ≡ pos n → n ≤ want
unfolding com_recv
com_recv-le p want n e =
    let most : length (com_recv_loop p.incoming want).0 ≤ want = omega (
      arith,
      ap (λ (t : List ℕ). length t) (com_recv_loop-take p.incoming want),
      length-take want (pending p.incoming),
    ) in
    ground arith

end_sound :
    (rlen lcsum : ℤ) (buff sum : List ℕ) (blen : ℕ)
    → data_end rlen buff lcsum sum ≡ pos blen
    → ((n : ℕ) → rlen ≡ pos n → n ≤ blen)
    → ((n : ℕ) → lcsum ≡ pos n → n ≤ 2)
    → at_least_two rlen ≡ true
    → (rlen ≡ pos blen) × (lcsum ≡ pos 2) × (chksum buff blen ≡ getword sum 0)
unfolding data_end tail_sum
end_sound (pos n) (pos m) buff sum blen e most two h = ground (arith, most n refl, two m refl)
end_sound (pos n) (negsuc m) buff sum blen e most two h = ground arith
end_sound (negsuc n) lcsum buff sum blen e most two h = ground arith

-- The block that com_recv() gives to _recvblk(), and the checksum behind it.
abbrev pub block_at : Port → ℕ → Received
block_at q blen = com_recv (com_settimeout q 2000).1 blen

abbrev pub sum_at : Port → ℕ → Received
sum_at q blen = com_recv (block_at q blen).port 2

recvblk_sound :
    (blen : ℕ) (p : Port) (b : List ℕ)
    → (recvblk blen p b).rval ≡ pos blen
    → ((block_at p blen).rlen ≡ pos blen)
      × ((recvblk blen p b).buff ≡ write_at b 0 (block_at p blen).bytes)
      × ((sum_at p blen).rlen ≡ pos 2)
      × (chksum (recvblk blen p b).buff blen ≡ getword (sum_at p blen).bytes 0)
      × ((recvblk blen p b).port ≡ (sum_at p blen).port)
unfolding recvblk
recvblk_sound blen p b e = elim (Bool-cases (at_least_two (block_at p blen).rlen)) [
  | inl t ↦
      let (n, m, sum) =
        end_sound (block_at p blen).rlen (sum_at p blen).rlen (write_at b 0 (block_at p blen).bytes)
          (sum_at p blen).bytes blen (rw t at e)
          (λ n h. com_recv-le (com_settimeout p 2000).1 blen n h)
          (λ n h. com_recv-le (block_at p blen).port 2 n h) t in
      (n, rw t refl, m, rw t sum, rw t refl)
  | inr f ↦ cc (rw f at e)
]

-- Whatever arrives on the line, when Mrecvblk() returns the wanted length, at most five blocks came
-- before that were not received whole, each refused with a negative acknowledgement that was
-- answered; then com_recv() gave a block of the wanted length, which the buffer holds from its
-- start, and the next com_recv() gave exactly two bytes, which are the checksum of the buffer; this
-- block is acknowledged, the acknowledgement is answered, and the timeout is set back. A block that
-- is cut short or damaged is never reported as received.
pub mrecvblk_sound :
    (p : Port) (buff : List ℕ) (blen : ℕ)
    → (mrecvblk p buff blen).rval ≡ pos blen
    → (n : ℕ) × (q : Port) × (b : List ℕ) × (r : Port) × (n ≤ 5)
      × Tried (recvblk blen) blen n p buff q b
      × ((block_at q blen).rlen ≡ pos blen)
      × ((mrecvblk p buff blen).buff ≡ write_at b 0 (block_at q blen).bytes)
      × ((sum_at q blen).rlen ≡ pos 2)
      × (chksum (mrecvblk p buff blen).buff blen ≡ getword (sum_at q blen).bytes 0)
      × (mcmdrsp (sum_at q blen).port mcmd_posack mrsp_gotack ≡ (ok, r))
      × ((mrecvblk p buff blen).port ≡ (com_settimeout r p.tmo).1)
unfolding mrecvblk
mrecvblk_sound p buff blen e =
    let (y, (n, q, b, few, tried, v, same, acked), at) =
      xmitblk-From (recvblk blen) blen p buff e in
    let (len, filled, two, sum, port) = recvblk_sound blen q b v in
    let held = ap (λ x. x.buff) at ∙ same in
    (
      n,
      q,
      b,
      y.port,
      omega arith,
      tried,
      len,
      held ∙ filled,
      two,
      ap (λ t. chksum t blen) held ∙ sum,
      ap (λ s. mcmdrsp s mcmd_posack mrsp_gotack) (sym port) ∙ acked,
      ap (λ x. x.port) at,
    )
