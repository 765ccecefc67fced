-- ===== src/Mgr/Examples.antt =====
-- Runs of the manager protocol of mgrproto.c, and its theorems at concrete inputs.
use ic35link.Base.{ℕ, ◌≤◌, ◌≡◌, refl, List, [], ◌∷◌, ◌++◌, arith, replicate, All, zero, suc}
use ic35link.Base.CString.{write_at}
use ic35link.Base.Int.{pos, ok}
use ic35link.Com.{Port, arrive, com_recv, com_recv_loop, com_send, com_settimeout}
use ic35link.Com.Chunks.{pending}
use ic35link.Com.Repeats.{line}
use ic35link.Com.Waiting.{Goes}
use ic35link.Pdu.{chksum, chksum_loop, getword, getbyte}
use ic35link.Mgr.{
  mcmdrsp, cmdrsp_loop, mrecvblk, msendblk, mcmd_posack, mrsp_gotack, err_chksum, xmitblk,
  xmit_loop, xmit_end, recvblk, data_end, tail_sum,
}
use ic35link.Mgr.Block.{Copy, IsDamaged, copies, naks, over, mrecvblk_recovers, mrecvblk_gives_up}
use ic35link.Mgr.Tried.{Tried}
use ic35link.Mgr.Sound.{block_at, sum_at, mrecvblk_sound}
use ic35link.Mgr.Send.{reports, attempts, cut, msendblk_recovers}

-- A block of two bytes, and the same with its second byte damaged.
abbrev intact : Copy
intact = record { bytes = 1 ∷ 2 ∷ []; sum = 3 ∷ 0 ∷ [] }

abbrev damaged : Copy
damaged = record { bytes = 1 ∷ 9 ∷ []; sum = 3 ∷ 0 ∷ [] }

-- Both come with the answers to their acknowledgements, and one byte more.
abbrev noisy : Port
noisy = line 500 [] (arrive (copies (damaged ∷ []) (copies (intact ∷ []) (7 ∷ []))) ∷ [])

abbrev room : List ℕ
room = 0 ∷ 0 ∷ 5 ∷ []

mrecvblk_recovers_example :
    (q : Port) × (mrecvblk noisy room 2
      ≡ record { rval = pos 2; buff = over 2 room (1 ∷ 2 ∷ []); port = q })
    × (q.tmo ≡ 500)
    × Goes noisy q (naks (damaged ∷ []) ++ (mcmd_posack ∷ []) ∷ []) (7 ∷ [])
unfolding chksum chksum_loop getword getbyte pending
mrecvblk_recovers_example =
    mrecvblk_recovers noisy room 2 (damaged ∷ []) intact (7 ∷ []) (omega arith) (omega arith)
      (omega arith) (omega arith) (((refl, refl), λ e. omega (arith, e)), tt) ((refl, refl), refl)
      (refl, refl)

five-IsDamaged : (n : ℕ) → All (IsDamaged 2) (replicate n damaged)
unfolding chksum chksum_loop getword getbyte
five-IsDamaged zero = tt
five-IsDamaged (suc n) = (((refl, refl), λ e. omega (arith, e)), five-IsDamaged n)

-- Six damaged copies.
abbrev hopeless : Port
hopeless =
    line 500 [] (arrive (copies (replicate 5 damaged) (damaged.bytes ++ (damaged.sum ++ []))) ∷ [])

mrecvblk_gives_up_example :
    ((mrecvblk hopeless room 2).rval ≡ err_chksum)
    × ((mrecvblk hopeless room 2).port.tmo ≡ 500)
    × Goes hopeless (mrecvblk hopeless room 2).port (naks (replicate 5 damaged)) []
unfolding chksum chksum_loop getword getbyte pending
mrecvblk_gives_up_example =
    mrecvblk_gives_up hopeless room 2 (replicate 5 damaged) damaged [] (omega arith) (omega arith)
      (omega arith) refl (five-IsDamaged 5) ((refl, refl), λ e. omega (arith, e)) (refl, refl)

mrecvblk_sound_example :
    (n : ℕ) × (q : Port) × (b : List ℕ) × (r : Port) × (n ≤ 5)
    × Tried (recvblk 2) 2 n noisy room q b
    × ((block_at q 2).rlen ≡ pos 2)
    × ((mrecvblk noisy room 2).buff ≡ write_at b 0 (block_at q 2).bytes)
    × ((sum_at q 2).rlen ≡ pos 2)
    × (chksum (mrecvblk noisy room 2).buff 2 ≡ getword (sum_at q 2).bytes 0)
    × (mcmdrsp (sum_at q 2).port mcmd_posack mrsp_gotack ≡ (ok, r))
    × ((mrecvblk noisy room 2).port ≡ (com_settimeout r 500).1)
unfolding mrecvblk xmitblk xmit_loop xmit_end recvblk data_end tail_sum mcmdrsp cmdrsp_loop com_recv
    com_recv_loop com_send com_settimeout chksum chksum_loop getword getbyte
mrecvblk_sound_example = mrecvblk_sound noisy room 2 refl

-- The device reports a wrong checksum of the block, then the right one.
abbrev reporting : Port
reporting = line 500 [] (arrive (reports ((4 ∷ 0 ∷ []) ∷ []) (reports ((3 ∷ 0 ∷ []) ∷ []) [])) ∷ [])

msendblk_recovers_example :
    (q : Port) × (msendblk reporting (1 ∷ 2 ∷ []) 2
      ≡ record { rval = pos 2; buff = 1 ∷ 2 ∷ []; port = q })
    × (q.tmo ≡ 500)
    × Goes reporting q (attempts (cut (1 ∷ 2 ∷ [])) ((4 ∷ 0 ∷ []) ∷ [])) []
unfolding chksum chksum_loop getword getbyte pending
msendblk_recovers_example =
    msendblk_recovers reporting (1 ∷ 2 ∷ []) 2 ((4 ∷ 0 ∷ []) ∷ []) (3 ∷ 0 ∷ []) [] (omega arith)
      (omega arith) ((refl, λ e. omega (arith, e)), tt) refl refl (refl, refl)

-- A block that is one byte short: the first byte of the checksum ends the buffer, and the tests of
-- how many bytes of the checksum came are the wrong way round, so the last data byte is taken for
-- its low byte.
short_block : tail_sum 3 (1 ∷ 2 ∷ 3 ∷ []) 1 (0 ∷ []) ≡ (1, 2 ∷ 3 ∷ [])
unfolding tail_sum
short_block = refl
