-- ===== src/Mgr/Block.antt =====
-- Mrecvblk() of src/mgrproto.c: a block that is received again until its checksum is right.
use ic35link.Base.{
  ℕ, zero, suc, ◌≤◌, ◌<◌, ◌≡◌, ◌≢◌, refl, sym, ap, ◌∙◌, List, [], ◌∷◌, ◌++◌, arith, length, take,
  drop, All, u16, length-append, take-length, drop-length, eq→==, ne→==, le→leb, append-nil,
  append_assoc,
}
use ic35link.Base.CString.{write_at, write_at_lem}
use ic35link.Base.Int.{ℤ, pos, err}
use ic35link.Com.{Port, com_settimeout}
use ic35link.Com.Chunks.{com_recv_step}
use ic35link.Com.Waiting.{Line, Goes}
use ic35link.Pdu.{chksum, getword}
use ic35link.Pdu.Checksum.{sum, chksum-sum}
use ic35link.Mgr.{
  Xmit, xmit_end, xmit_loop, recvblk, mrecvblk, data_end, tail_sum, mcmd_posack, mcmd_negack,
  mrsp_gotack, err_chksum,
}
use ic35link.Mgr.Loop.{loop_end, loop_more, posack_answered, negack_answered, xmitblk-loop}

-- A block as it comes over the line, with the two bytes behind it.
pub record Copy : Type 0 where
  pub bytes : List ℕ
  pub sum : List ℕ

abbrev pub IsCopy : ℕ → Copy → Type 0
IsCopy blen c = (length c.bytes ≡ blen) × (length c.sum ≡ 2)

abbrev pub IsIntact : ℕ → Copy → Type 0
IsIntact blen c = IsCopy blen c × (chksum c.bytes blen ≡ getword c.sum 0)

abbrev pub IsDamaged : ℕ → Copy → Type 0
IsDamaged blen c = IsCopy blen c × (chksum c.bytes blen ≢ getword c.sum 0)

-- Copies, each followed by the answer to its acknowledgement.
abbrev pub copies : List Copy → List ℕ → List ℕ
copies [] rest = rest
copies (c ∷ cs) rest = c.bytes ++ (c.sum ++ mrsp_gotack ∷ copies cs rest)

-- The buffer with a block at its start.
abbrev pub over : ℕ → List ℕ → List ℕ → List ℕ
over blen buff bytes = bytes ++ drop blen buff

pub start_of_buffer :
    (blen : ℕ) (buff bytes : List ℕ)
    → blen ≤ length buff
    → length bytes ≡ blen
    → write_at buff 0 bytes ≡ over blen buff bytes
start_of_buffer blen buff bytes h e =
    write_at_lem buff bytes 0 (omega arith) ∙ ap (λ n. bytes ++ drop n buff) e

abbrev result_of : ℤ → Port → List ℕ → Xmit
result_of rval p buff = record { rval = rval; buff = buff; port = p }

pub over_full : (blen : ℕ) (buff bytes : List ℕ) → length buff ≡ blen → over blen buff bytes ≡ bytes
over_full blen buff bytes e =
    ap (λ t. bytes ++ t) (ap (drop blen) (sym (append-nil buff)) ∙ drop-length buff [] blen (sym e))
    ∙ append-nil bytes

over-over :
    (blen : ℕ) (buff bytes last : List ℕ)
    → length bytes ≡ blen
    → over blen (over blen buff bytes) last ≡ over blen buff last
over-over blen buff bytes last e =
    ap (λ t. last ++ t) (drop-length bytes (drop blen buff) blen (sym e))

length-over :
    (blen : ℕ) (buff bytes : List ℕ)
    → blen ≤ length buff
    → length bytes ≡ blen
    → blen ≤ length (over blen buff bytes)
length-over blen buff bytes h e = omega (arith, length-append bytes (drop blen buff))

pub chksum-over :
    (blen : ℕ) (buff bytes : List ℕ)
    → length bytes ≡ blen
    → chksum (over blen buff bytes) blen ≡ chksum bytes blen
chksum-over blen buff bytes e =
    chksum-sum (over blen buff bytes) blen
    ∙ ap (λ t. u16 (sum t))
        (take-length bytes (drop blen buff) blen (sym e)
          ∙ sym (take-length bytes [] blen (sym e))
          ∙ ap (take blen) (append-nil bytes))
    ∙ sym (chksum-sum bytes blen)

end-whole :
    (n : ℕ) (buff : List ℕ) (c : Copy)
    → length c.bytes ≡ n
    → ((chksum c.bytes n ≡ getword c.sum 0)
        → data_end (pos n) (over n buff c.bytes) (pos 2) c.sum ≡ pos n)
      × ((chksum c.bytes n ≢ getword c.sum 0)
          → data_end (pos n) (over n buff c.bytes) (pos 2) c.sum ≡ err_chksum)
unfolding data_end tail_sum
end-whole n buff c e = (
  λ same. rw (chksum-over n buff c.bytes e, eq→== (chksum c.bytes n) (getword c.sum 0) same) refl,
  λ other. rw (chksum-over n buff c.bytes e, ne→== (chksum c.bytes n) (getword c.sum 0) other) refl,
)

-- What receiving a copy gives.
recvblk-copy :
    (blen : ℕ) (p : Port) (buff : List ℕ) (c : Copy) (rest : List ℕ)
    → 2 ≤ blen
    → blen ≤ length buff
    → IsCopy blen c
    → Line p (c.bytes ++ (c.sum ++ rest))
    → (q : Port) × (recvblk blen p buff ≡ record {
      rval = data_end (pos blen) (over blen buff c.bytes) (pos 2) c.sum;
      buff = over blen buff c.bytes;
      port = q;
    })
      × Goes p q [] rest
unfolding recvblk com_settimeout
recvblk-copy blen p buff c rest h n (lb, ls) (o, e) =
    let p1 : Port = record p { tmo = 2000 } in
    let (q, got, left, open_, kept) =
      com_recv_step p1 blen c.bytes (c.sum ++ rest) o e (sym lb) (omega arith) in
    let (r, got', left', open', kept') =
      com_recv_step q 2 c.sum rest open_ left (sym ls) (omega arith) in
    (
      r,
      rw (got, got', start_of_buffer blen buff c.bytes n lb, le→leb 2 blen h) refl,
      ((open', left'), kept'.2 ∙ kept.2 ∙ sym (append-nil p.sent)),
    )

abbrev pub naks : List Copy → List (List ℕ)
naks [] = []
naks (c ∷ cs) = (mcmd_negack ∷ []) ∷ naks cs

loop-copies :
    (blen left : ℕ) (rval : ℤ) (p : Port) (buff : List ℕ) (bad : List Copy) (good : Copy)
    (rest : List ℕ)
    → 2 ≤ blen
    → length bad ≤ left
    → blen ≤ length buff
    → All (IsDamaged blen) bad
    → IsIntact blen good
    → Line p (copies bad (copies (good ∷ []) rest))
    → (q : Port) × (xmit_loop (recvblk blen) blen (suc left) rval p buff
        ≡ record { rval = pos blen; buff = over blen buff good.bytes; port = q })
      × Goes p q (naks bad ++ (mcmd_posack ∷ []) ∷ []) rest
loop-copies blen left rval p buff [] good rest h le n hb (ic, sum) on =
    let (q, got, (line, quiet)) = recvblk-copy blen p buff good (mrsp_gotack ∷ rest) h n ic on in
    let (r, end, (line', sent)) =
      posack_answered blen left q (over blen buff good.bytes) rest line in
    (
      r,
      loop_end (recvblk blen) blen left rval p buff
          (record { rval = pos blen; buff = over blen buff good.bytes; port = q })
          (record { rval = pos blen; buff = over blen buff good.bytes; port = r })
          (got
            ∙ ap (λ v. record { rval = v; buff = over blen buff good.bytes; port = q })
                ((end-whole blen buff good ic.0).0 sum))
          end,
      (line', sent ∙ rw (quiet, append-nil p.sent) refl),
    )
loop-copies blen zero rval p buff (c ∷ bad) good rest h le n hb hg on = absurd (omega arith)
loop-copies blen (suc left) rval p buff (c ∷ bad) good rest h le n ((ic, sum), hb) hg on =
    let after : List ℕ = copies bad (copies (good ∷ []) rest) in
    let (q, got, (line, quiet)) = recvblk-copy blen p buff c (mrsp_gotack ∷ after) h n ic on in
    let (r, end, (line', sent)) =
      negack_answered blen (suc left) q (over blen buff c.bytes) after (omega arith) line in
    let (s, run, (line'', sent')) =
      loop-copies blen left err_chksum r (over blen buff c.bytes) bad good rest h (omega arith)
        (length-over blen buff c.bytes n ic.0) hb hg line' in
    (
      s,
      loop_more (recvblk blen) blen (suc left) rval p r buff
            (record { rval = err_chksum; buff = over blen buff c.bytes; port = q })
            (got
              ∙ ap (λ v. record { rval = v; buff = over blen buff c.bytes; port = q })
                  ((end-whole blen buff c ic.0).1 sum))
            end
          ∙ run
          ∙ ap (result_of (pos blen) s) (over-over blen buff c.bytes good.bytes ic.0),
      (
        line'',
        sent'
            ∙ rw (sent, quiet, append-nil p.sent)
                (append_assoc p.sent ((mcmd_negack ∷ []) ∷ [])
                  (naks bad ++ (mcmd_posack ∷ []) ∷ [])),
      ),
    )

-- When the receive timeout is not 0, the buffer has room for the block, which is at least 2 bytes
-- long, and on an open line at most 5 damaged copies of the block arrive and then an intact one,
-- each with its two bytes of checksum and followed by the answer to its acknowledgement, Mrecvblk()
-- returns the length with the intact block at the start of the buffer, whose rest is unchanged; it
-- has sent a negative acknowledgement for each damaged copy and then one positive acknowledgement,
-- and leaves what follows on the line and the receive timeout.
pub mrecvblk_recovers :
    (p : Port) (buff : List ℕ) (blen : ℕ) (bad : List Copy) (good : Copy) (rest : List ℕ)
    → 0 < p.tmo
    → 2 ≤ blen
    → blen ≤ length buff
    → length bad ≤ 5
    → All (IsDamaged blen) bad
    → IsIntact blen good
    → Line p (copies bad (copies (good ∷ []) rest))
    → (q : Port) × (mrecvblk p buff blen
        ≡ record { rval = pos blen; buff = over blen buff good.bytes; port = q })
      × (q.tmo ≡ p.tmo)
      × Goes p q (naks bad ++ (mcmd_posack ∷ []) ∷ []) rest
unfolding mrecvblk
mrecvblk_recovers p buff blen bad good rest t h n le hb hg on =
    let (q, run, (line, sent)) = loop-copies blen 5 err p buff bad good rest h le n hb hg on in
    (
      record q { tmo = p.tmo },
      xmitblk-loop (recvblk blen) blen p buff
          (record { rval = pos blen; buff = over blen buff good.bytes; port = q }) t run,
      refl,
      (line, sent),
    )

loop_gives_up :
    (blen left : ℕ) (rval : ℤ) (p : Port) (buff : List ℕ) (bad : List Copy) (last : Copy)
    (rest : List ℕ)
    → 2 ≤ blen
    → length bad ≡ left
    → blen ≤ length buff
    → All (IsDamaged blen) bad
    → IsDamaged blen last
    → Line p (copies bad (last.bytes ++ (last.sum ++ rest)))
    → (q : Port) × (xmit_loop (recvblk blen) blen (suc left) rval p buff
        ≡ record { rval = err_chksum; buff = over blen buff last.bytes; port = q })
      × Goes p q (naks bad) rest
loop_gives_up blen zero rval p buff [] last rest h le n hb (ic, sum) on =
    let (q, got, (line, quiet)) = recvblk-copy blen p buff last rest h n ic on in
    (
      q,
      loop_end (recvblk blen) blen 0 rval p buff
          (record { rval = err_chksum; buff = over blen buff last.bytes; port = q })
          (record { rval = err_chksum; buff = over blen buff last.bytes; port = q })
          (got
            ∙ ap (λ v. record { rval = v; buff = over blen buff last.bytes; port = q })
                ((end-whole blen buff last ic.0).1 sum))
          (unfold xmit_end in refl),
      (line, quiet),
    )
loop_gives_up blen (suc left) rval p buff [] last rest h le n hb hl on = absurd (omega arith)
loop_gives_up blen zero rval p buff (c ∷ bad) last rest h le n hb hl on = absurd (omega arith)
loop_gives_up blen (suc left) rval p buff (c ∷ bad) last rest h le n ((ic, sum), hb) hl on =
    let after : List ℕ = copies bad (last.bytes ++ (last.sum ++ rest)) in
    let (q, got, (line, quiet)) = recvblk-copy blen p buff c (mrsp_gotack ∷ after) h n ic on in
    let (r, end, (line', sent)) =
      negack_answered blen (suc left) q (over blen buff c.bytes) after (omega arith) line in
    let (s, run, (line'', sent')) =
      loop_gives_up blen left err_chksum r (over blen buff c.bytes) bad last rest h (omega arith)
        (length-over blen buff c.bytes n ic.0) hb hl line' in
    (
      s,
      loop_more (recvblk blen) blen (suc left) rval p r buff
            (record { rval = err_chksum; buff = over blen buff c.bytes; port = q })
            (got
              ∙ ap (λ v. record { rval = v; buff = over blen buff c.bytes; port = q })
                  ((end-whole blen buff c ic.0).1 sum))
            end
          ∙ run
          ∙ ap (result_of err_chksum s) (over-over blen buff c.bytes last.bytes ic.0),
      (
        line'',
        sent'
            ∙ rw (sent, quiet, append-nil p.sent)
                (append_assoc p.sent ((mcmd_negack ∷ []) ∷ []) (naks bad)),
      ),
    )

-- When the receive timeout is not 0, the buffer has room for the block, which is at least 2 bytes
-- long, and on an open line 6 damaged copies of the block arrive, the first 5 followed by the answer
-- to the negative acknowledgement, Mrecvblk() returns ERR_chksum; it has sent the negative
-- acknowledgement 5 times and nothing else, and leaves what follows on the line and the receive
-- timeout.
pub mrecvblk_gives_up :
    (p : Port) (buff : List ℕ) (blen : ℕ) (bad : List Copy) (last : Copy) (rest : List ℕ)
    → 0 < p.tmo
    → 2 ≤ blen
    → blen ≤ length buff
    → length bad ≡ 5
    → All (IsDamaged blen) bad
    → IsDamaged blen last
    → Line p (copies bad (last.bytes ++ (last.sum ++ rest)))
    → ((mrecvblk p buff blen).rval ≡ err_chksum)
      × ((mrecvblk p buff blen).port.tmo ≡ p.tmo)
      × Goes p (mrecvblk p buff blen).port (naks bad) rest
unfolding mrecvblk
mrecvblk_gives_up p buff blen bad last rest t h n le hb hl on =
    let (q, run, (line, sent)) = loop_gives_up blen 5 err p buff bad last rest h le n hb hl on in
    rw
      (xmitblk-loop (recvblk blen) blen p buff
        (record { rval = err_chksum; buff = over blen buff last.bytes; port = q }) t run)
      (refl, refl, (line, sent))
