-- ===== src/Mgr/Send.antt =====
-- Msendblk() of src/mgrproto.c: a block that is sent again until the device confirms its checksum.
use ic35link.Base.{
  ℕ, zero, suc, ◌≤◌, ◌<◌, ◌≡◌, ◌≢◌, refl, sym, ◌∙◌, List, [], ◌∷◌, ◌++◌, arith, length, take, All,
  eq→==, ne→==, append_assoc,
}
use ic35link.Base.Int.{ℤ, pos, err}
use ic35link.Com.{Port, com_settimeout, wait_blocks}
use ic35link.Com.Chunks.{com_recv_step}
use ic35link.Com.Waiting.{Line, Goes, com_sendw_open}
use ic35link.Pdu.{chksum, getword}
use ic35link.Mgr.{xmit_loop, sendblk, msendblk, mcmd_posack, mcmd_negack, mrsp_gotack, err_chksum}
use ic35link.Mgr.Loop.{loop_end, loop_more, posack_answered, negack_answered, xmitblk-loop}

-- The checksums that the device reports, each followed by the answer to its acknowledgement.
abbrev pub reports : List (List ℕ) → List ℕ → List ℕ
reports [] rest = rest
reports (s ∷ ss) rest = s ++ mrsp_gotack ∷ reports ss rest

abbrev pub IsWrong : List ℕ → ℕ → List ℕ → Type 0
IsWrong bytes dlen s = (length s ≡ 2) × (chksum bytes dlen ≢ getword s 0)

-- What is written: the block and a negative acknowledgement for each wrong report, then the block
-- and the positive one.
abbrev pub attempts : List (List ℕ) → List (List ℕ) → List (List ℕ)
attempts block [] = block ++ (mcmd_posack ∷ []) ∷ []
attempts block (s ∷ ss) = block ++ ((mcmd_negack ∷ []) ∷ attempts block ss)

abbrev pub cut : List ℕ → List (List ℕ)
cut bytes = wait_blocks (length bytes) bytes

sendblk-report :
    (dlen : ℕ) (p : Port) (bytes s rest : List ℕ)
    → length s ≡ 2
    → Line p (s ++ rest)
    → (q : Port) × ((chksum bytes dlen ≡ getword s 0)
        → sendblk dlen p bytes ≡ record { rval = pos dlen; buff = bytes; port = q })
      × ((chksum bytes dlen ≢ getword s 0)
          → sendblk dlen p bytes ≡ record { rval = err_chksum; buff = bytes; port = q })
      × Goes p q (cut (take dlen bytes)) rest
unfolding sendblk com_settimeout
sendblk-report dlen p bytes s rest n (o, e) =
    let block : List (List ℕ) = cut (take dlen bytes) in
    let p1 : Port = record p { sent = p.sent ++ block; tmo = 10000 } in
    let (q, got, left, open_, kept) = com_recv_step p1 2 s rest o e (sym n) (omega arith) in
    (
      record q { tmo = 3000 },
      λ same. rw (com_sendw_open p (take dlen bytes) o, got, eq→== _ _ same) refl,
      λ other. rw (com_sendw_open p (take dlen bytes) o, got, ne→== _ _ other) refl,
      ((open_, left), kept.2),
    )

loop-reports :
    (dlen left : ℕ) (rval : ℤ) (p : Port) (bytes : List ℕ) (bad : List (List ℕ)) (s rest : List ℕ)
    → length bad ≤ left
    → All (IsWrong bytes dlen) bad
    → length s ≡ 2
    → chksum bytes dlen ≡ getword s 0
    → Line p (reports bad (reports (s ∷ []) rest))
    → (q : Port) × (xmit_loop (sendblk dlen) dlen (suc left) rval p bytes
        ≡ record { rval = pos dlen; buff = bytes; port = q })
      × Goes p q (attempts (cut (take dlen bytes)) bad) rest
loop-reports dlen left rval p bytes [] s rest le hb n sum on =
    let (q, right, _, (line, sent)) = sendblk-report dlen p bytes s (mrsp_gotack ∷ rest) n on in
    let (r, end, (line', sent')) = posack_answered dlen left q bytes rest line in
    (
      r,
      loop_end (sendblk dlen) dlen left rval p bytes
          (record { rval = pos dlen; buff = bytes; port = q })
          (record { rval = pos dlen; buff = bytes; port = r }) (right sum) end,
      (
        line',
        sent' ∙ rw sent (append_assoc p.sent (cut (take dlen bytes)) ((mcmd_posack ∷ []) ∷ [])),
      ),
    )
loop-reports dlen zero rval p bytes (b ∷ bad) s rest le hb n sum on = absurd (omega arith)
loop-reports dlen (suc left) rval p bytes (b ∷ bad) s rest le ((two, wrong), hb) n sum on =
    let block : List (List ℕ) = cut (take dlen bytes) in
    let after : List ℕ = reports bad (reports (s ∷ []) rest) in
    let (q, _, other, (line, sent)) = sendblk-report dlen p bytes b (mrsp_gotack ∷ after) two on in
    let (r, end, (line', sent')) =
      negack_answered dlen (suc left) q bytes after (omega arith) line in
    let (t, run, (line'', sent'')) =
      loop-reports dlen left err_chksum r bytes bad s rest (omega arith) hb n sum line' in
    (
      t,
      loop_more (sendblk dlen) dlen (suc left) rval p r bytes
            (record { rval = err_chksum; buff = bytes; port = q }) (other wrong) end
          ∙ run,
      (
        line'',
        sent''
            ∙ rw (sent', sent)
                (append_assoc (p.sent ++ block) ((mcmd_negack ∷ []) ∷ []) (attempts block bad)
                  ∙ append_assoc p.sent block ((mcmd_negack ∷ []) ∷ attempts block bad)),
      ),
    )

-- When the receive timeout is not 0 and on an open line at most 5 wrong checksums of the block
-- arrive and then the right one, each followed by the answer to its acknowledgement, Msendblk()
-- returns the length; it has written the block in blocks of at most 16 bytes and a negative
-- acknowledgement for each wrong checksum, then the block and a positive acknowledgement, and leaves
-- what follows on the line and the receive timeout.
pub msendblk_recovers :
    (p : Port) (bytes : List ℕ) (dlen : ℕ) (bad : List (List ℕ)) (s rest : List ℕ)
    → 0 < p.tmo
    → length bad ≤ 5
    → All (IsWrong bytes dlen) bad
    → length s ≡ 2
    → chksum bytes dlen ≡ getword s 0
    → Line p (reports bad (reports (s ∷ []) rest))
    → (q : Port) × (msendblk p bytes dlen ≡ record { rval = pos dlen; buff = bytes; port = q })
      × (q.tmo ≡ p.tmo)
      × Goes p q (attempts (cut (take dlen bytes)) bad) rest
unfolding msendblk
msendblk_recovers p bytes dlen bad s rest t le hb n sum on =
    let (q, run, (line, sent)) = loop-reports dlen 5 err p bytes bad s rest le hb n sum on in
    (
      record q { tmo = p.tmo },
      xmitblk-loop (sendblk dlen) dlen p bytes (record { rval = pos dlen; buff = bytes; port = q })
          t run,
      refl,
      (line, sent),
    )
