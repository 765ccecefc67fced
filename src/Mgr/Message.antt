-- ===== src/Mgr/Message.antt =====
-- MMCsend() and MMCrecv() of src/mgrproto.c: the two halves of a memory card operation.
use ic35link.Base.{
  ℕ, ◌≤◌, ◌<◌, ◌≡◌, refl, sym, ap, ◌∙◌, List, [], ◌∷◌, ◌++◌, arith, length, take, All, eq→==,
  lt→ltb, replicate, append_assoc, length-replicate,
}
use ic35link.Base.Int.{ℤ, pos}
use ic35link.Com.{Port, com_settimeout}
use ic35link.Com.Chunks.{com_recv_step}
use ic35link.Com.Waiting.{Line, Goes, com_sendw_open, com_send_open}
use ic35link.Pdu.{chksum, getword, putword}
use ic35link.Mgr.{mmcsend, mmcrecv, mcmd_mmcard, mcmd_posack, mrsp_gotcmd, mrsp_gotlen}
use ic35link.Mgr.Command.{mcmdrsp-Sends, mcmdrsp_answered}
use ic35link.Mgr.Block.{Copy, IsDamaged, IsIntact, copies, naks, mrecvblk_recovers, over_full}
use ic35link.Mgr.Send.{IsWrong, reports, attempts, cut, msendblk_recovers}

-- All that MMCsend() writes.
abbrev pub sent_by_mmcsend : List ℕ → ℕ → List (List ℕ) → List (List ℕ)
sent_by_mmcsend sbuff slen bad =
    (mcmd_mmcard ∷ [])
    ∷ (cut (putword (replicate 2 0) 0 slen) ++ attempts (cut (take slen sbuff)) bad)

pub mmcsend_lem :
    (p : Port) (sbuff : List ℕ) (slen : ℕ) (bad : List (List ℕ)) (s rest : List ℕ)
    → 0 < p.tmo
    → length bad ≤ 5
    → All (IsWrong sbuff slen) bad
    → length s ≡ 2
    → chksum sbuff slen ≡ getword s 0
    → Line p (mrsp_gotcmd ∷ mrsp_gotlen ∷ reports bad (reports (s ∷ []) rest))
    → (q : Port) × (mmcsend p sbuff slen ≡ (pos slen, q))
      × (q.tmo ≡ p.tmo)
      × Goes p q (sent_by_mmcsend sbuff slen bad) rest
unfolding mmcsend
mmcsend_lem p sbuff slen bad s rest t le hb n sum on =
    let after : List ℕ = reports bad (reports (s ∷ []) rest) in
    let (q, run, (line, sent)) =
      mcmdrsp_answered p mcmd_mmcard mrsp_gotcmd (mrsp_gotlen ∷ after) on in
    let kept : q.tmo ≡ p.tmo =
      ap (λ (x : ℤ × Port). x.1.tmo) (sym run) ∙ (mcmdrsp-Sends p mcmd_mmcard mrsp_gotcmd).3 in
    let lw : List ℕ = putword (replicate 2 0) 0 slen in
    let q' : Port = record q { sent = q.sent ++ cut lw } in
    let (r, got, left, open_, kept') =
      com_recv_step q' 1 (mrsp_gotlen ∷ []) after line.0 line.1 refl (omega arith) in
    let (u, block, tmo, (line', sent')) =
      msendblk_recovers r sbuff slen bad s rest (omega (arith, kept, kept'.1, t)) le hb n sum
        (open_, left) in
    (
      u,
      rw (run, com_sendw_open q lw line.0, got, block, eq→== slen slen refl) refl,
      tmo ∙ kept'.1 ∙ kept,
      (
        line',
        sent'
            ∙ ap (λ x. x ++ attempts (cut (take slen sbuff)) bad)
                (kept'.2 ∙ ap (λ x. x ++ cut lw) sent)
            ∙ append_assoc (p.sent ++ (mcmd_mmcard ∷ []) ∷ []) (cut lw)
                (attempts (cut (take slen sbuff)) bad)
            ∙ append_assoc p.sent ((mcmd_mmcard ∷ []) ∷ [])
                (cut lw ++ attempts (cut (take slen sbuff)) bad),
      ),
    )

pub mmcrecv_lem :
    (p : Port) (lw : List ℕ) (bad : List Copy) (good : Copy) (rest : List ℕ)
    → 0 < p.tmo
    → length lw ≡ 2
    → 2 ≤ (getword lw 0)
    → length bad ≤ 5
    → All (IsDamaged (getword lw 0)) bad
    → IsIntact (getword lw 0) good
    → Line p (lw ++ copies bad (copies (good ∷ []) rest))
    → (q : Port) × (mmcrecv p ≡ (pos (getword lw 0), good.bytes, q))
      × (q.tmo ≡ p.tmo)
      × Goes p q ((mrsp_gotlen ∷ []) ∷ (naks bad ++ (mcmd_posack ∷ []) ∷ [])) rest
unfolding mmcrecv com_settimeout
mmcrecv_lem p lw bad good rest t two h le hb hg (o, e) =
    let after : List ℕ = copies bad (copies (good ∷ []) rest) in
    let p1 : Port = record p { tmo = 5000 } in
    let (q, got, left, open_, kept) = com_recv_step p1 2 lw after o e (sym two) (omega arith) in
    let q' : Port = record q { sent = q.sent ++ (mrsp_gotlen ∷ []) ∷ [] } in
    let (r, block, tmo, (line, sent)) =
      mrecvblk_recovers q' (replicate (getword lw 0) 0) (getword lw 0) bad good rest
        (omega (arith, kept.1)) h (omega (arith, length-replicate {A = ℕ} (getword lw 0) 0)) le hb
        hg (open_, left) in
    (
      record r { tmo = p.tmo },
      rw
          (
            got,
            com_send_open q (mrsp_gotlen ∷ []) open_,
            block,
            over_full (getword lw 0) (replicate (getword lw 0) 0) good.bytes
                (length-replicate (getword lw 0) 0),
            eq→== (getword lw 0) (getword lw 0) refl,
            lt→ltb 0 p.tmo t,
          )
          refl,
      refl,
      (
        line,
        sent
            ∙ ap (λ x. (x ++ (mrsp_gotlen ∷ []) ∷ []) ++ (naks bad ++ (mcmd_posack ∷ []) ∷ []))
                kept.2
            ∙ append_assoc p.sent ((mrsp_gotlen ∷ []) ∷ []) (naks bad ++ (mcmd_posack ∷ []) ∷ []),
      ),
    )
