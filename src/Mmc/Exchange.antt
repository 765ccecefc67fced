-- ===== src/Mmc/Exchange.antt =====
-- A whole memory card operation of src/mgrproto.c: command and response, with repeats.
use ic35link.Base.{
  ℕ, ◌≤◌, ◌<◌, ◌≡◌, refl, ap, ◌∙◌, Option, none, some, List, [], ◌∷◌, ◌++◌, arith, length, All,
  ◌==◌, if◌then◌else◌, append_assoc,
}
use ic35link.Base.Int.{pos, err}
use ic35link.Com.{Port}
use ic35link.Com.Waiting.{Line, Goes}
use ic35link.Pdu.{chksum, getword}
use ic35link.Mgr.{mcmd_posack, mrsp_gotcmd, mrsp_gotlen}
use ic35link.Mgr.Block.{Copy, IsDamaged, IsIntact, copies, naks}
use ic35link.Mgr.Send.{IsWrong, reports}
use ic35link.Mgr.Message.{sent_by_mmcsend, mmcsend_lem, mmcrecv_lem}
use ic35link.Mmc.{
  PduDesc, noffs, Mcmd, failed, sendrecv_as, sendrecv, command, get_iden, put_iden, encode,
}
use ic35link.Mmc.Layout.{layout, desc_of, Fits, Given, encode-layout}

-- What the device sends for a command: the checksums that it reports of the command, the length
-- of its response and the copies of that.
pub record Answers : Type 0 where
  pub wrong : List (List ℕ)
  pub right : List ℕ
  pub len : List ℕ
  pub bad : List Copy
  pub good : Copy

abbrev pub answer_stream : Answers → List ℕ → List ℕ
answer_stream a rest =
    mrsp_gotcmd
    ∷ mrsp_gotlen
    ∷ reports a.wrong (reports (a.right ∷ []) (a.len ++ copies a.bad (copies (a.good ∷ []) rest)))

-- Both are good in the end, after at most 5 that are not.
abbrev pub IsAnswer : List ℕ → Answers → Type 0
IsAnswer pdu a =
    (length a.wrong ≤ 5)
    × All (IsWrong pdu (length pdu)) a.wrong
    × (length a.right ≡ 2)
    × (chksum pdu (length pdu) ≡ getword a.right 0)
    × (length a.len ≡ 2)
    × (2 ≤ getword a.len 0)
    × (length a.bad ≤ 5)
    × All (IsDamaged (getword a.len 0)) a.bad
    × IsIntact (getword a.len 0) a.good

-- All that is written for it.
abbrev pub writes : List ℕ → Answers → List (List ℕ)
writes pdu a =
    sent_by_mmcsend pdu (length pdu) a.wrong
    ++ ((mrsp_gotlen ∷ []) ∷ (naks a.bad ++ (mcmd_posack ∷ []) ∷ []))

-- The status that a response of some bytes has, if it has one.
abbrev pub status_in : ℕ → List ℕ → ℕ
status_in offs mem = if offs == noffs then 0 else getword mem offs

sendrecv-answered :
    (d : PduDesc) (behind : List ℕ) (p : Port) (pdu out : List ℕ) (fdstat : Option (List ℕ))
    (a : Answers) (rest : List ℕ)
    → 0 < p.tmo
    → put_iden d.sidenoffs pdu fdstat ≡ out
    → length pdu ≡ length out
    → IsAnswer out a
    → Line p (answer_stream a rest)
    → (q : Port) × (sendrecv_as d behind p pdu fdstat ≡ record {
      rval = pos (status_in d.rstatoffs (a.good.bytes ++ behind));
      mem = a.good.bytes ++ behind;
      rlen = length a.good.bytes;
      fdstat = get_iden d.ridenoffs (a.good.bytes ++ behind) fdstat;
      port = q;
    })
      × (q.tmo ≡ p.tmo)
      × Goes p q (writes out a) rest
unfolding sendrecv_as
sendrecv-answered d behind p pdu out fdstat a rest t laid n
      (few, hw, nr, sum, nl, two, few', hb, hg) on =
    let (q, send, tmo, (line, sent)) =
      mmcsend_lem p out (length out) a.wrong a.right
        (a.len ++ copies a.bad (copies (a.good ∷ []) rest)) t few hw nr sum on in
    let (r, recv, tmo', (line', sent')) =
      mmcrecv_lem q a.len a.bad a.good rest (omega (arith, tmo, t)) nl two few' hb hg line in
    (
      r,
      rw (laid, n, send, recv) refl,
      tmo' ∙ tmo,
      (
        line',
        sent'
            ∙ rw sent (
                append_assoc p.sent (sent_by_mmcsend out (length out) a.wrong)
                  ((mrsp_gotlen ∷ []) ∷ (naks a.bad ++ (mcmd_posack ∷ []) ∷ []))),
      ),
    )

-- When the receive timeout is not 0, a command fits its PDU and has its identifier, and on an open
-- line the device confirms the layout of the command after at most 5 wrong checksums and sends a
-- response of at least 2 bytes that is intact after at most 5 damaged copies, the operation returns
-- the status that stands in the response, or 0 where the response has none, the response, and the
-- identifier from the response where it has one; it has written the command byte, the length, the
-- PDU and the acknowledgements in their order, and leaves the receive timeout and what follows on
-- the line. Memory behind the response is read only where the response is too short for that.
pub command-answered :
    (c : Mcmd) (behind : List ℕ) (p : Port) (fdstat : Option (List ℕ)) (iden : List ℕ) (a : Answers)
    (rest : List ℕ)
    → 0 < p.tmo
    → Fits c
    → Given c fdstat iden
    → IsAnswer (layout c iden) a
    → Line p (answer_stream a rest)
    → (q : Port) × (command behind p c fdstat ≡ record {
      rval = pos (status_in (desc_of c).rstatoffs (a.good.bytes ++ behind));
      mem = a.good.bytes ++ behind;
      rlen = length a.good.bytes;
      fdstat = get_iden (desc_of c).ridenoffs (a.good.bytes ++ behind) fdstat;
      port = q;
    })
      × (q.tmo ≡ p.tmo)
      × Goes p q (writes (layout c iden) a) rest
unfolding command sendrecv
command-answered c behind p fdstat iden a rest t f g ha on =
    let (pdu, start, found, laid, n) = encode-layout c fdstat iden f g in
    let (q, run, tmo, goes) =
      sendrecv-answered (desc_of c) behind p (encode c pdu) (layout c iden) fdstat a rest t laid n
        ha on in
    (
      q,
      ap
            (λ o. elim o [
              | none ↦ failed err fdstat p
              | some b ↦ sendrecv behind p (encode c b) fdstat
            ])
            start
          ∙ ap
              (λ o. elim o [
                | none ↦ failed err fdstat p
                | some d ↦ sendrecv_as d behind p (encode c pdu) fdstat
              ])
              found
          ∙ run,
      tmo,
      goes,
    )
