-- ===== src/Level1/Exchange.antt =====
-- The exchanges of synproto.c: a command with its two acknowledgements, and a response.
use ic35link.Base.{
  ℕ, ◌+◌, ◌^◌, ◌≤◌, ◌<◌, ◌≡◌, ◌≢◌, refl, ap, ◌∙◌, true, Option, none, some, List, [], ◌∷◌, ◌++◌,
  arith, length, take, drop, ne→==,
}
use ic35link.Base.Int.{pos, ok, err}
use ic35link.Com.{Port, Keeps, com_send, com_settimeout}
use ic35link.Com.Chunks.{pending, com_recv-Keeps, com_recv_step}
use ic35link.Level1.{
  Got, l1init, l1dsel, l1dreq, l1exit, l1ack0, l1ack1, l1data, bytes_of, l1send, l1recv,
  l1recv_data, l1recv_block, l1recv_check, l2sendcmd, l2recvrsp,
}
use ic35link.Level1.Frame.{frame, l1send_short, l1send-frame}
use ic35link.Level1.Receive.{l1recv-frame}

-- A PDU id that is no data response is received alone.
l1recv_ack :
    (p : Port) (id : ℕ) (rest : List ℕ) (pdu : Option (List ℕ))
    → p.is_open ≡ true
    → pending p.incoming ≡ id ∷ rest
    → id ≢ l1data
    → (q : Port) × (l1recv p pdu ≡ record { rval = ok; rid = id; pdu = bytes_of pdu; port = q })
      × (pending q.incoming ≡ rest)
      × (q.is_open ≡ true)
      × Keeps p q
unfolding l1recv
l1recv_ack p id rest pdu o e ne =
    let (q, r, left, on, kept) = com_recv_step p 1 (id ∷ []) rest o e refl (omega arith) in
    (q, rw r (ground arith), left, on, kept)

ack0-ne-data : l1ack0 ≢ l1data
ack0-ne-data = omega arith

ack1-ne-data : l1ack1 ≢ l1data
ack1-ne-data = omega arith

block-Keeps : (p : Port) (rid : ℕ) (pdu : List ℕ) → Keeps p (l1recv_block p rid pdu).port
unfolding l1recv_block l1recv_check
block-Keeps p rid pdu = grind (arith, com_recv-Keeps)

data-Keeps : (p : Port) (rid : ℕ) (pdu : Option (List ℕ)) → Keeps p (l1recv_data p rid pdu).port
unfolding l1recv_data
data-Keeps p rid none = (refl, refl, refl)
data-Keeps p rid (some pdu) = grind (arith, com_recv-Keeps, block-Keeps)

-- Whatever arrives, receiving changes neither the timeout nor what was sent.
l1recv-Keeps : (p : Port) (pdu : Option (List ℕ)) → Keeps p (l1recv p pdu).port
unfolding l1recv
l1recv-Keeps p pdu = grind (arith, com_recv-Keeps, data-Keeps)

send-tmo : (p : Port) (id len : ℕ) (pdu : Option (List ℕ)) → (l1send p id pdu len).2.tmo ≡ p.tmo
unfolding l1send com_send
send-tmo p id len none = ground arith
send-tmo p id len (some pdu) = ground arith

-- On every path, errors included and whatever arrives, L2sendcmd() leaves the receive timeout that
-- it found, if that is not 0, though it waits longer for the second acknowledgement.
pub l2sendcmd-tmo :
    (p : Port) (pdu : List ℕ) (l2len : ℕ) → 0 < p.tmo → (l2sendcmd p pdu l2len).2.tmo ≡ p.tmo
unfolding l2sendcmd com_settimeout
l2sendcmd-tmo p pdu l2len h =
    let a : Got = l1recv (l1send p l1init none 0).2 none in
    let q : Port = (l1send a.port l1dsel (some pdu) l2len).2 in
    ground (
      arith,
      send-tmo p l1init 0 none,
      l1recv-Keeps (l1send p l1init none 0).2 none,
      send-tmo a.port l1dsel l2len (some pdu),
      l1recv-Keeps (record q { tmo = 2000 }) none,
    )

-- When both acknowledgements arrive, L2sendcmd() succeeds: it has sent the three bytes of the
-- initialisation and then the frame of the command, and what follows on the line is left there.
pub l2sendcmd_acked :
    (p : Port) (pdu rest : List ℕ) (l2len : ℕ)
    → p.is_open ≡ true
    → pending p.incoming ≡ l1ack0 ∷ l1ack1 ∷ rest
    → l2len + 5 ≤ length pdu
    → l2len + 5 < 2 ^ 16
    → ((l2sendcmd p pdu l2len).0 ≡ ok)
      × ((l2sendcmd p pdu l2len).2.sent
          ≡ (p.sent ++ (l1init ∷ 3 ∷ 0 ∷ []) ∷ []) ++ frame l1dsel (take l2len (drop 3 pdu)) ∷ [])
      × (pending (l2sendcmd p pdu l2len).2.incoming ≡ rest)
unfolding l2sendcmd com_settimeout
l2sendcmd_acked p pdu rest l2len o e room fits =
    let p1 : Port = record p { sent = p.sent ++ (l1init ∷ 3 ∷ 0 ∷ []) ∷ [] } in
    let (q, r, left, on, kept) = l1recv_ack p1 l1ack0 (l1ack1 ∷ rest) none o e ack0-ne-data in
    let (_, sent) = l1send-frame q l1dsel l2len pdu on (omega arith) room fits in
    let q1 : Port = record q {
      sent = q.sent ++ frame l1dsel (take l2len (drop 3 pdu)) ∷ [];
      tmo = 2000;
    } in
    let (q', r', left', on', kept') = l1recv_ack q1 l1ack1 rest none on left ack1-ne-data in
    rw (l1send_short p l1init o (omega arith), r, sent, r') (ground arith)

-- When the first byte that arrives is neither the acknowledgement nor the id of a data response,
-- L2sendcmd() fails, and of the command nothing was sent: only the initialisation.
l2sendcmd_refused :
    (p : Port) (pdu rest : List ℕ) (l2len id : ℕ)
    → p.is_open ≡ true
    → pending p.incoming ≡ id ∷ rest
    → id ≢ l1ack0
    → id ≢ l1data
    → ((l2sendcmd p pdu l2len).0 ≡ err)
      × ((l2sendcmd p pdu l2len).2.sent ≡ p.sent ++ (l1init ∷ 3 ∷ 0 ∷ []) ∷ [])
unfolding l2sendcmd com_settimeout
l2sendcmd_refused p pdu rest l2len id o e ne nd =
    let p1 : Port = record p { sent = p.sent ++ (l1init ∷ 3 ∷ 0 ∷ []) ∷ [] } in
    let (q, r, left, on, kept) = l1recv_ack p1 id rest none o e nd in
    rw (l1send_short p l1init o (omega arith), r, ne→== id l1ack0 ne) (refl, kept.2)

-- When a data frame arrives, and then an acknowledgement of the exit, L2recvrsp() returns the
-- length of the body and leaves the body in the response buffer behind the header; it has sent
-- the request and the exit, three bytes each.
pub l2recvrsp-frame :
    (p : Port) (rsp body rest : List ℕ)
    → p.is_open ≡ true
    → pending p.incoming ≡ frame l1data body ++ (l1ack1 ∷ rest)
    → length body + 5 ≤ length rsp
    → length body + 5 < 2 ^ 16
    → ((l2recvrsp p rsp).0 ≡ pos (length body))
      × (take (length body) (drop 3 (l2recvrsp p rsp).1) ≡ body)
      × ((l2recvrsp p rsp).2.sent
          ≡ (p.sent ++ (l1dreq ∷ 3 ∷ 0 ∷ []) ∷ []) ++ (l1exit ∷ 3 ∷ 0 ∷ []) ∷ [])
      × (pending (l2recvrsp p rsp).2.incoming ≡ rest)
unfolding l2recvrsp
l2recvrsp-frame p rsp body rest o e room fits =
    let p1 : Port = record p { sent = p.sent ++ (l1dreq ∷ 3 ∷ 0 ∷ []) ∷ [] } in
    let (r, id, there, left, kept) = l1recv-frame p1 body (l1ack1 ∷ rest) rsp o e room fits in
    let q : Port = (l1recv p1 (some rsp)).port in
    let q1 : Port = record q { sent = q.sent ++ (l1exit ∷ 3 ∷ 0 ∷ []) ∷ [] } in
    let (q', r', left', on', kept') =
      l1recv_ack q1 l1ack1 rest none (kept.0 ∙ o) left ack1-ne-data in
    rw
      (
        l1send_short p l1dreq o (omega arith),
        l1send_short q l1exit (kept.0 ∙ o) (omega arith),
        r',
        id,
      )
      (r, there, kept'.2 ∙ ap (λ s. s ++ (l1exit ∷ 3 ∷ 0 ∷ []) ∷ []) kept.2, left')
