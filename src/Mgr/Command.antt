-- ===== src/Mgr/Command.antt =====
-- Mcmdrsp() of src/mgrproto.c: a command byte that is sent until it is answered.
use ic35link.Base.{
  ℕ, zero, suc, ◌+◌, ap, ◌-◌, ◌<◌, ◌≡◌, refl, ◌∙◌, Bool-cases, inl, inr, List, [], ◌∷◌, ◌++◌, arith,
  eq→==, replicate, append-nil, append_assoc,
}
use ic35link.Base.Int.{ok, err}
use ic35link.Com.{Port, Event, quiet, arrive, Keeps, com_send, com_recv, com_recv_loop}
use ic35link.Com.Chunks.{com_recv-Keeps, com_recv_step}
use ic35link.Com.Repeats.{line, Sends, one_more, none_yet, through}
use ic35link.Com.Waiting.{Line, Goes, com_send_open}
use ic35link.Mgr.{cmdrsp_loop, mcmdrsp, got_byte}

loop-Sends : (left : ℕ) (p : Port) (cmd rsp : ℕ) → Sends cmd left p (cmdrsp_loop left p cmd rsp).1
unfolding cmdrsp_loop
loop-Sends zero p cmd rsp = none_yet cmd 0 p p (refl, refl, refl)
loop-Sends (suc left) p cmd rsp =
    let p1 : Port = (com_send p (cmd ∷ [])).1 in
    let q : Port = (com_recv p1 1).port in
    let rest : Port = (cmdrsp_loop left q cmd rsp).1 in
    let kept : Keeps p1 q = com_recv-Keeps p1 1 in
    elim (Bool-cases (got_byte (com_recv p1 1).rlen (com_recv p1 1).bytes rsp)) [
      | inl t ↦ rw t (one_more cmd left p q (none_yet cmd left p1 q kept))
      | inr n ↦
          rw n
            (one_more cmd left p rest (through cmd left p1 q rest kept (loop-Sends left q cmd rsp)))
    ]

-- Whatever arrives, and on a closed line too, Mcmdrsp() sends nothing but the command byte, at most
-- 5 times, and leaves the receive timeout.
pub mcmdrsp-Sends : (p : Port) (cmd rsp : ℕ) → Sends cmd 5 p (mcmdrsp p cmd rsp).1
unfolding mcmdrsp
mcmdrsp-Sends p cmd rsp = loop-Sends 5 p cmd rsp

-- A response that is there is taken at once.
pub mcmdrsp_answered :
    (p : Port) (cmd rsp : ℕ) (rest : List ℕ)
    → Line p (rsp ∷ rest)
    → (q : Port) × (mcmdrsp p cmd rsp ≡ (ok, q)) × Goes p q ((cmd ∷ []) ∷ []) rest
unfolding mcmdrsp cmdrsp_loop
mcmdrsp_answered p cmd rsp rest (o, e) =
    let p1 : Port = record p { sent = p.sent ++ (cmd ∷ []) ∷ [] } in
    let (q, got, left, open_, kept) = com_recv_step p1 1 (rsp ∷ []) rest o e refl (omega arith) in
    (q, rw (com_send_open p (cmd ∷ []) o, got, eq→== rsp rsp refl) refl, ((open_, left), kept.2))

-- A round in which nothing arrives.
quiet_round :
    (left tmo cmd rsp : ℕ) (sent : List (List ℕ)) (es : List Event)
    → cmdrsp_loop (suc left) (line tmo sent (quiet ∷ es)) cmd rsp
      ≡ cmdrsp_loop left (line tmo (sent ++ (cmd ∷ []) ∷ []) es) cmd rsp
unfolding cmdrsp_loop com_send com_recv com_recv_loop
quiet_round left tmo cmd rsp sent es = refl

quiet_rounds :
    (n m left tmo cmd rsp : ℕ) (sent : List (List ℕ)) (es : List Event)
    → m ≡ n + left
    → cmdrsp_loop m (line tmo sent (replicate n quiet ++ es)) cmd rsp
      ≡ cmdrsp_loop left (line tmo (sent ++ replicate n (cmd ∷ [])) es) cmd rsp
quiet_rounds zero m left tmo cmd rsp sent es e =
    let same : m ≡ left = omega arith in rw (same, append-nil sent) refl
quiet_rounds (suc n) zero left tmo cmd rsp sent es e = absurd (omega arith)
quiet_rounds (suc n) (suc m) left tmo cmd rsp sent es e =
    quiet_round m tmo cmd rsp sent (replicate n quiet ++ es)
    ∙ quiet_rounds n m left tmo cmd rsp (sent ++ (cmd ∷ []) ∷ []) es (omega arith)
    ∙ ap (λ s. cmdrsp_loop left (line tmo s es) cmd rsp)
        (append_assoc sent ((cmd ∷ []) ∷ []) (replicate n (cmd ∷ [])))

last_round :
    (left tmo cmd rsp : ℕ) (sent : List (List ℕ)) (es : List Event)
    → cmdrsp_loop (suc left) (line tmo sent (arrive (rsp ∷ []) ∷ es)) cmd rsp
      ≡ (ok, line tmo (sent ++ (cmd ∷ []) ∷ []) es)
unfolding cmdrsp_loop com_send com_recv com_recv_loop
last_round left tmo cmd rsp sent es = rw (eq→== rsp rsp refl) refl

-- When on an open line nothing arrives in the first n rounds, which are fewer than 5, and then the
-- response, Mcmdrsp() succeeds and has sent the command n + 1 times; when nothing arrives in 5
-- rounds, it fails and has sent it 5 times. Nothing else of the line changes.
mcmdrsp_rounds :
    (tmo cmd rsp : ℕ) (sent : List (List ℕ)) (es : List Event)
    → ((n : ℕ)
        → n < 5
        → mcmdrsp (line tmo sent (replicate n quiet ++ arrive (rsp ∷ []) ∷ es)) cmd rsp
          ≡ (ok, line tmo ((sent ++ replicate n (cmd ∷ [])) ++ (cmd ∷ []) ∷ []) es))
      × (mcmdrsp (line tmo sent (replicate 5 quiet ++ es)) cmd rsp
          ≡ (err, line tmo (sent ++ replicate 5 (cmd ∷ [])) es))
unfolding mcmdrsp
mcmdrsp_rounds tmo cmd rsp sent es = (
  λ n h.
      quiet_rounds n 5 (suc (4 - n)) tmo cmd rsp sent (arrive (rsp ∷ []) ∷ es) (omega arith)
      ∙ last_round (4 - n) tmo cmd rsp (sent ++ replicate n (cmd ∷ [])) es,
  quiet_rounds 5 5 0 tmo cmd rsp sent es refl ∙ (unfold cmdrsp_loop in refl),
)
