-- ===== src/Welcome/Retries.antt =====
-- How welcome() (genproto.c) ends, and what it sends.
use ic35link.Base.{
  ℕ, zero, suc, ◌+◌, ◌-◌, ◌≤◌, ◌<◌, ◌≡◌, refl, sym, ap, ◌∙◌, ◌||◌, Bool-cases, inl, inr, true, List,
  [], ◌∷◌, ◌++◌, ◌==◌, arith, length, replicate, append_assoc, append-nil, lt→ltb, not,
}
use ic35link.Base.Int.{ok, err}
use ic35link.Com.{
  Port, Event, quiet, arrive, Keeps, com_send, com_recv, com_recv_loop, com_settimeout,
}
use ic35link.Com.Chunks.{com_recv-Keeps}
use ic35link.Com.Repeats.{line, Sends, one_more, none_yet, through}
use ic35link.Welcome.{
  WelcomeState, got_none, got_welcome, got_ready, Handshake, switch_state, welcome_loop, welcome,
  welcome_text, rsp_ready, is_ready,
}

abbrev hand : WelcomeState → List ℕ → Port → Handshake
hand state rbuff p = record { state = state; rbuff = rbuff; port = p }

-- A round in which nothing arrives leaves the state.
quiet_round :
    (cmd left retry tmo : ℕ) (sent : List (List ℕ)) (es : List Event) (rbuff : List ℕ)
    → welcome_loop cmd (λ _. 0) (suc left) retry (hand got_none rbuff (line tmo sent (quiet ∷ es)))
      ≡ welcome_loop cmd
          (λ _. 0)
          left
          (suc retry)
          (hand got_none rbuff (line tmo (sent ++ (cmd ∷ []) ∷ []) es))
unfolding welcome_loop switch_state com_send com_recv com_recv_loop
quiet_round cmd left retry tmo sent es rbuff = refl

-- The last two rounds of a handshake that succeeds.
ready_rounds :
    (cmd left retry tmo : ℕ) (sent : List (List ℕ)) (es : List Event) (rbuff : List ℕ)
    → length rbuff ≡ 7
    → (h : Handshake) × (welcome_loop cmd
          (λ _. 0)
          (suc (suc left))
          retry
          (hand got_none rbuff (line tmo sent (arrive welcome_text ∷ arrive (rsp_ready ∷ []) ∷ es)))
        ≡ h)
      × (is_ready h.state ≡ true)
      × (h.port ≡ line tmo ((sent ++ (cmd ∷ []) ∷ []) ++ (cmd ∷ []) ∷ []) es)
unfolding welcome_loop switch_state com_send com_recv com_recv_loop
ready_rounds cmd left retry tmo sent es (a ∷ b ∷ c ∷ d ∷ e ∷ f ∷ g ∷ []) n =
    let ready : List ℕ = rsp_ready ∷ b'E' ∷ b'L' ∷ b'C' ∷ b'O' ∷ b'M' ∷ b'E' ∷ [] in
    (
      hand got_ready ready (line tmo ((sent ++ (cmd ∷ []) ∷ []) ++ (cmd ∷ []) ∷ []) es),
      refl,
      refl,
      refl,
    )
ready_rounds cmd left retry tmo sent es rbuff n = absurd (omega arith)

quiet_rounds :
    (n m k cmd left retry tmo : ℕ) (sent : List (List ℕ)) (es : List Event) (rbuff : List ℕ)
    → m ≡ n + left
    → k ≡ n + retry
    → welcome_loop cmd
        (λ _. 0)
        m
        retry
        (hand got_none rbuff (line tmo sent (replicate n quiet ++ es)))
      ≡ welcome_loop cmd
          (λ _. 0)
          left
          k
          (hand got_none rbuff (line tmo (sent ++ replicate n (cmd ∷ [])) es))
quiet_rounds zero m k cmd left retry tmo sent es rbuff e e' =
    let m_left : m ≡ left = omega arith in
    let k_retry : k ≡ retry = omega arith in
    rw (m_left, k_retry)
      (ap (λ s. welcome_loop cmd (λ _. 0) left retry (hand got_none rbuff (line tmo s es)))
        (sym (append-nil sent)))
quiet_rounds (suc n) zero k cmd left retry tmo sent es rbuff e e' = absurd (omega arith)
quiet_rounds (suc n) (suc m) k cmd left retry tmo sent es rbuff e e' =
    quiet_round cmd m retry tmo sent (replicate n quiet ++ es) rbuff
    ∙ quiet_rounds n m k cmd left (suc retry) tmo (sent ++ (cmd ∷ []) ∷ []) es rbuff (omega arith)
        (omega arith)
    ∙ ap (λ s. welcome_loop cmd (λ _. 0) left k (hand got_none rbuff (line tmo s es)))
        (append_assoc sent ((cmd ∷ []) ∷ []) (replicate n (cmd ∷ [])))

switch-Keeps :
    (state : WelcomeState) (rbuff : List ℕ) (p : Port)
    → Keeps p (switch_state (hand state rbuff p)).port
unfolding switch_state
switch-Keeps got_none rbuff p = grind (arith, com_recv-Keeps p 7)
switch-Keeps got_welcome rbuff p = grind (arith, com_recv-Keeps p 1)
switch-Keeps got_ready rbuff p = (refl, refl, refl)

-- What any handshake sends: the command again and again.
loop-Sends :
    (cmd : ℕ) (hadsignal : ℕ → ℕ) (left retry : ℕ) (h : Handshake)
    → Sends cmd left h.port (welcome_loop cmd hadsignal left retry h).port
unfolding welcome_loop
loop-Sends cmd hadsignal zero retry h = none_yet cmd 0 h.port h.port (refl, refl, refl)
loop-Sends cmd hadsignal (suc left) retry h =
    let p : Port = (com_send h.port (cmd ∷ [])).1 in
    let next : Handshake = switch_state (record h { port = p }) in
    let kept : Keeps p next.port = switch-Keeps h.state h.rbuff p in
    elim (Bool-cases (is_ready h.state || not (hadsignal retry == 0))) [
      | inl t ↦ rw t (none_yet cmd (suc left) h.port h.port (refl, refl, refl))
      | inr n ↦ elim (Bool-cases (is_ready next.state)) [
        | inl u ↦
            rw (n, u) (one_more cmd left h.port next.port (none_yet cmd left p next.port kept))
        | inr v ↦
            rw (n, v)
              (one_more cmd left h.port (welcome_loop cmd hadsignal left (suc retry) next).port (
                through cmd left p next.port (welcome_loop cmd hadsignal left (suc retry) next).port
                  kept (loop-Sends cmd hadsignal left (suc retry) next)))
      ]
    ]

-- When the receive timeout is not 0, whatever arrives, with a signal or without, welcome() sends
-- nothing but the command byte, at most 20 times, and leaves the receive timeout that it found.
welcome-Sends :
    (cmd : ℕ) (hadsignal : ℕ → ℕ) (signal : ℕ) (rbuff : List ℕ) (p : Port)
    → 0 < p.tmo
    → Sends cmd 20 p (welcome cmd hadsignal signal rbuff p).1
unfolding welcome com_settimeout
welcome-Sends cmd hadsignal signal rbuff p h =
    let p1 : Port = record p { tmo = 1150 } in
    let (k, le, s, t) = loop-Sends cmd hadsignal 20 0 (hand got_none rbuff p1) in
    (k, le, ground (arith, s), ground arith)

-- When there is no signal, the receive timeout is not 0, and on an open line nothing arrives in the
-- first n rounds, then WELCOME and in the round after it the ready byte, and that is within the 20
-- rounds, welcome() with its buffer of 7 bytes succeeds; it has sent the command n + 2 times, and
-- leaves the receive timeout and what follows on the line.
pub welcome_connects :
    (n cmd tmo : ℕ) (sent : List (List ℕ)) (es : List Event) (rbuff : List ℕ)
    → n + 2 ≤ 20
    → 0 < tmo
    → length rbuff ≡ 7
    → welcome cmd
        (λ _. 0)
        0
        rbuff
        (line tmo sent (replicate n quiet ++ arrive welcome_text ∷ arrive (rsp_ready ∷ []) ∷ es))
      ≡ (ok, line tmo (((sent ++ replicate n (cmd ∷ [])) ++ (cmd ∷ []) ∷ []) ++ (cmd ∷ []) ∷ []) es)
unfolding welcome com_settimeout
welcome_connects n cmd tmo sent es rbuff h t e =
    let rest : List Event = arrive welcome_text ∷ arrive (rsp_ready ∷ []) ∷ es in
    let on : List (List ℕ) = sent ++ replicate n (cmd ∷ []) in
    let (q, run, ready, there) = ready_rounds cmd (18 - n) n 1150 on es rbuff e in
    let all : welcome_loop cmd (λ _. 0) 20 0
          (hand got_none rbuff (line 1150 sent (replicate n quiet ++ rest)))
        ≡ q =
      quiet_rounds n 20 n cmd (suc (suc (18 - n))) 0 1150 sent rest rbuff (omega arith)
        (omega arith)
      ∙ run in
    rw (lt→ltb 0 tmo t, all, ready, there) refl

-- When there is no signal, the receive timeout is not 0, and on an open line nothing arrives for 20
-- rounds, welcome() fails; it has sent the command 20 times.
pub welcome_silent :
    (cmd tmo : ℕ) (sent : List (List ℕ)) (es : List Event) (rbuff : List ℕ)
    → 0 < tmo
    → welcome cmd (λ _. 0) 0 rbuff (line tmo sent (replicate 20 quiet ++ es))
      ≡ (err, line tmo (sent ++ replicate 20 (cmd ∷ [])) es)
unfolding welcome com_settimeout
welcome_silent cmd tmo sent es rbuff t =
    let all : welcome_loop cmd (λ _. 0) 20 0
          (hand got_none rbuff (line 1150 sent (replicate 20 quiet ++ es)))
        ≡ hand got_none rbuff (line 1150 (sent ++ replicate 20 (cmd ∷ [])) es) =
      quiet_rounds 20 20 20 cmd 0 0 1150 sent es rbuff refl refl ∙ (unfold welcome_loop in refl) in
    rw (lt→ltb 0 tmo t, all) refl
