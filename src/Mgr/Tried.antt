-- ===== src/Mgr/Tried.antt =====
-- What the loop of _xmitblk() in src/mgrproto.c went through when it succeeds, whatever arrives.
use ic35link.Base.{
  ℕ, zero, suc, ◌<◌, ◌≡◌, ◌≢◌, refl, sym, ap, ◌∙◌, inl, inr, ◌⊎◌, List, arith, true,
}
use ic35link.Base.Int.{ℤ, pos, negsuc, ok, err}
use ic35link.Com.{Port, com_settimeout}
use ic35link.Mgr.{
  equals, mcmdrsp, Xmit, xmit_end, xmit_loop, xmitblk, mcmd_posack, mcmd_negack, mrsp_gotack,
}
use ic35link.Mgr.Loop.{loop_end, loop_more, settimeout_self, asked, restored, around}

equals_pos : (z : ℤ) (n : ℕ) → equals z n ≡ true → z ≡ pos n
equals_pos (pos m) n e = ground arith
equals_pos (negsuc m) n e = absurd (ground arith)

pair_eq : (x : ℤ × Port) (a : ℤ) (b : Port) → x.0 ≡ a → x.1 ≡ b → x ≡ (a, b)
pair_eq x a b e e' = rw (← e, ← e') refl

end-inl :
    (dlen left : ℕ) (x y : Xmit)
    → xmit_end dlen left x ≡ inl y
    → y.rval ≡ pos dlen
    → (x.rval ≡ pos dlen)
      × (y.buff ≡ x.buff)
      × (mcmdrsp x.port mcmd_posack mrsp_gotack ≡ (ok, y.port))
unfolding xmit_end
end-inl dlen left x y e v =
    let acked : ℤ × Port = mcmdrsp x.port mcmd_posack mrsp_gotack in
    let was : equals acked.0 0 ≡ true = ground arith in
    (ground arith, ground arith, pair_eq acked ok y.port (equals_pos acked.0 0 was) (ground arith))

end-inr :
    (dlen left : ℕ) (x : Xmit) (q : Port)
    → xmit_end dlen left x ≡ inr q
    → (x.rval ≢ pos dlen) × (mcmdrsp x.port mcmd_negack mrsp_gotack ≡ (ok, q))
unfolding xmit_end
end-inr dlen left x q e =
    let naked : ℤ × Port = mcmdrsp x.port mcmd_negack mrsp_gotack in
    let was : equals naked.0 0 ≡ true = ground arith in
    (λ v. ground arith, pair_eq naked ok q (equals_pos naked.0 0 was) (ground arith))

end-cases :
    (dlen left : ℕ) (x : Xmit)
    → ((y : Xmit) × (xmit_end dlen left x ≡ inl y)) ⊎ ((q : Port) × (xmit_end dlen left x ≡ inr q))
end-cases dlen left x = cases_of (xmit_end dlen left x)
  where
    cases_of : (o : Xmit ⊎ Port) → ((y : Xmit) × (o ≡ inl y)) ⊎ ((q : Port) × (o ≡ inr q))
    cases_of (inl y) = inl (y, refl)
    cases_of (inr q) = inr (q, refl)

-- A number of transmissions that did not give the wanted length, each answered negatively, which the
-- device acknowledged: from a line and a buffer to these at the next transmission.
pub data Tried (pfxmit : Port → List ℕ → Xmit) (dlen : ℕ)
    : ℕ → Port → List ℕ → Port → List ℕ → Type 0 where
  start : (p : Port) (b : List ℕ) → Tried pfxmit dlen zero p b p b
  again :
      (n : ℕ) (p q p' : Port) (b b' : List ℕ)
      → (pfxmit p b).rval ≢ pos dlen
      → mcmdrsp (pfxmit p b).port mcmd_negack mrsp_gotack ≡ (ok, q)
      → Tried pfxmit dlen n q (pfxmit p b).buff p' b'
      → Tried pfxmit dlen (suc n) p b p' b'

-- Where a loop that succeeds got its result from: fewer transmissions than `left` failed before,
-- and the last was acknowledged.
abbrev pub From : (Port → List ℕ → Xmit) → ℕ → ℕ → Port → List ℕ → Xmit → Type 0
From pfxmit dlen left p buff y =
    (n : ℕ) × (q : Port) × (b : List ℕ) × (n < left)
    × Tried pfxmit dlen n p buff q b
    × ((pfxmit q b).rval ≡ pos dlen)
    × (y.buff ≡ (pfxmit q b).buff)
    × (mcmdrsp (pfxmit q b).port mcmd_posack mrsp_gotack ≡ (ok, y.port))

loop-From :
    (pfxmit : Port → List ℕ → Xmit) (dlen left : ℕ) (rval : ℤ) (p : Port) (buff : List ℕ)
    → rval ≢ pos dlen
    → (xmit_loop pfxmit dlen left rval p buff).rval ≡ pos dlen
    → From pfxmit dlen left p buff (xmit_loop pfxmit dlen left rval p buff)
loop-From pfxmit dlen zero rval p buff ne e = absurd (ne (unfold xmit_loop in e))
loop-From pfxmit dlen (suc left) rval p buff ne e = elim (end-cases dlen left (pfxmit p buff)) [
  | inl (y, ends) ↦
      let run = loop_end pfxmit dlen left rval p buff (pfxmit p buff) y refl ends in
      let (v, b, acked) =
        end-inl dlen left (pfxmit p buff) y ends (ap (λ x. x.rval) (sym run) ∙ e) in
      (
        0,
        p,
        buff,
        omega arith,
        Tried.start p buff,
        v,
        ap (λ x. x.buff) run ∙ b,
        acked ∙ ap (λ x. (ok, x.port)) (sym run),
      )
  | inr (q, more) ↦
      let run = loop_more pfxmit dlen left rval p q buff (pfxmit p buff) refl more in
      let (failed, naked) = end-inr dlen left (pfxmit p buff) q more in
      let (n, r, b, few, tried, v, same, acked) =
        loop-From pfxmit dlen left (pfxmit p buff).rval q (pfxmit p buff).buff failed
          (ap (λ x. x.rval) (sym run) ∙ e) in
      (
        suc n,
        r,
        b,
        omega arith,
        Tried.again n p q r buff b failed naked tried,
        v,
        ap (λ x. x.buff) run ∙ same,
        acked ∙ ap (λ x. (ok, x.port)) (sym run),
      )
]

-- The same of _xmitblk(), which finds and restores the timeout.
pub xmitblk-From :
    (pfxmit : Port → List ℕ → Xmit) (dlen : ℕ) (p : Port) (buff : List ℕ)
    → (xmitblk pfxmit dlen p buff).rval ≡ pos dlen
    → (y : Xmit) × From pfxmit dlen 6 p buff y
      × (xmitblk pfxmit dlen p buff ≡ record y { port = (com_settimeout y.port p.tmo).1 })
unfolding xmitblk
xmitblk-From pfxmit dlen p buff e =
    let y : Xmit = xmit_loop pfxmit dlen 6 err p buff in
    let at : xmitblk pfxmit dlen p buff ≡ restored p.tmo y =
      ap (λ (o : ℕ × Port). around pfxmit dlen buff o.0 (com_settimeout p o.0).1) (asked p)
      ∙ ap (λ (o : ℕ × Port). around pfxmit dlen buff p.tmo o.1) (settimeout_self p) in
    (y, loop-From pfxmit dlen 6 err p buff (λ x. cc x) (ap (λ x. x.rval) (sym at) ∙ e), at)
