-- ===== src/Mgr/Loop.antt =====
-- The loop of _xmitblk() in src/mgrproto.c over any way to transmit.
use ic35link.Base.{
  ℕ, suc, ◌<◌, ◌≡◌, refl, ap, ◌∙◌, inl, inr, List, [], ◌∷◌, eq→==, ltb, lt→ltb, Bool-cases,
}
use ic35link.Base.Int.{ℤ, pos, err}
use ic35link.Com.{Port, com_settimeout}
use ic35link.Com.Waiting.{Line, Goes}
use ic35link.Mgr.{
  Xmit, xmit_end, xmit_loop, xmitblk, mcmd_posack, mcmd_negack, mrsp_gotack, err_chksum,
}
use ic35link.Mgr.Command.{mcmdrsp_answered}

-- A transmission after which the loop ends, and one that is repeated.
pub loop_end :
    (pfxmit : Port → List ℕ → Xmit) (dlen left : ℕ) (rval : ℤ) (p : Port) (buff : List ℕ)
    (x y : Xmit)
    → pfxmit p buff ≡ x
    → xmit_end dlen left x ≡ inl y
    → xmit_loop pfxmit dlen (suc left) rval p buff ≡ y
unfolding xmit_loop
loop_end pfxmit dlen left rval p buff x y e e' =
    ap
      (λ v. elim (xmit_end dlen left v) [
        | inl end ↦ end
        | inr q ↦ xmit_loop pfxmit dlen left v.rval q v.buff
      ])
      e
    ∙ ap (λ v. elim v [ inl end ↦ end | inr q ↦ xmit_loop pfxmit dlen left x.rval q x.buff ]) e'

pub loop_more :
    (pfxmit : Port → List ℕ → Xmit) (dlen left : ℕ) (rval : ℤ) (p q : Port) (buff : List ℕ)
    (x : Xmit)
    → pfxmit p buff ≡ x
    → xmit_end dlen left x ≡ inr q
    → xmit_loop pfxmit dlen (suc left) rval p buff ≡ xmit_loop pfxmit dlen left x.rval q x.buff
unfolding xmit_loop
loop_more pfxmit dlen left rval p q buff x e e' =
    ap
      (λ v. elim (xmit_end dlen left v) [
        | inl end ↦ end
        | inr q ↦ xmit_loop pfxmit dlen left v.rval q v.buff
      ])
      e
    ∙ ap (λ v. elim v [ inl end ↦ end | inr q ↦ xmit_loop pfxmit dlen left x.rval q x.buff ]) e'

pub posack_answered :
    (blen left : ℕ) (p : Port) (buff rest : List ℕ)
    → Line p (mrsp_gotack ∷ rest)
    → (q : Port) × (xmit_end blen left (record { rval = pos blen; buff = buff; port = p })
        ≡ inl (record { rval = pos blen; buff = buff; port = q }))
      × Goes p q ((mcmd_posack ∷ []) ∷ []) rest
unfolding xmit_end
posack_answered blen left p buff rest on =
    let (q, run, goes) = mcmdrsp_answered p mcmd_posack mrsp_gotack rest on in
    (q, rw (eq→== blen blen refl, run) refl, goes)

pub negack_answered :
    (blen left : ℕ) (p : Port) (buff rest : List ℕ)
    → 0 < left
    → Line p (mrsp_gotack ∷ rest)
    → (q : Port) × (xmit_end blen left (record { rval = err_chksum; buff = buff; port = p })
        ≡ inr q)
      × Goes p q ((mcmd_negack ∷ []) ∷ []) rest
unfolding xmit_end
negack_answered blen left p buff rest h on =
    let (q, run, goes) = mcmdrsp_answered p mcmd_negack mrsp_gotack rest on in
    (q, rw (lt→ltb 0 left h, run) refl, goes)

pub settimeout_self : (p : Port) → com_settimeout p p.tmo ≡ (p.tmo, p)
unfolding com_settimeout
settimeout_self p = elim (Bool-cases (ltb 0 p.tmo)) [ inl t ↦ rw t refl | inr f ↦ rw f refl ]

settimeout_back :
    (p : Port) (tmo : ℕ) → 0 < tmo → com_settimeout p tmo ≡ (p.tmo, record p { tmo = tmo })
unfolding com_settimeout
settimeout_back p tmo h = rw (lt→ltb 0 tmo h) refl

pub asked : (p : Port) → com_settimeout p 0 ≡ (p.tmo, p)
unfolding com_settimeout
asked p = refl

abbrev pub restored : ℕ → Xmit → Xmit
restored old x = record x { port = (com_settimeout x.port old).1 }

abbrev with_port : Xmit → Port → Xmit
with_port x p = record x { port = p }

abbrev pub around : (Port → List ℕ → Xmit) → ℕ → List ℕ → ℕ → Port → Xmit
around pfxmit dlen buff old p = restored old (xmit_loop pfxmit dlen 6 err p buff)

-- Around the loop: the timeout that was found is there again.
pub xmitblk-loop :
    (pfxmit : Port → List ℕ → Xmit) (dlen : ℕ) (p : Port) (buff : List ℕ) (x : Xmit)
    → 0 < p.tmo
    → xmit_loop pfxmit dlen 6 err p buff ≡ x
    → xmitblk pfxmit dlen p buff ≡ record x { port = record x.port { tmo = p.tmo } }
unfolding xmitblk
xmitblk-loop pfxmit dlen p buff x h run =
    ap (λ (o : ℕ × Port). around pfxmit dlen buff o.0 (com_settimeout p o.0).1) (asked p)
    ∙ ap (λ (o : ℕ × Port). around pfxmit dlen buff p.tmo o.1) (settimeout_self p)
    ∙ ap (restored p.tmo) run
    ∙ ap (λ (o : ℕ × Port). with_port x o.1) (settimeout_back x.port p.tmo h)
