-- ===== src/Com/Repeats.antt =====
-- A byte that is sent again and again until it is answered (comio.c under the protocols).
use ic35link.Base.{
  ℕ, suc, ◌≤◌, ◌≡◌, sym, ap, ◌∙◌, true, List, [], ◌∷◌, ◌++◌, arith, replicate, append_assoc,
  append-nil, Bool-cases, inl, inr,
}
use ic35link.Com.{Port, Event, Keeps, com_send}

-- An open line.
abbrev pub line : ℕ → List (List ℕ) → List Event → Port
line tmo sent incoming = record { is_open = true; tmo = tmo; sent = sent; incoming = incoming }

-- What was sent after it, and the timeout.
abbrev pub Sends : ℕ → ℕ → Port → Port → Type 0
Sends cmd most p q =
    (k : ℕ) × (k ≤ most) × (q.sent ≡ p.sent ++ replicate k (cmd ∷ [])) × (q.tmo ≡ p.tmo)

pub one_more :
    (cmd most : ℕ) (p q : Port)
    → Sends cmd most (com_send p (cmd ∷ [])).1 q
    → Sends cmd (suc most) p q
unfolding com_send
one_more cmd most p q (k, le, s, t) = elim (Bool-cases p.is_open) [
  | inl o ↦ (
    suc k,
    omega arith,
    (rw o at s) ∙ append_assoc p.sent ((cmd ∷ []) ∷ []) (replicate k (cmd ∷ [])),
    rw o at t,
  )
  | inr c ↦ (k, omega arith, rw c at s, rw c at t)
]

pub none_yet : (cmd most : ℕ) (p q : Port) → Keeps p q → Sends cmd most p q
none_yet cmd most p q (o, t, s) = (0, omega arith, s ∙ sym (append-nil p.sent), t)

pub through : (cmd most : ℕ) (p q r : Port) → Keeps p q → Sends cmd most q r → Sends cmd most p r
through cmd most p q r (o, t, s) (k, le, s', t') =
    (k, le, s' ∙ ap (λ x. x ++ replicate k (cmd ∷ [])) s, t' ∙ t)
