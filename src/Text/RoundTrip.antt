-- ===== src/Text/RoundTrip.antt =====
-- Newlines of src/vcutil.c: what dupSubstCRLF() makes of the text of dupSubstNL().
use ic35link.Base.{
  ℕ, ◌≡◌, ◌≢◌, refl, ap, ◌∙◌, inl, inr, true, false, List, [], ◌∷◌, ◌==◌, arith, All, Bool-cases,
  ne→==,
}
use ic35link.Text.{subst_nl, dup_subst_nl, dup_subst_crlf, head_of}

-- A text with no carriage return.
abbrev pub NoCr : List ℕ → Type 0
NoCr cs = All (λ c. c ≢ b'\r') cs

head-subst_nl :
    (before : ℕ) (cs : List ℕ) → before ≢ b'\r' → (head_of (subst_nl before cs) == b'\n') ≡ false
unfolding subst_nl
head-subst_nl before [] h = refl
head-subst_nl before (c ∷ cs) h = elim (Bool-cases (c == b'\n')) [
  | inl t ↦ rw (t, ne→== before b'\r' h) refl
  | inr f ↦ rw f f
]

subst_nl-newline :
    (before c : ℕ) (cs : List ℕ)
    → (c == b'\n') ≡ true
    → before ≢ b'\r'
    → subst_nl before (c ∷ cs) ≡ b'\r' ∷ c ∷ subst_nl c cs
unfolding subst_nl
subst_nl-newline before c cs t h = rw (t, ne→== before b'\r' h) refl

subst_nl-other :
    (before c : ℕ) (cs : List ℕ)
    → (c == b'\n') ≡ false
    → subst_nl before (c ∷ cs) ≡ c ∷ subst_nl c cs
unfolding subst_nl
subst_nl-other before c cs f = rw f refl

crlf-kept :
    (c : ℕ) (cs : List ℕ)
    → c ≢ b'\r'
    → (head_of cs == b'\n') ≡ false
    → dup_subst_crlf (c ∷ cs) ≡ c ∷ dup_subst_crlf cs
unfolding dup_subst_crlf
crlf-kept c cs h f = rw (ne→== c b'\r' h, f) refl

crlf-dropped : (cs : List ℕ) → dup_subst_crlf (b'\r' ∷ cs) ≡ dup_subst_crlf cs
unfolding dup_subst_crlf
crlf-dropped cs = refl

lines_again :
    (before : ℕ) (cs : List ℕ) → before ≢ b'\r' → NoCr cs → dup_subst_crlf (subst_nl before cs) ≡ cs
unfolding subst_nl dup_subst_crlf
lines_again before [] h all = refl
lines_again before (c ∷ cs) h (nc, all) =
    let kept =
      crlf-kept c (subst_nl c cs) nc (head-subst_nl c cs nc)
      ∙ ap (◌∷◌ c) (lines_again c cs nc all) in
    elim (Bool-cases (c == b'\n')) [
      | inl t ↦
          ap dup_subst_crlf (subst_nl-newline before c cs t h)
          ∙ crlf-dropped (c ∷ subst_nl c cs)
          ∙ kept
      | inr f ↦ ap dup_subst_crlf (subst_nl-other before c cs f) ∙ kept
    ]

-- A text with no carriage return whose newlines were made CRLF for the IC35 by dupSubstNL() is got
-- back by dupSubstCRLF().
pub dup_subst_crlf-dup_subst_nl : (cs : List ℕ) → NoCr cs → dup_subst_crlf (dup_subst_nl cs) ≡ cs
unfolding dup_subst_nl
dup_subst_crlf-dup_subst_nl cs all = lines_again 0 cs (λ z. absurd (ground arith)) all
