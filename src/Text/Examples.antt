-- ===== src/Text/Examples.antt =====
-- Texts of vcutil.c at concrete inputs.
use ic35link.Base.{◌≡◌, refl, List, [], ◌∷◌, ℕ, arith}
use ic35link.Text.{dup_subst_nl, dup_subst_crlf}
use ic35link.Text.RoundTrip.{dup_subst_crlf-dup_subst_nl}

abbrev two_lines : List ℕ
two_lines = b'a' ∷ b'\n' ∷ b'\n' ∷ b'b' ∷ []

-- A newline with no carriage return before it takes the character before it away.
lost : dup_subst_crlf (b'a' ∷ b'b' ∷ b'\n' ∷ []) ≡ b'a' ∷ b'\n' ∷ []
unfolding dup_subst_crlf
lost = refl

dup_subst_crlf-dup_subst_nl_example : dup_subst_crlf (dup_subst_nl two_lines) ≡ two_lines
dup_subst_crlf-dup_subst_nl_example = dup_subst_crlf-dup_subst_nl two_lines (
  (λ z. omega (arith, z)),
  ((λ z. omega (arith, z)), ((λ z. omega (arith, z)), ((λ z. omega (arith, z)), tt))),
)
