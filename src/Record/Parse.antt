-- ===== src/Record/Parse.antt =====
-- How set_ic35recdata() (ic35frec.c) counts and cuts the fields of raw data.
use ic35link.Base.{
  ℕ, zero, suc, ◌+◌, ◌-◌, ◌≤◌, ◌≡◌, refl, ap, List, [], ◌∷◌, ◌++◌, arith, length, take, ltb,
  if◌then◌else◌, Bool-cases, inl, inr,
}
use ic35link.Record.{count_loop, fields_found}
use ic35link.Record.Ids.{maxflds}

-- The room that fields of these lengths take: each its text and its length byte.
abbrev pub need : List ℕ → ℕ
need [] = 0
need (l ∷ lens) = l + 1 + need lens

-- How many of the next fields fit, up to `left`.
unfoldable pub fit_count : ℕ → ℕ → List ℕ → ℕ
fit_count zero room lens = 0
fit_count (suc left) room [] = 0
fit_count (suc left) room (l ∷ lens) =
    if ltb room (l + 1) then 0 else suc (fit_count left (room - (l + 1)) lens)

sub_add : (a b c : ℕ) → a - (b + c) ≡ a - b - c
sub_add a b c = omega arith

minus_zero : (a : ℕ) → a - 0 ≡ a
minus_zero a = omega arith

sub_self : (a b : ℕ) → a + b - a ≡ b
sub_self a b = omega arith

-- The counting loop takes the fields that fit. A byte that it reads behind the data, when the data
-- ends with the last length byte, never changes the count.
pub count_loop-fit_count :
    (stray dlen left : ℕ) (lens : List ℕ) (flensum nflds : ℕ)
    → flensum ≤ dlen
    → dlen ≤ flensum + length lens
    → count_loop stray dlen left lens flensum nflds ≡ nflds + fit_count left (dlen - flensum) lens
unfolding count_loop fit_count
count_loop-fit_count stray dlen zero lens flensum nflds h k = omega arith
count_loop-fit_count stray dlen (suc left) [] flensum nflds h k = ground arith
count_loop-fit_count stray dlen (suc left) (l ∷ lens) flensum nflds h k = ground (
  arith,
  count_loop-fit_count stray dlen left lens (flensum + (l + 1)) (suc nflds),
  ap (λ (m : ℕ). fit_count left m lens) (sub_add dlen flensum (l + 1)),
)

pub fit_count_bounds :
    (left room : ℕ) (lens : List ℕ)
    → (fit_count left room lens ≤ left)
      × (fit_count left room lens ≤ length lens)
      × (need (take (fit_count left room lens) lens) ≤ room)
unfolding fit_count
fit_count_bounds zero room lens = omega arith
fit_count_bounds (suc left) room [] = omega arith
fit_count_bounds (suc left) room (l ∷ lens) = elim (Bool-cases (ltb room (l + 1))) [
  | inl e ↦ rw e (omega arith)
  | inr e ↦ rw e (ground (arith, fit_count_bounds left (room - (l + 1)) lens))
]

-- Fields that need exactly the room are all counted.
pub fit_count_exact :
    (left : ℕ) (lens more : List ℕ)
    → length lens ≤ left
    → fit_count left (need lens) (lens ++ more) ≡ length lens
unfolding fit_count
fit_count_exact zero [] more h = refl
fit_count_exact zero (l ∷ lens) more h = absurd (omega arith)
fit_count_exact (suc left) [] [] h = refl
fit_count_exact (suc left) [] (m ∷ more) h = ground arith
fit_count_exact (suc left) (l ∷ lens) more h = ground (
  arith,
  fit_count_exact left lens more,
  ap (λ (m : ℕ). fit_count left m (lens ++ more)) (sub_self (l + 1) (need lens)),
)

pub length-le-need : (lens : List ℕ) → length lens ≤ need lens
length-le-need [] = omega arith
length-le-need (l ∷ lens) = omega (arith, length-le-need lens)

-- The number of fields found, whatever byte stands behind the data.
pub fields_found-fit_count :
    (stray : ℕ) (bytes : List ℕ) → fields_found stray bytes ≡ fit_count maxflds (length bytes) bytes
fields_found-fit_count stray bytes = omega (
  arith,
  count_loop-fit_count stray (length bytes) maxflds bytes 0 0 (omega arith) (omega arith),
  ap (λ (m : ℕ). fit_count maxflds m bytes) (minus_zero (length bytes)),
)
