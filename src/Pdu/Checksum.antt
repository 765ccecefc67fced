-- ===== src/Pdu/Checksum.antt =====
-- What the block checksum of genproto.c computes, and which faults it shows.
use ic35link.Base.{
  ℕ, zero, suc, ◌+◌, ◌^◌, ◌<◌, ◌≡◌, ◌≢◌, refl, ◌∙◌, ap, List, [], ◌∷◌, ◌++◌, arith, length, take,
  u16, IsByte, length-append,
}
use ic35link.Pdu.{chksum_loop, chksum}

-- The exact sum, with no wrap.
abbrev pub sum : List ℕ → ℕ
sum [] = 0
sum (b ∷ bs) = b + sum bs

pub sum-append : (xs ys : List ℕ) → sum (xs ++ ys) ≡ sum xs + sum ys
sum-append [] ys = omega arith
sum-append (x ∷ xs) ys = omega (arith, sum-append xs ys)

chksum_loop-sum :
    (bytes : List ℕ) (left acc : ℕ)
    → acc < 2 ^ 16
    → chksum_loop bytes left acc ≡ u16 (acc + sum (take left bytes))
unfolding chksum_loop
chksum_loop-sum bytes zero acc h = omega arith
chksum_loop-sum [] (suc left) acc h = omega arith
chksum_loop-sum (b ∷ bytes) (suc left) acc h =
    omega (arith, chksum_loop-sum bytes left (u16 (acc + b)) (omega arith))

-- The wrapping loop computes the sum of the first `dlen` bytes modulo 2^16.
pub chksum-sum : (bytes : List ℕ) (dlen : ℕ) → chksum bytes dlen ≡ u16 (sum (take dlen bytes))
unfolding chksum
chksum-sum bytes dlen = omega (arith, chksum_loop-sum bytes dlen 0 (omega arith))

take-all : (xs : List ℕ) (n : ℕ) → n ≡ length xs → take n xs ≡ xs
take-all [] zero e = refl
take-all [] (suc n) e = absurd (omega arith)
take-all (x ∷ xs) zero e = absurd (omega arith)
take-all (x ∷ xs) (suc n) e = ap (◌∷◌ x) (take-all xs n (omega arith))

chksum_whole : (bytes : List ℕ) (n : ℕ) → n ≡ length bytes → chksum bytes n ≡ u16 (sum bytes)
chksum_whole bytes n e = chksum-sum bytes n ∙ ap (λ b. u16 (sum b)) (take-all bytes n e)

-- A block in which one byte was changed to another byte has another checksum.
chksum_detects :
    (pre post : List ℕ) (a b n : ℕ)
    → IsByte a
    → IsByte b
    → a ≢ b
    → n ≡ length (pre ++ (a ∷ post))
    → chksum (pre ++ (a ∷ post)) n ≢ chksum (pre ++ (b ∷ post)) n
chksum_detects pre post a b n ha hb ne e = λ same. absurd (
    omega (
      arith,
      chksum_whole (pre ++ (a ∷ post)) n e,
      chksum_whole (pre ++ (b ∷ post)) n
          (omega (arith, length-append pre (a ∷ post), length-append pre (b ∷ post))),
      sum-append pre (a ∷ post),
      sum-append pre (b ∷ post),
    ))
