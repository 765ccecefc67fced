-- ===== src/Base/CString.antt =====
-- C strings and blocks of bytes inside a buffer: what strlen() and memcpy() do.
use ic35link.Base.{
  if◌then◌else◌, ℕ, zero, suc, ◌+◌, ◌<◌, ◌≤◌, sym, take, drop, take-length, drop-length,
  length-take, length-drop, take-append-drop, ◌≡◌, refl, ap, ◌∙◌, List, [], ◌∷◌, ◌++◌, arith, ◌==◌,
  length, length-append, set, length-set, Bool-cases, inl, inr,
}

-- The bytes of a string before its terminating NUL.
unfoldable pub c_str : List ℕ → List ℕ
c_str [] = []
c_str (b ∷ bs) = if b == 0 then [] else b ∷ c_str bs

abbrev pub strlen : List ℕ → ℕ
strlen s = length (c_str s)

-- memcpy( buf + at, bytes, .. ). What would fall behind the buffer changes nothing here, so this is
-- for writes that the source has made room for; a copy of a length that comes from a device is
-- `overwrite`, which shows an overflow.
abbrev pub write_at : List ℕ → ℕ → List ℕ → List ℕ
write_at buf at [] = buf
write_at buf at (b ∷ bs) = write_at (set buf at b) (suc at) bs

-- memcpy( buf, bytes, .. ) of a length that is not known to fit: a copy that is longer than the
-- buffer leaves a longer list, so that a buffer of its old length has not been overrun.
abbrev pub overwrite : List ℕ → List ℕ → List ℕ
overwrite buf bs = bs ++ drop (length bs) buf

pub length-overwrite :
    (buf bs : List ℕ) → length bs ≤ length buf → length (overwrite buf bs) ≡ length buf
length-overwrite buf bs h =
    omega (arith, length-append bs (drop (length bs) buf), length-drop (length bs) buf)

pub length-write_at :
    (buf : List ℕ) (at : ℕ) (bs : List ℕ) → length (write_at buf at bs) ≡ length buf
length-write_at buf at [] = refl
length-write_at buf at (b ∷ bs) = length-write_at (set buf at b) (suc at) bs ∙ length-set buf at b

pub set-append :
    (pre post : List ℕ) (x v at : ℕ)
    → at ≡ length pre
    → set (pre ++ x ∷ post) at v ≡ pre ++ v ∷ post
set-append [] post x v zero e = refl
set-append [] post x v (suc at) e = absurd (omega arith)
set-append (p ∷ pre) post x v zero e = absurd (omega arith)
set-append (p ∷ pre) post x v (suc at) e = ap (◌∷◌ p) (set-append pre post x v at (omega arith))

pub append-cons : (xs ys : List ℕ) (x : ℕ) → (xs ++ x ∷ []) ++ ys ≡ xs ++ x ∷ ys
append-cons [] ys x = refl
append-cons (z ∷ xs) ys x = ap (◌∷◌ z) (append-cons xs ys x)

-- A block written over one of its length replaces that block and nothing else.
pub write_at-append :
    (pre old post bs : List ℕ) (at : ℕ)
    → at ≡ length pre
    → length old ≡ length bs
    → write_at (pre ++ (old ++ post)) at bs ≡ pre ++ (bs ++ post)
write_at-append pre [] post [] at e h = refl
write_at-append pre [] post (b ∷ bs) at e h = absurd (omega arith)
write_at-append pre (o ∷ old) post [] at e h = absurd (omega arith)
write_at-append pre (o ∷ old) post (b ∷ bs) at e h =
    rw
      (
        set-append pre (old ++ post) o b at e,
        ← append-cons pre (old ++ post) b,
        ← append-cons pre (bs ++ post) b,
      )
      (write_at-append (pre ++ b ∷ []) old post bs (suc at)
        (omega (arith, length-append pre (b ∷ []))) (omega arith))

-- A buffer cut at a place that it has.
cut : (n : ℕ) (xs : List ℕ) → xs ≡ take n xs ++ drop n xs
cut n xs = sym (take-append-drop n xs)

-- What a block write inside the buffer leaves: the block, between the bytes that were around it.
pub write_at_lem :
    (buf bs : List ℕ) (at : ℕ)
    → at + length bs ≤ length buf
    → write_at buf at bs ≡ take at buf ++ (bs ++ drop (length bs) (drop at buf))
write_at_lem buf bs at h =
    let old : List ℕ = take (length bs) (drop at buf) in
    let post : List ℕ = drop (length bs) (drop at buf) in
    ap (λ b. write_at b at bs)
      (cut at buf ∙ ap (λ t. take at buf ++ t) (cut (length bs) (drop at buf)))
    ∙ write_at-append (take at buf) old post bs at (omega (arith, length-take at buf))
        (omega (arith, length-take (length bs) (drop at buf), length-drop at buf))

-- A copy that fits is a write.
pub overwrite_lem :
    (buf bs : List ℕ) → length bs ≤ length buf → overwrite buf bs ≡ write_at buf 0 bs
overwrite_lem buf bs h = sym (write_at_lem buf bs 0 (omega arith))

-- A block is read back from where it was written.
pub take-drop-write_at :
    (buf bs : List ℕ) (at : ℕ)
    → at + length bs ≤ length buf
    → take (length bs) (drop at (write_at buf at bs)) ≡ bs
take-drop-write_at buf bs at h =
    let post : List ℕ = drop (length bs) (drop at buf) in
    ap (λ b. take (length bs) (drop at b)) (write_at_lem buf bs at h)
    ∙ ap (take (length bs))
        (drop-length (take at buf) (bs ++ post) at (omega (arith, length-take at buf)))
    ∙ take-length bs post (length bs) refl

c_str-nul : (s post : List ℕ) → c_str (c_str s ++ 0 ∷ post) ≡ c_str s
unfolding c_str
c_str-nul [] post = refl
c_str-nul (b ∷ s) post = ground (arith, c_str-nul s post)

drop-cons :
    (n : ℕ) (xs : List ℕ) → n < length xs → (x : ℕ) × (post : List ℕ) × (drop n xs ≡ x ∷ post)
drop-cons n [] h = absurd (omega arith)
drop-cons zero (x ∷ xs) h = (x, xs, refl)
drop-cons (suc n) (x ∷ xs) h = drop-cons n xs (omega arith)

-- A string with a NUL stored behind it is read back as a string.
pub c_str-write_at :
    (dst s : List ℕ)
    → strlen s < length dst
    → c_str (set (write_at dst 0 (c_str s)) (strlen s) 0) ≡ c_str s
c_str-write_at dst s h =
    let (x, post, e) = drop-cons (strlen s) dst h in
    ap (λ b. c_str (set b (strlen s) 0))
      (write_at_lem dst (c_str s) 0 (omega arith) ∙ ap (λ t. c_str s ++ t) e)
    ∙ ap c_str (set-append (c_str s) post x 0 (strlen s) refl)
    ∙ c_str-nul s post

pub take-strlen : (s : List ℕ) → take (strlen s) s ≡ c_str s
unfolding c_str
take-strlen [] = refl
take-strlen (b ∷ s) = elim (Bool-cases (b == 0)) [
  | inl e ↦ rw e
  | inr e ↦ rw e (ap (◌∷◌ b) (take-strlen s))
]
