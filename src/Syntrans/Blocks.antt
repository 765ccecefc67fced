-- ===== src/Syntrans/Blocks.antt =====
-- The blocks in which _write_frec() (syntrans.c) sends a record.
use ic35link.Base.{
  ℕ, zero, suc, ◌≤◌, ◌<◌, ◌≡◌, refl, ap, ◌∙◌, Bool, true, false, List, [], ◌∷◌, ◌++◌, arith, length,
  take, drop, ltb, length-take, length-drop, take-append-drop, Bool-cases, inl, inr, append-nil,
  le→ltb, lt→ltb, le→leb, lt→leb,
}
use ic35link.Syntrans.Frec.{blocks}

-- The bytes of the blocks, one after the other.
abbrev pub joined : List (Bool × List ℕ) → List ℕ
joined [] = []
joined ((last, w) ∷ bs) = w ++ joined bs

-- The last block is marked and has at most 80 bytes, the others are not and have 80.
abbrev pub IsBlocks : List (Bool × List ℕ) → Type 0
IsBlocks [] = ⊥
IsBlocks ((last, w) ∷ []) = (last ≡ true) × (length w ≤ 80)
IsBlocks ((last, w) ∷ b ∷ bs) = (last ≡ false) × (length w ≡ 80) × IsBlocks (b ∷ bs)

take_whole : (xs : List ℕ) → take (length xs) xs ≡ xs
take_whole [] = refl
take_whole (x ∷ xs) = ap (◌∷◌ x) (take_whole xs)

joined_cons :
    (w : List ℕ) (bs : List (Bool × List ℕ)) (f : List ℕ)
    → length w ≡ 80
    → IsBlocks bs
    → joined bs ≡ f
    → IsBlocks ((false, w) ∷ bs) × (joined ((false, w) ∷ bs) ≡ w ++ f)
joined_cons w [] f h b e = absurd b
joined_cons w (b ∷ bs) f h ok e = ((refl, h, ok), ap (λ t. w ++ t) e)

-- A round for data of at most 80 bytes, and for more.
blocks_last : (n : ℕ) (wptr : List ℕ) → length wptr ≤ 80 → blocks (suc n) wptr ≡ (true, wptr) ∷ []
unfolding blocks
blocks_last n wptr h =
    rw
      (le→ltb 80 (length wptr) h, le→leb (length wptr) (length wptr) (omega arith), take_whole wptr)
      refl

blocks_more :
    (n : ℕ) (wptr : List ℕ)
    → 80 < length wptr
    → blocks (suc n) wptr ≡ (false, take 80 wptr) ∷ blocks n (drop 80 wptr)
unfolding blocks
blocks_more n wptr h = rw (lt→ltb 80 (length wptr) h, lt→leb (length wptr) 80 h) refl

-- When there are more rounds than bytes, the blocks that _write_frec() sends are the bytes of the
-- record, cut into blocks of 80 of which the last may be shorter and alone is marked as the last;
-- there is at least one, for a record with no data too.
pub blocks-IsBlocks :
    (rounds : ℕ) (wptr : List ℕ)
    → length wptr < rounds
    → IsBlocks (blocks rounds wptr) × (joined (blocks rounds wptr) ≡ wptr)
blocks-IsBlocks zero wptr h = absurd (omega arith)
blocks-IsBlocks (suc n) wptr h = elim (Bool-cases (ltb 80 (length wptr))) [
  | inl t ↦
      let more : 80 < length wptr = ground arith in
      let (shape, all) = blocks-IsBlocks n (drop 80 wptr) (omega (arith, length-drop 80 wptr)) in
      let (shape', all') =
        joined_cons (take 80 wptr) (blocks n (drop 80 wptr)) (drop 80 wptr)
          (omega (arith, length-take 80 wptr)) shape all in
      rw (blocks_more n wptr more) (shape', all' ∙ take-append-drop 80 wptr)
  | inr f ↦
      let few : length wptr ≤ 80 = ground arith in
      rw (blocks_last n wptr few) ((refl, few), append-nil wptr)
]
