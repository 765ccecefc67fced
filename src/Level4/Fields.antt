-- ===== src/Level4/Fields.antt =====
-- Texts and data that sendcmd() (synproto.c) puts behind the fixed fields of a command.
use ic35link.Base.{
  ℕ, zero, suc, ◌+◌, ◌-◌, ◌≤◌, ◌≡◌, refl, sym, ap, ◌∙◌, List, [], ◌∷◌, ◌++◌, arith, length, take,
  replicate, set, length-replicate, take-append_right, length-append, take-length, append-nil,
  append_assoc,
}
use ic35link.Base.CString.{c_str, strlen, write_at, write_at-append, take-strlen, set-append}
use ic35link.Pdu.{putbyte, putbtxt, puttext}
use ic35link.Level4.Heads.{Laid}
use ic35link.Level4.Message.{field}

replicate-split : (a b m : ℕ) → m ≡ a + b → replicate m 0 ≡ replicate a 0 ++ replicate {A = ℕ} b 0
replicate-split zero b m e = let q : m ≡ b = omega arith in ap (λ k. replicate k 0) q
replicate-split (suc a) b zero e = absurd (omega arith)
replicate-split (suc a) b (suc m) e = ap (◌∷◌ 0) (replicate-split a b m (omega arith))

take-replicate : (k m : ℕ) → k ≤ m → take k (replicate m 0) ≡ replicate {A = ℕ} k 0
take-replicate zero m h = refl
take-replicate (suc k) zero h = absurd (omega arith)
take-replicate (suc k) (suc m) h = ap (◌∷◌ 0) (take-replicate k m (omega arith))

-- A block over zeros.
over_zeros :
    (pre t : List ℕ) (at m : ℕ)
    → at ≡ length pre
    → length t ≤ m
    → write_at (pre ++ replicate m 0) at t ≡ pre ++ (t ++ replicate (m - length t) 0)
over_zeros pre t at m e h =
    let parts : replicate m 0 ≡ replicate (length t) 0 ++ replicate (m - length t) 0 =
      replicate-split (length t) (m - length t) m (omega arith) in
    ap (λ z. write_at (pre ++ z) at t) parts
    ∙ write_at-append pre (replicate (length t) 0) (replicate (m - length t) 0) t at e
        (length-replicate (length t) 0)

cut_field :
    (t : List ℕ) (n m : ℕ)
    → length t ≤ n
    → n ≤ m
    → take n (t ++ replicate (m - length t) 0) ≡ t ++ replicate (n - length t) 0
cut_field t n m h h' =
    take-append_right n t (replicate (m - length t) 0) h
    ∙ ap (λ z. t ++ z) (take-replicate (n - length t) (m - length t) (omega arith))

field_size : (t : List ℕ) (n : ℕ) → length t ≤ n → length (t ++ replicate (n - length t) 0) ≡ n
field_size t n h =
    omega (
      arith,
      length-append t (replicate (n - length t) 0),
      length-replicate {A = ℕ} (n - length t) 0,
    )

puttext_lem : (pdu s : List ℕ) (at : ℕ) → puttext pdu at s ≡ write_at pdu at (c_str s)
unfolding puttext putbtxt
puttext_lem pdu s at = ap (write_at pdu at) (take-strlen s)

-- Text in a field of k bytes behind what is put already.
pub puttext-Laid :
    (head s : List ℕ) (at k n m : ℕ)
    → at ≡ length head + 9
    → n ≡ length head + k
    → strlen s ≤ k
    → k + 2 ≤ m
    → Laid (puttext (replicate 9 0 ++ (head ++ replicate m 0)) at s) n (head ++ field k s)
puttext-Laid head s at k n m e size h room =
    let t : List ℕ = c_str s in
    let tail : List ℕ = head ++ (t ++ replicate (m - length t) 0) in
    (
      tail,
      puttext_lem (replicate 9 0 ++ (head ++ replicate m 0)) s at
          ∙ over_zeros (replicate 9 0 ++ head) t at m (omega arith) (omega arith),
      omega (arith, field_size t k h, length-append head (field k s)),
      take-append_right n head (t ++ replicate (m - length t) 0) (omega arith)
          ∙ ap (λ j. head ++ take j (t ++ replicate (m - length t) 0)) (omega arith)
          ∙ ap (λ z. head ++ z) (cut_field t k m h (omega arith)),
      omega (
        arith,
        length-append head (t ++ replicate (m - length t) 0),
        field_size t m (omega arith),
      ),
    )

-- Data behind what is put already.
pub putbtxt-Laid :
    (head bstr : List ℕ) (at n m : ℕ)
    → at ≡ length head + 9
    → n ≡ length head + length bstr
    → length bstr + 2 ≤ m
    → Laid
        (putbtxt (replicate 9 0 ++ (head ++ replicate m 0)) at bstr (length bstr))
        n
        (head ++ bstr)
unfolding putbtxt
putbtxt-Laid head bstr at n m e size room =
    let rest : List ℕ = replicate (m - length bstr) 0 in
    let all : take (length bstr) bstr ≡ bstr =
      ap (take (length bstr)) (sym (append-nil bstr)) ∙ take-length bstr [] (length bstr) refl in
    (
      head ++ (bstr ++ rest),
      ap (write_at (replicate 9 0 ++ (head ++ replicate m 0)) at) all
          ∙ over_zeros (replicate 9 0 ++ head) bstr at m (omega arith) (omega arith),
      omega (arith, length-append head bstr),
      take-append_right n head (bstr ++ rest) (omega arith)
          ∙ ap (λ z. head ++ z) (take-length bstr rest (n - length head) (omega arith)),
      omega (arith, length-append head (bstr ++ rest), field_size bstr m (omega arith)),
    )

-- The data overwrite the command's own bytes, 0 and the id, which are not zeros.
pub more-Laid :
    (bstr : List ℕ)
    → length bstr ≤ 80
    → Laid
        (putbtxt (replicate 9 0 ++ (0 ∷ 0x90 ∷ replicate 4085 0)) 9 bstr (length bstr))
        (length bstr)
        bstr
unfolding putbtxt
more-Laid [] h = (_, refl, refl, refl, omega arith)
more-Laid (b ∷ []) h = (_, refl, refl, refl, omega arith)
more-Laid (b ∷ c ∷ bs) h =
    let (tail, e, size, cut, room) =
      putbtxt-Laid (b ∷ c ∷ []) bs 11 (2 + length bs) 4085 refl (omega arith) (omega arith) in
    let n : 2 + length bs ≡ suc (suc (length bs)) = omega arith in
    (tail, e, refl, rw n at cut, omega arith)

-- A name, with a byte 2 behind it.
pub name-Laid :
    (head s : List ℕ) (at n m : ℕ)
    → at ≡ length head + 9
    → n ≡ length head + (strlen s + 1)
    → strlen s + 3 ≤ m
    → Laid
        (putbyte (puttext (replicate 9 0 ++ (head ++ replicate m 0)) at s) (at + strlen s) 2)
        n
        (head ++ (c_str s ++ 2 ∷ []))
unfolding putbyte
name-Laid head s at n m e size room =
    let t : List ℕ = c_str s in
    let rest : List ℕ = replicate (m - length t - 1) 0 in
    let one : replicate {A = ℕ} (m - length t) 0 ≡ 0 ∷ rest =
      replicate-split 1 (m - length t - 1) (m - length t) (omega arith) in
    let front : List ℕ = replicate 9 0 ++ head in
    let put : puttext (front ++ replicate m 0) at s ≡ front ++ (t ++ 0 ∷ rest) =
      puttext_lem (front ++ replicate m 0) s at
      ∙ over_zeros front t at m (omega arith) (omega arith)
      ∙ ap (λ z. front ++ (t ++ z)) one in
    let marked : set ((front ++ t) ++ 0 ∷ rest) (at + length t) 2 ≡ (front ++ t) ++ 2 ∷ rest =
      set-append (front ++ t) rest 0 2 (at + length t) (omega (arith, length-append front t)) in
    let whole : front ++ (t ++ 2 ∷ rest) ≡ replicate 9 0 ++ (head ++ ((t ++ 2 ∷ []) ++ rest)) =
      ap (λ z. front ++ z) (sym (append_assoc t (2 ∷ []) rest)) in
    (
      head ++ ((t ++ 2 ∷ []) ++ rest),
      ap (λ b. set b (at + length t) 2) (put ∙ sym (append_assoc front t (0 ∷ rest)))
          ∙ marked
          ∙ append_assoc front t (2 ∷ rest)
          ∙ whole,
      omega (arith, length-append head (t ++ 2 ∷ []), length-append t (2 ∷ [])),
      take-append_right n head ((t ++ 2 ∷ []) ++ rest) (omega arith)
          ∙ ap (λ z. head ++ z)
              (take-length (t ++ 2 ∷ []) rest (n - length head)
                (omega (arith, length-append t (2 ∷ [])))),
      omega (
        arith,
        length-append head ((t ++ 2 ∷ []) ++ rest),
        length-append (t ++ 2 ∷ []) rest,
        length-append t (2 ∷ []),
        length-replicate {A = ℕ} (m - length t - 1) 0,
      ),
    )
