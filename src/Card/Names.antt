-- ===== src/Card/Names.antt =====
-- The names in a path of a memory card, as _ic35mmcpath() of src/ic35mgr.c reads them character by
-- character.
use ic35link.Base.{
  ℕ, suc, ◌≤◌, ◌≡◌, ◌≢◌, refl, sym, ap, ◌∙◌, false, Option, none, some, List, [], ◌∷◌, ◌++◌, ◌==◌,
  arith, length, All, append_assoc, length-append, All-append,
}
use ic35link.Card.Path.{is_slash, too_long, bad_dot}

-- A name of a directory or file, as the memory card has it.
pub record Name : Type 0 where
  pub base : List ℕ
  pub ext : Option (List ℕ)

abbrev pub text : Name → List ℕ
text x = elim x.ext [ none ↦ x.base | some e ↦ x.base ++ b'.' ∷ e ]

abbrev pub ext_len : Option (List ℕ) → ℕ
ext_len none = 0
ext_len (some e) = length e

abbrev pub IsPlain : List ℕ → Type 0
IsPlain cs = All (λ c. (is_slash c ≡ false) × ((c == b'.') ≡ false)) cs

-- At most 8 characters, then at most 3 behind a dot, not nothing, and no other dot or slash.
abbrev pub IsName : Name → Type 0
IsName x =
    (length x.base ≤ 8)
    × (ext_len x.ext ≤ 3)
    × (length (text x) ≢ 0)
    × IsPlain x.base
    × IsPlain (elim x.ext [ none ↦ [] | some e ↦ e ])

abbrev pub render : List Name → List ℕ
render [] = []
render (x ∷ xs) = b'\\' ∷ (text x ++ render xs)

-- What was read of a component: `n` characters, of which `dot` stand behind the dot.
abbrev pub Partial : List ℕ → ℕ → Option ℕ → Type 0
Partial cur n none = (length cur ≡ n) × IsPlain cur
Partial cur n (some k) =
    (base : List ℕ) × (ext : List ℕ) × (cur ≡ base ++ b'.' ∷ ext)
    × (length base ≤ 8)
    × (length ext ≡ k)
    × (length cur ≡ n)
    × IsPlain base
    × IsPlain ext

-- A component that ends here.
pub ended :
    (cur : List ℕ) (n : ℕ) (dot : Option ℕ)
    → Partial cur n dot
    → too_long n dot ≡ false
    → n ≢ 0
    → (x : Name) × (cur ≡ text x) × IsName x
unfolding too_long
ended cur n none (h, plain) short nz = (
  record { base = cur; ext = none },
  refl,
  (ground arith, omega arith, (λ z. nz (sym h ∙ z)), plain, tt),
)
ended cur n (some k) (base, ext, same, few, len, h, plain, plain') short nz = (
  record { base = base; ext = some ext },
  same,
  (
    few,
    ext_short ext k len short,
    (λ z. nz (sym h ∙ ap (λ (l : List ℕ). length l) same ∙ z)),
    plain,
    plain',
  ),
)
  where
    ext_short : (e : List ℕ) (j : ℕ) → length e ≡ j → too_long 0 (some j) ≡ false → length e ≤ 3
    ext_short e j l f = ground arith

length-snoc : (cur : List ℕ) (c : ℕ) → length (cur ++ c ∷ []) ≡ suc (length cur)
length-snoc cur c = omega (arith, length-append cur (c ∷ []))

snoc-IsPlain :
    (cs : List ℕ) (c : ℕ)
    → IsPlain cs
    → is_slash c ≡ false
    → (c == b'.') ≡ false
    → IsPlain (cs ++ c ∷ [])
snoc-IsPlain cs c h f g =
    All-append (λ c. (is_slash c ≡ false) × ((c == b'.') ≡ false)) cs (c ∷ []) h ((f, g), tt)

-- One more character, which is no dot.
pub Partial-more :
    (cur : List ℕ) (n : ℕ) (dot : Option ℕ) (c : ℕ)
    → Partial cur n dot
    → is_slash c ≡ false
    → (c == b'.') ≡ false
    → Partial (cur ++ c ∷ []) (suc n) (elim dot [ none ↦ none | some k ↦ some (suc k) ])
Partial-more cur n none c (h, plain) f g =
    (length-snoc cur c ∙ ap suc h, snoc-IsPlain cur c plain f g)
Partial-more cur n (some k) c (base, ext, same, few, len, h, plain, plain') f g = (
  base,
  ext ++ c ∷ [],
  ap (λ l. l ++ c ∷ []) same ∙ append_assoc base (b'.' ∷ ext) (c ∷ []),
  few,
  length-snoc ext c ∙ ap suc len,
  length-snoc cur c ∙ ap suc h,
  plain,
  snoc-IsPlain ext c plain' f g,
)

-- The dot of a component.
pub Partial-dot :
    (cur : List ℕ) (n : ℕ) (dot : Option ℕ)
    → Partial cur n dot
    → bad_dot n dot ≡ false
    → Partial (cur ++ b'.' ∷ []) (suc n) (some 0)
unfolding bad_dot
Partial-dot cur n none (h, plain) f =
    (cur, [], refl, ground arith, refl, length-snoc cur b'.' ∙ ap suc h, plain, tt)
Partial-dot cur n (some k) h f = absurd (ground arith)
