-- ===== src/Card/Paths.antt =====
-- Which paths _ic35mmcpath() of src/ic35mgr.c accepts, and what it makes of them.
use ic35link.Base.{
  ℕ, suc, ◌+◌, ◌≡◌, ◌≢◌, ◌⊎◌, refl, sym, ap, ◌∙◌, inl, inr, true, false, Option, none, some, List,
  [], ◌∷◌, ◌++◌, ◌==◌, ◌||◌, if◌then◌else◌, Bool, arith, length, map, All, Bool-cases, append_assoc,
  ap₂, ◌-◌, get_or, take, drop, not, ◌&&◌,
}
use ic35link.Base.Int.{ℤ, pos, negsuc}
use ic35link.Mmc.{mmcard_text}
use ic35link.Card.Path.{
  Checked, upper, is_slash, too_long, bad_dot, slash_then, put_before, check_path, path_found,
  after_number, ic35mmcpath, err_mmcpfx, err_mmcnum, err_mmcslash, same_letters, is_digit,
}
use ic35link.Card.Names.{Name, text, IsName, render, Partial, ended, Partial-more, Partial-dot}

-- What is accepted behind what was read of a component.
abbrev Accepted : List ℕ → List ℕ → Type 0
Accepted cur out =
    (x : Name) × (xs : List Name) × (cur ++ out ≡ text x ++ render xs) × IsName x × All IsName xs

put_cases :
    (f : List ℕ → List ℕ) (o : Checked) (out : List ℕ)
    → put_before f o ≡ inr out
    → (rest : List ℕ) × (o ≡ inr rest) × (f rest ≡ out)
unfolding put_before
put_cases f (inl rest) out h = absurd (ground arith)
put_cases f (inr rest) out h = (rest, refl, ground arith)

ends-Accepted : (cur : List ℕ) (x : Name) → cur ≡ text x → IsName x → Accepted cur []
ends-Accepted cur x same h = (x, [], ap (λ l. l ++ []) same, h, tt)

check_path-slash :
    (n : ℕ) (dot : Option ℕ) (c : ℕ) (cs : List ℕ)
    → is_slash c ≡ true
    → check_path n dot (c ∷ cs) ≡ (
        if n == 0 || too_long n dot
        then inl (b'\\' ∷ cs)
        else put_before (slash_then cs) (check_path 0 none cs))
unfolding check_path
check_path-slash n dot c cs t = rw t refl

check_path-dot :
    (n : ℕ) (dot : Option ℕ) (cs : List ℕ)
    → check_path n dot (b'.' ∷ cs) ≡ (
        if bad_dot n dot
        then inl (b'.' ∷ cs)
        else put_before (◌∷◌ b'.') (check_path (suc n) (some 0) cs))
unfolding check_path
check_path-dot n dot cs = refl

check_path-other :
    (n : ℕ) (dot : Option ℕ) (c : ℕ) (cs : List ℕ)
    → is_slash c ≡ false
    → (c == b'.') ≡ false
    → check_path n dot (c ∷ cs)
      ≡ put_before
          (◌∷◌ c)
          (check_path (suc n) (elim dot [ none ↦ none | some k ↦ some (suc k) ]) cs)
unfolding check_path
check_path-other n dot c cs f g = rw (f, g) refl

check_path-end :
    (n : ℕ) (dot : Option ℕ) → check_path n dot [] ≡ (if too_long n dot then inl [] else inr [])
unfolding check_path
check_path-end n dot = refl

if_good :
    (b : Bool) (bad : List ℕ) (o : Checked) (out : List ℕ)
    → (if b then inl bad else o) ≡ inr out
    → (b ≡ false) × (o ≡ inr out)
if_good true bad o out h = absurd (ground arith)
if_good false bad o out h = (refl, h)

or_false : (a b : Bool) → (a || b) ≡ false → (a ≡ false) × (b ≡ false)
or_false true b h = absurd (ground arith)
or_false false b h = (refl, h)

==-ne : (n : ℕ) → (n == 0) ≡ false → n ≢ 0
==-ne n f z = ground arith

-- A slash, and what is accepted behind it.
render-slash :
    (cur : List ℕ) (x : Name) (cs rest out : List ℕ)
    → cur ≡ text x
    → IsName x
    → slash_then cs rest ≡ out
    → (length cs ≢ 0 → Accepted [] rest)
    → Accepted cur out
unfolding slash_then
render-slash cur x [] rest out same h e more =
    let (y, ys, z, w, all) = ends-Accepted cur x same h in
    (y, ys, ap (λ l. cur ++ l) (sym e) ∙ z, w, all)
render-slash cur x (c ∷ cs) rest out same h e more =
    let (y, ys, z, w, all) = more (λ n. omega (arith, n)) in
    (x, y ∷ ys, ap (λ l. cur ++ l) (sym e) ∙ ap₂ (λ l m. l ++ b'\\' ∷ m) same z, h, (w, all))

accepted :
    (cs : List ℕ) (n : ℕ) (dot : Option ℕ) (cur out : List ℕ)
    → check_path n dot cs ≡ inr out
    → Partial cur n dot
    → (n ≢ 0) ⊎ (length cs ≢ 0)
    → Accepted cur out
accepted [] n dot cur out e part (inr z) = absurd (z refl)
accepted [] n dot cur out e part (inl nz) =
    let (short, out_nil) =
      if_good (too_long n dot) [] (inr []) out (sym (check_path-end n dot) ∙ e) in
    let (x, same, h) = ended cur n dot part short nz in
    let at : [] ≡ out = ground arith in
    let (y, ys, z, w, all) = ends-Accepted cur x same h in
    (y, ys, ap (λ l. cur ++ l) (sym at) ∙ z, w, all)
accepted (c ∷ cs) n dot cur out e part any = elim (Bool-cases (is_slash c)) [
  | inl t ↦
      let (fits, put) =
        if_good (n == 0 || too_long n dot) (b'\\' ∷ cs)
          (put_before (slash_then cs) (check_path 0 none cs)) out
          (sym (check_path-slash n dot c cs t) ∙ e) in
      let (rest, below, at) = put_cases (slash_then cs) (check_path 0 none cs) out put in
      let (nz, short) = or_false (n == 0) (too_long n dot) fits in
      let (x, same, h) = ended cur n dot part short (==-ne n nz) in
      render-slash cur x cs rest out same h at
        (λ more. accepted cs 0 none [] rest below (refl, tt) (inr more))
  | inr f ↦ elim (Bool-cases (c == b'.')) [
    | inl d ↦
        let is_dot : c ≡ b'.' = ground arith in
        let (fits, put) =
          if_good (bad_dot n dot) (b'.' ∷ cs)
            (put_before (◌∷◌ b'.') (check_path (suc n) (some 0) cs)) out
            (sym (check_path-dot n dot cs)
              ∙ ap (λ k. check_path n dot (k ∷ cs)) (sym is_dot)
              ∙ e) in
        let (rest, below, at) = put_cases (◌∷◌ b'.') (check_path (suc n) (some 0) cs) out put in
        longer b'.' rest out at (
          accepted cs (suc n) (some 0) (cur ++ b'.' ∷ []) rest below
            (Partial-dot cur n dot part fits) (inl (λ z. omega (arith, z))))
    | inr g ↦
        let dot' : Option ℕ = elim dot [ none ↦ none | some k ↦ some (suc k) ] in
        let (rest, below, at) =
          put_cases (◌∷◌ c) (check_path (suc n) dot' cs) out
            (sym (check_path-other n dot c cs f g) ∙ e) in
        longer c rest out at (
          accepted cs (suc n) dot' (cur ++ c ∷ []) rest below (Partial-more cur n dot c part f g)
            (inl (λ z. omega (arith, z))))
  ]
]
  where
    longer :
        (k : ℕ) (rest o : List ℕ) → k ∷ rest ≡ o → Accepted (cur ++ k ∷ []) rest → Accepted cur o
    longer k rest o at (y, ys, z, w, all) =
        (y, ys, ap (λ l. cur ++ l) (sym at) ∙ sym (append_assoc cur (k ∷ []) rest) ∙ z, w, all)

path_found-cases :
    (num : ℕ) (out : List ℕ) (n : ℕ) (o : Checked)
    → path_found num o ≡ (pos n, out)
    → (rest : List ℕ) × (o ≡ inr rest)
      × (n ≡ num - 48)
      × (out ≡ mmcard_text ++ map upper (num ∷ rest))
path_found-cases num out n (inl rest) h = absurd (ground arith)
path_found-cases num out n (inr rest) h = (rest, refl, ground arith, ground arith)

behind_slash :
    (num : ℕ) (c : ℕ) (cs : List ℕ)
    → is_slash c ≡ true
    → after_number num (c ∷ cs) ≡ path_found num (put_before (slash_then cs) (check_path 0 none cs))
unfolding after_number
behind_slash num c cs t = rw t refl

no_slash :
    (num : ℕ) (c : ℕ) (cs : List ℕ)
    → is_slash c ≡ false
    → after_number num (c ∷ cs) ≡ (err_mmcslash, mmcard_text ++ num ∷ c ∷ cs)
unfolding after_number
no_slash num c cs f = rw f refl

no_number :
    (v : ℤ × List ℕ) (path out : List ℕ) (n k : ℕ) → v ≡ (negsuc k, path) → v ≡ (pos n, out) → ⊥
no_number v path out n k e h = ground arith

tests_pass :
    (a b : Bool) (path path' out : List ℕ) (n : ℕ) (v : ℤ × List ℕ)
    → (if not a then (err_mmcpfx, path) else if not b then (err_mmcnum, path') else v)
      ≡ (pos n, out)
    → (b ≡ true) × (v ≡ (pos n, out))
tests_pass false b path path' out n v h = absurd (ground arith)
tests_pass true false path path' out n v h = absurd (ground arith)
tests_pass true true path path' out n v h = (refl, h)

card_number : (num n : ℕ) → (num == 49 || num == 50) ≡ true → n ≡ num - 48 → (n ≡ 1) ⊎ (n ≡ 2)
card_number num n t e = ground arith

card_digit : (num n : ℕ) → (num == 49 || num == 50) ≡ true → n ≡ num - 48 → num ≡ 48 + n
card_digit num n t e = ground arith

names :
    (cs below rest : List ℕ)
    → slash_then cs below ≡ rest
    → check_path 0 none cs ≡ inr below
    → (xs : List Name) × (rest ≡ render xs) × All IsName xs
unfolding slash_then
names [] below rest put run = ([], sym put, tt)
names (c ∷ cs) below rest put run =
    let (x, xs, shown, w, all) =
      accepted (c ∷ cs) 0 none [] below run (refl, tt) (inr (λ z. omega (arith, z))) in
    (x ∷ xs, sym put ∙ ap (◌∷◌ b'\\') shown, (w, all))

after_number_sound :
    (num : ℕ) (cs out : List ℕ) (n : ℕ)
    → after_number num cs ≡ (pos n, out)
    → (n ≡ num - 48)
      × ((xs : List Name) × (out ≡ mmcard_text ++ map upper (num ∷ render xs)) × All IsName xs)
unfolding after_number
after_number_sound num [] out n h =
    let (rest, found, at, same) = path_found-cases num out n (inr []) h in
    let nil : rest ≡ [] = ground arith in
    (at, ([], same ∙ ap (λ l. mmcard_text ++ map upper (num ∷ l)) nil, tt))
after_number_sound num (c ∷ cs) out n h = elim (Bool-cases (is_slash c)) [
  | inr f ↦ absurd (
      no_number (after_number num (c ∷ cs)) (mmcard_text ++ num ∷ c ∷ cs) out n 2
        (no_slash num c cs f) h)
  | inl t ↦
      let (rest, found, at, same) =
        path_found-cases num out n (put_before (slash_then cs) (check_path 0 none cs))
          (sym (behind_slash num c cs t) ∙ h) in
      let (below, ok, put) = put_cases (slash_then cs) (check_path 0 none cs) rest found in
      let (xs, shown, all) = names cs below rest put ok in
      (at, (xs, same ∙ ap (λ l. mmcard_text ++ map upper (num ∷ l)) shown, all))
]

-- When _ic35mmcpath() accepts a path, the card is number 1 or 2, and the path has become "MMCard",
-- the number and a sequence of names, each behind one backslash and with its lowercase letters made
-- uppercase: a name has up to 8 characters, or up to 8 before and up to 3 behind a dot, is not empty
-- and has no slash or other dot in it.
pub ic35mmcpath_sound :
    (path out : List ℕ) (n : ℕ)
    → ic35mmcpath path ≡ (pos n, out)
    → ((n ≡ 1) ⊎ (n ≡ 2))
      × ((xs : List Name) × (out ≡ mmcard_text ++ map upper ((48 + n) ∷ render xs)) × All IsName xs)
unfolding ic35mmcpath
ic35mmcpath_sound path out n h =
    let num : ℕ = get_or path 6 0 in
    let (number, found) =
      tests_pass (same_letters (take 6 path) mmcard_text && is_digit num) (num == 49 || num == 50)
        path (mmcard_text ++ drop 6 path) out n (after_number num (drop 7 path)) h in
    let (at, (xs, shown, all)) = after_number_sound num (drop 7 path) out n found in
    (
      card_number num n number at,
      (
        xs,
        shown ∙ ap (λ k. mmcard_text ++ map upper (k ∷ render xs)) (card_digit num n number at),
        all,
      ),
    )
