-- ===== src/Card/Path.antt =====
-- src/ic35mgr.c: _ic35mmcpath(), the check and conversion of a path on a memory card. A path is the
-- text of a C string; the letters are those of the C locale. The directories that are created on the
-- way in mode 1 are not modelled.
use ic35link.Base.{
  ℕ, suc, ◌-◌, ◌⊎◌, inl, inr, Bool, true, false, Option, none, some, List, [], ◌∷◌, ◌++◌, ◌==◌,
  ◌&&◌, ◌||◌, not, if◌then◌else◌, leb, ltb, map, take, drop, get_or,
}
use ic35link.Base.Int.{ℤ, pos, negsuc}
use ic35link.Mmc.{mmcard_text}

-- ERR_mmcpfx, ERR_mmcnum, ERR_mmcslash, ERR_mmcbadpath
abbrev pub err_mmcpfx : ℤ
err_mmcpfx = negsuc 0

abbrev pub err_mmcnum : ℤ
err_mmcnum = negsuc 1

abbrev pub err_mmcslash : ℤ
err_mmcslash = negsuc 2

abbrev pub err_mmcbadpath : ℤ
err_mmcbadpath = negsuc 3

abbrev pub is_digit : ℕ → Bool
is_digit c = leb 48 c && leb c 57

-- toupper() of a lowercase letter
abbrev pub upper : ℕ → ℕ
upper c = if leb 97 c && leb c 122 then c - 32 else c

-- strncasecmp( .. ) == 0
abbrev pub same_letters : List ℕ → List ℕ → Bool
same_letters [] [] = true
same_letters [] (d ∷ ds) = false
same_letters (c ∷ cs) [] = false
same_letters (c ∷ cs) (d ∷ ds) = if upper c == upper d then same_letters cs ds else false

abbrev pub is_slash : ℕ → Bool
is_slash c = c == b'/' || c == b'\\'

-- `n` characters since the slash, `dot` characters since the dot if there is one: too many of them.
unfoldable pub too_long : ℕ → Option ℕ → Bool
too_long n none = ltb 8 n
too_long n (some dot) = ltb 3 dot

-- At a dot: there was one already, or too many characters before it.
unfoldable pub bad_dot : ℕ → Option ℕ → Bool
bad_dot n none = ltb 8 n
bad_dot n (some dot) = true

-- A slash before the rest of a path; at the end of the path it is removed.
unfoldable pub slash_then : List ℕ → List ℕ → List ℕ
slash_then [] rest = []
slash_then (c ∷ cs) rest = b'\\' ∷ rest

-- A path that is checked: with a bad component, or none, and the text that it is then.
abbrev pub Checked : Type 0
Checked = List ℕ ⊎ List ℕ

unfoldable pub put_before : (List ℕ → List ℕ) → Checked → Checked
put_before f (inl rest) = inl (f rest)
put_before f (inr rest) = inr (f rest)

-- The loop over the path behind a slash, which ends at a bad component. What was read before it has
-- its slashes converted, what is behind it is as it was.
unfoldable pub check_path : ℕ → Option ℕ → List ℕ → Checked
check_path n dot [] = if too_long n dot then inl [] else inr []
check_path n dot (c ∷ cs) =
    let below = check_path 0 none cs in
    let dotted = check_path (suc n) (some 0) cs in
    let more = check_path (suc n) (elim dot [ none ↦ none | some k ↦ some (suc k) ]) cs in
    if is_slash c
    then (if n == 0 || too_long n dot then inl (b'\\' ∷ cs) else put_before (slash_then cs) below)
    else if c == b'.'
    then (if bad_dot n dot then inl (c ∷ cs) else put_before (◌∷◌ c) dotted)
    else put_before (◌∷◌ c) more

abbrev pub path_found : ℕ → Checked → ℤ × List ℕ
path_found num (inl rest) = (err_mmcbadpath, mmcard_text ++ num ∷ rest)
path_found num (inr rest) = (pos (num - 48), mmcard_text ++ map upper (num ∷ rest))

-- Behind the number of the card.
unfoldable pub after_number : ℕ → List ℕ → ℤ × List ℕ
after_number num [] = path_found num (inr [])
after_number num (c ∷ cs) =
    if not (is_slash c)
    then (err_mmcslash, mmcard_text ++ num ∷ c ∷ cs)
    else path_found num (put_before (slash_then cs) (check_path 0 none cs))

-- The number of the card or an error, and the path as it is converted, on an error as far as that
-- went.
unfoldable pub ic35mmcpath : List ℕ → ℤ × List ℕ
ic35mmcpath path =
    let num = get_or path 6 0 in
    if not (same_letters (take 6 path) mmcard_text && is_digit num)
    then (err_mmcpfx, path)
    else if not (num == 49 || num == 50)
    then (err_mmcnum, mmcard_text ++ drop 6 path)
    else after_number num (drop 7 path)
