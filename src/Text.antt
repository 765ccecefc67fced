-- ===== src/Text.antt =====
-- src/vcutil.c: substitutions in texts and the standard categories, which need no vCard object. A
-- text is that of a C string.
pub mod RoundTrip
mod Examples
use ic35link.Base.{
  ℕ, Bool, true, false, Option, none, some, List, [], ◌∷◌, ◌++◌, ◌==◌, ◌&&◌, not, if◌then◌else◌,
  drop, length,
}
use ic35link.Card.Path.{same_letters}

-- Whether a text starts with another.
abbrev pub has_prefix : List ℕ → List ℕ → Bool
has_prefix [] cs = true
has_prefix (o ∷ os) [] = false
has_prefix (o ∷ os) (c ∷ cs) = if o == c then has_prefix os cs else false

-- The first match is replaced, and no other.
unfoldable pub replace_first : List ℕ → List ℕ → List ℕ → List ℕ
replace_first old new [] = []
replace_first old new (c ∷ cs) =
    let rest = replace_first old new cs in
    if has_prefix old (c ∷ cs) then new ++ drop (length old) (c ∷ cs) else c ∷ rest

unfoldable pub dup_subst : Option (List ℕ) → Option (List ℕ) → Option (List ℕ) → Option (List ℕ)
dup_subst none old new = none
dup_subst (some str) none new = some str
dup_subst (some str) (some old) none = some str
dup_subst (some str) (some []) (some new) = some str
dup_subst (some str) (some (o ∷ os)) (some new) = some (replace_first (o ∷ os) new str)

-- `before` is the character before the text that is left, 0 at the start.
unfoldable pub subst_nl : ℕ → List ℕ → List ℕ
subst_nl before [] = []
subst_nl before (c ∷ cs) =
    let rest = subst_nl c cs in
    if c == b'\n' && not (before == b'\r') then b'\r' ∷ c ∷ rest else c ∷ rest

unfoldable pub dup_subst_nl : List ℕ → List ℕ
dup_subst_nl src = subst_nl 0 src

-- The character that `*src` is: 0 at the end.
abbrev pub head_of : List ℕ → ℕ
head_of [] = 0
head_of (c ∷ cs) = c

-- A carriage return is dropped wherever it stands, and so is the character before a newline.
unfoldable pub dup_subst_crlf : List ℕ → List ℕ
dup_subst_crlf [] = []
dup_subst_crlf (c ∷ cs) =
    let rest = dup_subst_crlf cs in
    if not (c == b'\r') && not (head_of cs == b'\n') then c ∷ rest else rest

abbrev pub address : List ℕ
address = b'A' ∷ b'd' ∷ b'd' ∷ b'r' ∷ b'e' ∷ b's' ∷ b's' ∷ []

abbrev pub business : List ℕ
business = b'B' ∷ b'u' ∷ b's' ∷ b'i' ∷ b'n' ∷ b'e' ∷ b's' ∷ b's' ∷ []

abbrev pub personal : List ℕ
personal = b'P' ∷ b'e' ∷ b'r' ∷ b's' ∷ b'o' ∷ b'n' ∷ b'a' ∷ b'l' ∷ []

abbrev pub unfiled : List ℕ
unfiled = b'U' ∷ b'n' ∷ b'f' ∷ b'i' ∷ b'l' ∷ b'e' ∷ b'd' ∷ []

-- The category as it is spelled in the IC35, whatever the case of its letters.
unfoldable pub std_category : List ℕ → Option (List ℕ)
std_category category =
    if same_letters category address
    then some address
    else if same_letters category business
    then some business
    else if same_letters category personal
    then some personal
    else if same_letters category unfiled
    then some unfiled
    else none
