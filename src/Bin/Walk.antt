-- ===== src/Bin/Walk.antt =====
-- The read position of databin.c: bin_rewind() and bin_getrec() walk over the records of a file.
use ic35link.Base.{
  ℕ, zero, suc, ◌≡◌, ◌≢◌, ◌⊎◌, refl, sym, ap, ◌∙◌, Option, none, some, List, [], ◌∷◌, ◌++◌,
  if◌then◌else◌, length, arith, Bool-cases, inl, inr, eq→==, ne→==, All, append_assoc,
  length-append, ◌<◌,
}
use ic35link.Bin.{Elmt, Bin, bin_rewind, behind, is_in_file, first_in_file, from, look, bin_getrec}

abbrev pub Others : ℕ → List Elmt → Type 0
Others at es = All (λ e. e.at ≢ at) es

-- No two elements of the list are at the same place.
abbrev pub IsDistinct : List Elmt → Type 0
IsDistinct [] = Unit
IsDistinct (e ∷ es) = Others e.at es × IsDistinct es

-- The records of a file, in the order of the list.
abbrev pub in_file : ℕ → List Elmt → List Elmt
in_file fileid [] = []
in_file fileid (e ∷ es) = if is_in_file fileid e then e ∷ in_file fileid es else in_file fileid es

-- A caller that asks for records of a file until there is none, at most `rounds` times.
abbrev collect_on :
    (Bin → Option (List Elmt × Bin)) → Option (Option Elmt × Bin) → Option (List Elmt × Bin)
collect_on next none = none
collect_on next (some (none, s)) = some ([], s)
collect_on next (some (some e, s)) = elim (next s) [
  | none ↦ none
  | some (es, s') ↦ some (e ∷ es, s')
]

abbrev pub collect : ℕ → ℕ → Bin → Option (List Elmt × Bin)
collect zero fileid s = none
collect (suc rounds) fileid s = collect_on (collect rounds fileid) (bin_getrec s fileid)

Others-split :
    (at : ℕ) (pre post : List Elmt) → Others at (pre ++ post) → Others at pre × Others at post
Others-split at [] post h = (tt, h)
Others-split at (e ∷ pre) post h = let (a, b) = Others-split at pre post h.1 in ((h.0, a), b)

IsDistinct-before :
    (pre post : List Elmt) (e : Elmt) → IsDistinct (pre ++ e ∷ post) → Others e.at pre
IsDistinct-before [] post e h = tt
IsDistinct-before (p ∷ pre) post e h =
    (λ q. (Others-split p.at pre (e ∷ post) h.0).1.0 (sym q), IsDistinct-before pre post e h.1)

behind_lem :
    (pre post : List Elmt) (e : Elmt) → Others e.at pre → behind e.at (pre ++ e ∷ post) ≡ some post
unfolding behind
behind_lem [] post e h = rw (eq→== e.at e.at refl)
behind_lem (p ∷ pre) post e h = rw (ne→== p.at e.at h.0) (behind_lem pre post e h.1)

-- What the search for a record of the file leaves behind it.
first_lem :
    (f : ℕ) (es : List Elmt)
    → ((first_in_file f es ≡ none) × (in_file f es ≡ []))
      ⊎ ((mid : List Elmt) × (e : Elmt) × (post : List Elmt) × (es ≡ mid ++ e ∷ post)
          × (first_in_file f es ≡ some e)
          × (in_file f es ≡ e ∷ in_file f post))
unfolding first_in_file
first_lem f [] = inl (refl, refl)
first_lem f (e ∷ es) = elim (Bool-cases (is_in_file f e)) [
  | inl t ↦ inr ([], e, es, refl, rw t refl, rw t refl)
  | inr n ↦ elim (first_lem f es) [
    | inl (a, b) ↦ inl (rw n a, rw n b)
    | inr (mid, e', post, q, a, b) ↦ inr (e ∷ mid, e', post, ap (◌∷◌ e) q, rw n a, rw n b)
  ]
]

abbrev at_list : List Elmt → Option ℕ → ℕ → Bin
at_list es get n = record { binlist = es; binget = get; next_at = n }

collect_lem :
    (k f n : ℕ) (get : Option ℕ) (pre rest : List Elmt)
    → IsDistinct (pre ++ rest)
    → from get (pre ++ rest) ≡ some rest
    → length rest < k
    → collect k f (at_list (pre ++ rest) get n)
      ≡ some (in_file f rest, at_list (pre ++ rest) none n)
unfolding bin_getrec look from
collect_lem zero f n get pre rest d e h = absurd (omega arith)
collect_lem (suc k) f n get pre rest d e h = elim (first_lem f rest) [
  | inl (a, b) ↦ rw (e, a, b) refl
  | inr (mid, x, post, q, a, b) ↦
      let here : List Elmt = pre ++ mid in
      let whole : pre ++ rest ≡ here ++ x ∷ post =
        ap (λ r. pre ++ r) q ∙ sym (append_assoc pre mid (x ∷ post)) in
      let d' : IsDistinct (here ++ x ∷ post) = rw (← whole) d in
      let split : (here ++ x ∷ []) ++ post ≡ here ++ x ∷ post = append_assoc here (x ∷ []) post in
      let next : collect k f (at_list (here ++ x ∷ post) (some x.at) n)
          ≡ some (in_file f post, at_list (here ++ x ∷ post) none n) =
        rw (← split) (
          collect_lem k f n (some x.at) (here ++ x ∷ []) post (rw split d')
            (rw split (behind_lem here post x (IsDistinct-before here post x d')))
            (omega (arith, ap length q, length-append mid (x ∷ post)))) in
      rw (e, a, b) (rw whole (rw next refl))
]

-- When no two elements are at the same place, a caller that rewinds and then asks for the records
-- of a file until there is none gets them all, each once, in the order of the list, and the list
-- is left rewound; no more calls are needed than there are elements, and one.
pub bin_getrec-in_file :
    (s : Bin) (fileid : ℕ)
    → IsDistinct s.binlist
    → collect (suc (length s.binlist)) fileid (bin_rewind s)
      ≡ some (in_file fileid s.binlist, bin_rewind s)
unfolding bin_rewind from
bin_getrec-in_file s fileid d =
    collect_lem (suc (length s.binlist)) fileid s.next_at none [] s.binlist d refl (omega arith)
