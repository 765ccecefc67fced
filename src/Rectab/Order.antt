-- ===== src/Rectab/Order.antt =====
-- The table of ic35sync.c as the sequence of its entries.
use ic35link.Base.{
  ℕ, zero, suc, ◌≡◌, ◌≢◌, ◌⊎◌, refl, ap, Bool, true, false, none, some, List, [], ◌∷◌, ◌++◌, ◌==◌,
  ◌||◌, replicate, All, length, Bool-cases, inl, inr, ne→==,
}
use ic35link.Rectab.{Table, RecOp, put_ic35recs, get_ic35recs, del_ic35recs}

abbrev pub entries : Table → List RecOp
entries [] = []
entries (none ∷ t) = entries t
entries (some x ∷ t) = x ∷ entries t

-- What a lookup asks for.
abbrev pub is_asked : (ℕ → ℕ) → ℕ → RecOp → Bool
is_asked recid_of recid x = recid == 0 || recid_of x.rec == recid

entries-none : (n : ℕ) → entries (replicate n none) ≡ []
entries-none zero = refl
entries-none (suc n) = entries-none n

-- A record that is not in the table is put somewhere among the entries, which stay as they are and
-- in their order; it always finds room.
put_ic35recs-entries :
    (t : Table) (e : RecOp)
    → All (λ x. x.rec ≢ e.rec) (entries t)
    → (pre : List RecOp) × (post : List RecOp) × (entries t ≡ pre ++ post)
      × (entries (put_ic35recs t e) ≡ pre ++ e ∷ post)
unfolding put_ic35recs
put_ic35recs-entries [] e h = ([], [], refl, ap (◌∷◌ e) (entries-none 63))
put_ic35recs-entries (none ∷ t) e h = ([], entries t, refl, refl)
put_ic35recs-entries (some x ∷ t) e h =
    let (pre, post, a, b) = put_ic35recs-entries t e h.1 in
    (x ∷ pre, post, ap (◌∷◌ x) a, rw (ne→== x.rec e.rec h.0) (ap (◌∷◌ x) b))

-- A lookup returns the first entry that is asked for, and takes exactly that one out; when there
-- is none it returns NULL and leaves all.
get_ic35recs-entries :
    (recid_of : ℕ → ℕ) (recid : ℕ) (t : Table)
    → (((get_ic35recs recid_of t recid).0 ≡ none)
        × (entries (get_ic35recs recid_of t recid).1 ≡ entries t)
        × All (λ x. is_asked recid_of recid x ≡ false) (entries t))
      ⊎ ((pre : List RecOp) × (x : RecOp) × (post : List RecOp) × (entries t ≡ pre ++ x ∷ post)
          × ((get_ic35recs recid_of t recid).0 ≡ some x)
          × (entries (get_ic35recs recid_of t recid).1 ≡ pre ++ post)
          × (is_asked recid_of recid x ≡ true)
          × All (λ y. is_asked recid_of recid y ≡ false) pre)
unfolding get_ic35recs
get_ic35recs-entries recid_of recid [] = inl (refl, refl, tt)
get_ic35recs-entries recid_of recid (none ∷ t) = get_ic35recs-entries recid_of recid t
get_ic35recs-entries recid_of recid (some x ∷ t) = elim (Bool-cases (is_asked recid_of recid x)) [
  | inl a ↦ inr ([], x, entries t, refl, rw a refl, rw a refl, a, tt)
  | inr n ↦ elim (get_ic35recs-entries recid_of recid t) [
    | inl (a, b, c) ↦ inl (rw n a, rw n (ap (◌∷◌ x) b), (n, c))
    | inr (pre, y, post, a, b, c, d, e) ↦
        inr (x ∷ pre, y, post, ap (◌∷◌ x) a, rw n b, rw n (ap (◌∷◌ x) c), d, (n, e))
  ]
]

-- The number that is returned in the end is that of the entries that were not taken out.
del_ic35recs-entries : (t : Table) → (del_ic35recs t).0 ≡ length (entries t)
unfolding del_ic35recs
del_ic35recs-entries [] = refl
del_ic35recs-entries (none ∷ t) = del_ic35recs-entries t
del_ic35recs-entries (some x ∷ t) = ap suc (del_ic35recs-entries t)
