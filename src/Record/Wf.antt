-- ===== src/Record/Wf.antt =====
-- The invariant of a record (ic35frec.c), and that every operation keeps it.
use ic35link.Base.{
  ℕ, zero, suc, ◌+◌, ◌^◌, ◌≤◌, ◌<◌, ◌≡◌, refl, ap, Option, none, some, List, [], ◌∷◌, arith, length,
  drop, get_or, replicate, All, IsByte, Bool-cases, inl, inr, ◌==◌,
}
use ic35link.Record.{
  Fld, empty_fld, Ic35Rec, new_ic35rec, del_ic35recbuffs, set_ic35recid, count_loop, fill,
}
use ic35link.Record.Ids.{maxflds, ic35fnflds, file_id}

-- A pointer shows as many bytes as the field is long, at least.
abbrev pub IsText : Option (List ℕ) → ℕ → Type 0
IsText none n = n ≡ 0
IsText (some text) n = (n ≤ length text) × All IsByte text

abbrev pub IsFld : Fld → Type 0
IsFld f = (f.len < 2 ^ 8) × IsText f.ptr f.len

abbrev pub IsRaw : Option (List ℕ) → ℕ → Type 0
IsRaw none n = n ≡ 0
IsRaw (some bytes) n = (n ≡ length bytes) × All IsByte bytes

pub record IsWf (r : Ic35Rec) : Type 0 where
  pub room : length r.flds ≡ maxflds
  pub few : r.nflds ≤ maxflds
  pub fields : All IsFld r.flds
  pub whole : IsRaw r.raw r.data_len

pub All-replicate : (n : ℕ) → All IsFld (replicate n empty_fld)
All-replicate zero = tt
All-replicate (suc n) = (omega arith, All-replicate n)

new-IsWf : IsWf new_ic35rec
unfolding new_ic35rec
new-IsWf = record { room = refl; few = omega arith; fields = All-replicate maxflds; whole = refl }

pub IsRaw-dropped :
    (raw : Option (List ℕ)) (n : ℕ)
    → IsRaw raw n
    → elim raw as (λ _. ℕ) [ none ↦ n | some _ ↦ 0 ] ≡ 0
IsRaw-dropped none n h = h
IsRaw-dropped (some bytes) n h = refl

pub del-IsWf : (r : Ic35Rec) → IsWf r → IsWf (del_ic35recbuffs r)
unfolding del_ic35recbuffs
del-IsWf r w = record {
  room = refl;
  few = omega arith;
  fields = All-replicate maxflds;
  whole = IsRaw-dropped r.raw r.data_len w.whole;
}

pub fnflds-le : (fileid : ℕ) → ic35fnflds fileid ≤ maxflds
unfolding ic35fnflds
fnflds-le fileid = ground arith

set_ic35recid-IsWf : (r : Ic35Rec) (recid : ℕ) → IsWf r → IsWf (set_ic35recid r recid)
unfolding set_ic35recid
set_ic35recid-IsWf r recid w = elim (Bool-cases (ic35fnflds (file_id recid) == 0)) [
  | inl e ↦ rw e (record { room = w.room; few = w.few; fields = w.fields; whole = w.whole })
  | inr e ↦ rw e (record {
    room = w.room;
    few = fnflds-le (file_id recid);
    fields = w.fields;
    whole = w.whole;
  })
]

count-le :
    (stray dlen left : ℕ) (lens : List ℕ) (flensum nflds : ℕ)
    → count_loop stray dlen left lens flensum nflds ≤ nflds + left
unfolding count_loop
count-le stray dlen zero lens flensum nflds = omega arith
count-le stray dlen (suc left) lens flensum nflds = ground (
  arith,
  count-le stray dlen left (drop 1 lens) (flensum + (get_or lens 0 stray + 1)) (suc nflds),
)

pub length-fill : (lens fptr : List ℕ) → length (fill lens fptr) ≡ length lens
unfolding fill
length-fill [] fptr = refl
length-fill (l ∷ lens) fptr = ap suc (length-fill lens (drop l fptr))
