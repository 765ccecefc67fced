-- ===== src/Record/Invariant.antt =====
-- The operations on raw data and on fields keep the invariant of a record (ic35frec.c).
use ic35link.Base.{
  ℕ, ◌+◌, ◌-◌, ◌^◌, ◌≤◌, ◌<◌, ◌≡◌, refl, ◌∙◌, Option, none, some, List, [], ◌∷◌, ◌++◌, arith,
  length, take, drop, get_or, replicate, All, IsByte, length-append, length-take, length-drop,
  length-replicate, length-set, All-append, All-take, All-drop, All-set, All-get_or, Bool-cases,
  inl, inr, leb, ◌==◌,
}
use ic35link.Base.CString.{c_str, strlen}
use ic35link.Record.{
  Fld, empty_fld, Ic35Rec, nrecflds, fields_found, fill, set_ic35recdata, stored, fld_length,
  put_fld, set_ic35recfld, claim_flds, store_fld, text_of,
}
use ic35link.Record.Ids.{maxflds, fld_idx, fld_file}
use ic35link.Record.Wf.{
  IsFld, IsText, IsWf, All-replicate, del-IsWf, length-fill, fnflds-le, IsRaw-dropped,
}
use ic35link.Record.Parse.{
  need, fit_count, fit_count_bounds, fields_found-fit_count, length-le-need,
}

fill-IsFld :
    (lens fptr : List ℕ)
    → need lens ≤ length lens + length fptr
    → All IsByte lens
    → All IsByte fptr
    → All IsFld (fill lens fptr)
unfolding fill
fill-IsFld [] fptr h bl bf = tt
fill-IsFld (l ∷ lens) fptr h bl bf = (
  (bl.0, (omega (arith, length-take l fptr, length-le-need lens), All-take IsByte l fptr bf)),
  fill-IsFld lens (drop l fptr) (omega (arith, length-drop l fptr, length-le-need lens)) bl.1
      (All-drop IsByte l fptr bf),
)

-- Any raw data of bytes makes a well-formed record: at most 21 fields, each field's text inside the
-- data, whatever byte stands behind the data in memory.
pub set_ic35recdata-IsWf :
    (stray : ℕ) (r : Ic35Rec) (bytes : List ℕ)
    → IsWf r
    → All IsByte bytes
    → IsWf (set_ic35recdata stray r bytes)
unfolding set_ic35recdata
set_ic35recdata-IsWf stray r [] w h = del-IsWf r w
set_ic35recdata-IsWf stray r (b ∷ bs) w h =
    let bytes : List ℕ = b ∷ bs in
    let n : ℕ = fields_found stray bytes in
    let same : n ≡ fit_count maxflds (length bytes) bytes = fields_found-fit_count stray bytes in
    let bounds : (n ≤ maxflds) × (n ≤ length bytes) × (need (take n bytes) ≤ length bytes) =
      rw same (fit_count_bounds maxflds (length bytes) bytes) in
    record {
      room = omega (
        arith,
        length-append (fill (take n bytes) (drop n bytes)) (replicate (maxflds - n) empty_fld),
        length-fill (take n bytes) (drop n bytes),
        length-take n bytes,
        length-replicate (maxflds - n) empty_fld,
        bounds,
      );
      few = bounds.0;
      fields =
          All-append IsFld (fill (take n bytes) (drop n bytes)) _
            (fill-IsFld (take n bytes) (drop n bytes)
              (omega (arith, bounds, length-take n bytes, length-drop n bytes))
              (All-take IsByte n bytes h) (All-drop IsByte n bytes h))
            (All-replicate (maxflds - n));
      whole = (refl, h);
    }

c_str-IsByte : (s : List ℕ) → All IsByte s → All IsByte (c_str s)
unfolding c_str
c_str-IsByte [] h = tt
c_str-IsByte (b ∷ s) h = elim (Bool-cases (b == 0)) [
  | inl e ↦ rw e tt
  | inr e ↦ rw e (h.0, c_str-IsByte s h.1)
]

length-stored : (flen : ℕ) (t : List ℕ) → flen ≤ strlen t + 1 → length (stored flen t) ≡ flen
unfolding stored
length-stored flen t h =
    omega (arith, length-take flen (c_str t ++ 0 ∷ []), length-append (c_str t) (0 ∷ []))

IsText-zero : (ptr : Option (List ℕ)) (n k : ℕ) → IsText ptr n → k ≡ 0 → IsText ptr k
IsText-zero none n k h e = e
IsText-zero (some text) n k h e = (omega arith, h.1)

put_fld-IsFld :
    (f : Fld) (fldid : ℕ) (t : List ℕ)
    → IsFld f
    → All IsByte t
    → IsFld (put_fld f (fld_length fldid t) t)
unfolding put_fld
put_fld-IsFld f fldid t w h = elim (Bool-cases (flen == 0)) [
  | inl e ↦ (small, rw e (IsText-zero f.ptr f.len flen w.1 (ground arith)))
  | inr e ↦ (small, rw e (omega (arith, length-stored flen t fits), bytes))
]
  where
    flen : ℕ
    flen = fld_length fldid t

    fits : flen ≤ strlen t + 1
    fits = unfold fld_length in ground arith

    small : flen < 2 ^ 8
    small = unfold fld_length in omega arith

    bytes : All IsByte (stored flen t)
    bytes =
        unfold stored in
        All-take IsByte flen _
          (All-append IsByte (c_str t) (0 ∷ []) (c_str-IsByte t h) (omega arith))

pub nrecflds-le : (fldid : ℕ) → nrecflds fldid ≤ maxflds
unfolding nrecflds
nrecflds-le fldid = ground (arith, fnflds-le (fld_file fldid))

claim-IsWf : (r : Ic35Rec) (n : ℕ) → n ≤ maxflds → IsWf r → IsWf (claim_flds r n)
unfolding claim_flds
claim-IsWf r n h w = elim (Bool-cases (r.nflds == 0)) [
  | inl e ↦ rw e (record { room = w.room; few = h; fields = w.fields; whole = w.whole })
  | inr e ↦ rw e w
]

store-IsWf :
    (r : Ic35Rec) (fldid : ℕ) (t : List ℕ) → IsWf r → All IsByte t → IsWf (store_fld r fldid t)
unfolding store_fld
store-IsWf r fldid t w h =
    let fi : ℕ = fld_idx fldid in
    record {
      room = length-set r.flds fi _ ∙ w.room;
      few = w.few;
      fields = All-set IsFld r.flds fi _ w.fields (
          put_fld-IsFld (get_or r.flds fi empty_fld) fldid t
            (All-get_or IsFld r.flds fi empty_fld w.fields (omega arith)) h);
      whole = IsRaw-dropped r.raw r.data_len w.whole;
    }

-- Storing a text in a field keeps the invariant, whatever the field id and the text: the field is
-- at most 255 bytes long, and its pointer shows that many bytes.
set_ic35recfld-IsWf :
    (r : Ic35Rec) (fldid : ℕ) (text : Option (List ℕ))
    → IsWf r
    → All IsByte (text_of text)
    → IsWf (set_ic35recfld r fldid text)
unfolding set_ic35recfld
set_ic35recfld-IsWf r fldid text w h =
    let claimed : IsWf (claim_flds r (nrecflds fldid)) = claim-IsWf r _ (nrecflds-le fldid) w in
    elim (Bool-cases (nrecflds fldid == 0)) [
      | inl e ↦ rw e w
      | inr e ↦
          rw e (elim (Bool-cases (leb (claim_flds r (nrecflds fldid)).nflds (fld_idx fldid))) [
            | inl e' ↦ rw e' claimed
            | inr e' ↦ rw e' (store-IsWf _ fldid (text_of text) claimed h)
          ])
    ]
