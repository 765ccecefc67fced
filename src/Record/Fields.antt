-- ===== src/Record/Fields.antt =====
-- Reading a field after storing it (ic35frec.c).
use ic35link.Base.{
  ℕ, zero, suc, ◌≤◌, ◌<◌, ◌≡◌, ◌≢◌, refl, sym, ap, ◌∙◌, Option, none, some, List, [], ◌∷◌, ◌++◌,
  arith, length, take, get_or, get_or-set_self, get_or-set_ne, min, false, ne→==, lt→leb,
}
use ic35link.Base.CString.{c_str, strlen}
use ic35link.Record.{
  Fld, empty_fld, Ic35Rec, nrecflds, claim_flds, store_fld, put_fld, stored, fld_length, text_of,
  set_ic35recfld, show_fld, get_ic35recfld, ic35recfld,
}
use ic35link.Record.Ids.{maxflds, fld_idx, is_binary}
use ic35link.Record.Wf.{IsWf}
use ic35link.Record.Invariant.{nrecflds-le}

-- The field id is known, and the record has (or is new and gets) that field.
abbrev pub Settable : Ic35Rec → ℕ → Type 0
Settable r fldid = (nrecflds fldid ≢ 0) × (fld_idx fldid < (claim_flds r (nrecflds fldid)).nflds)

claim-flds : (r : Ic35Rec) (n : ℕ) → (claim_flds r n).flds ≡ r.flds
unfolding claim_flds
claim-flds r n = ground arith

claim-few :
    (r : Ic35Rec) (n : ℕ) → r.nflds ≤ maxflds → n ≤ maxflds → (claim_flds r n).nflds ≤ maxflds
unfolding claim_flds
claim-few r n h k = ground arith

set-store :
    (r : Ic35Rec) (fldid : ℕ) (text : Option (List ℕ))
    → Settable r fldid
    → set_ic35recfld r fldid text ≡ store_fld (claim_flds r (nrecflds fldid)) fldid (text_of text)
unfolding set_ic35recfld
set-store r fldid text s =
    rw (
      ne→== (nrecflds fldid) 0 s.0,
      lt→leb (claim_flds r (nrecflds fldid)).nflds (fld_idx fldid) s.1,
    )

-- What the field holds afterwards.
fld_after :
    (r : Ic35Rec) (fldid : ℕ) (text : Option (List ℕ))
    → IsWf r
    → Settable r fldid
    → get_or (set_ic35recfld r fldid text).flds (fld_idx fldid) empty_fld
      ≡ put_fld
          (get_or r.flds (fld_idx fldid) empty_fld)
          (fld_length fldid (text_of text))
          (text_of text)
fld_after r fldid text w s =
    let c : Ic35Rec = claim_flds r (nrecflds fldid) in
    let inside : fld_idx fldid < length c.flds = omega (
      arith,
      ap (λ (l : List Fld). length l) (claim-flds r (nrecflds fldid)),
      claim-few r (nrecflds fldid) w.few (nrecflds-le fldid),
      s.1,
      w.room,
    ) in
    ap (λ q. get_or q.flds (fld_idx fldid) empty_fld) (set-store r fldid text s)
    ∙ (unfold store_fld in
        get_or-set_self c.flds (fld_idx fldid) _ empty_fld inside
        ∙ ap
            (λ fs.
              put_fld (get_or fs (fld_idx fldid) empty_fld) (fld_length fldid (text_of text))
                (text_of text))
            (claim-flds r (nrecflds fldid)))

get_after :
    (r : Ic35Rec) (fldid : ℕ) (text : Option (List ℕ))
    → IsWf r
    → Settable r fldid
    → get_ic35recfld (set_ic35recfld r fldid text) fldid
      ≡ show_fld (
          put_fld
            (get_or r.flds (fld_idx fldid) empty_fld)
            (fld_length fldid (text_of text))
            (text_of text))
unfolding get_ic35recfld
get_after r fldid text w s = rw (ne→== (nrecflds fldid) 0 s.0, fld_after r fldid text w s)

show_zero :
    (f : Fld) (t : List ℕ)
    → ((show_fld (put_fld f 0 t)).0 ≡ (show_fld f).0) × ((show_fld (put_fld f 0 t)).1 ≡ 0)
unfolding show_fld put_fld
show_zero f t = ground arith

fld_others :
    (r : Ic35Rec) (fldid : ℕ) (text : Option (List ℕ)) (j : ℕ)
    → Settable r fldid
    → j ≢ fld_idx fldid
    → get_or (set_ic35recfld r fldid text).flds j empty_fld ≡ get_or r.flds j empty_fld
fld_others r fldid text j s ne =
    let c : Ic35Rec = claim_flds r (nrecflds fldid) in
    rw (set-store r fldid text s) (
      unfold store_fld in
      get_or-set_ne c.flds (fld_idx fldid) j _ empty_fld (λ e. ne (sym e))
      ∙ ap (λ fs. get_or fs j empty_fld) (claim-flds r (nrecflds fldid)))

c_str-take :
    (s : List ℕ) (n : ℕ) → n ≤ strlen s → c_str (take n (c_str s ++ 0 ∷ [])) ≡ take n (c_str s)
unfolding c_str
c_str-take s zero h = refl
c_str-take [] (suc n) h = absurd (omega arith)
c_str-take (b ∷ s) (suc n) h = ground (arith, c_str-take s n)

min-suc : (a n : ℕ) → min (suc a) (suc n) ≡ suc (min a n)
min-suc a n = omega arith

min_zero : (a : ℕ) → min a 0 ≡ 0
min_zero a = omega arith

zero_min : (a : ℕ) → min 0 a ≡ 0
zero_min a = omega arith

min_cut : (n : ℕ) (s : List ℕ) → take (min (length s) n) s ≡ take n s
min_cut zero [] = refl
min_cut (suc n) [] = ap (λ k. take k []) (zero_min (suc n))
min_cut zero (x ∷ s) = ap (λ k. take k (x ∷ s)) (min_zero (suc (length s)))
min_cut (suc n) (x ∷ s) = ap (λ k. take k (x ∷ s)) (min-suc (length s) n) ∙ ap (◌∷◌ x) (min_cut n s)

-- A text that is not empty, stored in a text field that the record has, is read back as a C string
-- cut to 255 bytes, with its length; the raw data must be rebuilt, and the fields at every other
-- index read as before.
pub ic35recfld-set_ic35recfld :
    (r : Ic35Rec) (fldid : ℕ) (text : List ℕ)
    → IsWf r
    → Settable r fldid
    → is_binary fldid ≡ false
    → 0 < strlen text
    → let r' = set_ic35recfld r fldid (some text) in
      (ic35recfld r' fldid ≡ take 255 (c_str text))
      × ((get_ic35recfld r' fldid).1 ≡ min (strlen text) 255)
      × (r'.raw ≡ none)
      × ((other : ℕ)
          → fld_idx other ≢ fld_idx fldid
          → get_ic35recfld r' other ≡ get_ic35recfld r other)
ic35recfld-set_ic35recfld r fldid text w s b nonempty = (
  unfold ic35recfld in
      ap (λ g. c_str g.0) read ∙ c_str-take text flen (omega arith) ∙ min_cut 255 (c_str text),
  ap (λ g. g.1) read,
  ap (λ q. q.raw) (set-store r fldid (some text) s) ∙ unfold store_fld in refl,
  others,
)
  where
    flen : ℕ
    flen = min (strlen text) 255

    read :
        get_ic35recfld (set_ic35recfld r fldid (some text)) fldid
        ≡ (take flen (c_str text ++ 0 ∷ []), flen)
    read =
        get_after r fldid (some text) w s
        ∙ unfold put_fld fld_length stored show_fld in rw (b, ne→== flen 0 (omega arith))

    others :
        (other : ℕ)
        → fld_idx other ≢ fld_idx fldid
        → get_ic35recfld (set_ic35recfld r fldid (some text)) other ≡ get_ic35recfld r other
    others other ne =
        unfold get_ic35recfld in rw (fld_others r fldid (some text) (fld_idx other) s ne)

-- An empty text, or NULL, stored in a text field with a pointer makes its length 0, but the
-- pointer still shows the old text: read as a C string the field is what it was before.
pub ic35recfld-clear_stale :
    (r : Ic35Rec) (fldid : ℕ) (text : Option (List ℕ))
    → IsWf r
    → Settable r fldid
    → is_binary fldid ≡ false
    → strlen (text_of text) ≡ 0
    → let r' = set_ic35recfld r fldid text in
      (ic35recfld r' fldid ≡ ic35recfld r fldid) × ((get_ic35recfld r' fldid).1 ≡ 0)
ic35recfld-clear_stale r fldid text w s b e =
    let f : Fld = get_or r.flds (fld_idx fldid) empty_fld in
    let none_left : fld_length fldid (text_of text) ≡ 0 = unfold fld_length in rw (b, e) in
    let read : get_ic35recfld (set_ic35recfld r fldid text) fldid
        ≡ show_fld (put_fld f 0 (text_of text)) =
      get_after r fldid text w s ∙ ap (λ n. show_fld (put_fld f n (text_of text))) none_left in
    let before : get_ic35recfld r fldid ≡ show_fld f =
      unfold get_ic35recfld in rw (ne→== (nrecflds fldid) 0 s.0) in
    let (same, zero_len) = show_zero f (text_of text) in
    (
      unfold ic35recfld in ap c_str (ap (λ g. g.0) read ∙ same ∙ sym (ap (λ g. g.0) before)),
      ap (λ g. g.1) read ∙ zero_len,
    )
