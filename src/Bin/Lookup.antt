-- ===== src/Bin/Lookup.antt =====
-- bin_putic35rec() (databin.c) as seen by who looks records up by their ids.
use ic35link.Base.{
  ℕ, ◌≡◌, ◌≢◌, ◌⊎◌, refl, sym, ap, ◌∙◌, Option, none, some, List, [], ◌∷◌, ◌==◌, if◌then◌else◌,
  arith, Bool-cases, inl, inr, eq→==, ne→==,
}
use ic35link.Record.{
  Ic35Rec, new_ic35rec, set_ic35recid, set_ic35recchg, set_ic35recdata, get_ic35recdata,
  del_ic35recbuffs,
}
use ic35link.Record.Ids.{file_id, rec_id}
use ic35link.Bin.{
  Elmt, Bin, find_id, bin_getrec_byid, change, copy_rec, insert_in_file, put_found, bin_putic35rec,
}
use ic35link.Bin.Walk.{IsDistinct, Others}

-- The raw data of a record, rebuilt when it must be.
abbrev pub raw_data : Ic35Rec → List ℕ
raw_data r = (get_ic35recdata r).1

pub set_id-id : (r : Ic35Rec) (recid : ℕ) → (set_ic35recid r recid).id ≡ recid
unfolding set_ic35recid
set_id-id r recid = ground arith

pub set_chg-id : (r : Ic35Rec) (chg : ℕ) → (set_ic35recchg r chg).id ≡ r.id
unfolding set_ic35recchg
set_chg-id r chg = ground arith

pub set_data-id :
    (stray : ℕ) (r : Ic35Rec) (bytes : List ℕ) → (set_ic35recdata stray r bytes).id ≡ r.id
unfolding set_ic35recdata del_ic35recbuffs
set_data-id stray r [] = refl
set_data-id stray r (b ∷ bs) = refl

pub set_data-chg :
    (stray : ℕ) (r : Ic35Rec) (bytes : List ℕ) → (set_ic35recdata stray r bytes).chg ≡ r.chg
unfolding set_ic35recdata del_ic35recbuffs
set_data-chg stray r [] = refl
set_data-chg stray r (b ∷ bs) = refl

pub raw_data-set :
    (stray : ℕ) (r : Ic35Rec) (bytes : List ℕ) → raw_data (set_ic35recdata stray r bytes) ≡ bytes
unfolding set_ic35recdata del_ic35recbuffs get_ic35recdata
raw_data-set stray r [] = refl
raw_data-set stray r (b ∷ bs) = refl

pub copy_rec_lem :
    (stray : ℕ) (to r : Ic35Rec)
    → ((copy_rec stray to r).1.id ≡ r.id) × (raw_data (copy_rec stray to r).1 ≡ raw_data r)
unfolding copy_rec
copy_rec_lem stray to r = (
  set_data-id stray (set_ic35recid to r.id) (raw_data r) ∙ set_id-id to r.id,
  raw_data-set stray (set_ic35recid to r.id) (raw_data r),
)

abbrev or_else : Elmt → Option Elmt → Elmt
or_else d none = d
or_else d (some e) = e

find-cons :
    (id : ℕ) (x : Elmt) (es : List Elmt)
    → ((x.rec.id ≡ id) × (find_id id (x ∷ es) ≡ some x))
      ⊎ ((x.rec.id ≢ id) × (find_id id (x ∷ es) ≡ find_id id es))
unfolding find_id
find-cons id x es = elim (Bool-cases (x.rec.id == id)) [
  | inl t ↦ inl (ground arith, rw t refl)
  | inr n ↦ inr (ground arith, rw n refl)
]

find-Others :
    (id at : ℕ) (es : List Elmt) (e : Elmt) → Others at es → find_id id es ≡ some e → e.at ≢ at
find-Others id at [] e o h = absurd (unfold find_id in (ground arith))
find-Others id at (x ∷ es) e o h = elim (find-cons id x es) [
  | inl (t, q) ↦ rw (← ap (or_else x) (sym q ∙ h)) o.0
  | inr (n, q) ↦ find-Others id at es e o.1 (sym q ∙ h)
]

find_skip : (k : ℕ) (x : Elmt) (es : List Elmt) → x.rec.id ≢ k → find_id k (x ∷ es) ≡ find_id k es
unfolding find_id
find_skip k x es n = rw (ne→== x.rec.id k n) refl

find_cong :
    (k : ℕ) (x : Elmt) (es es' : List Elmt)
    → find_id k es ≡ find_id k es'
    → find_id k (x ∷ es) ≡ find_id k (x ∷ es')
unfolding find_id
find_cong k x es es' q = rw q refl

change_skip :
    (at : ℕ) (f : Ic35Rec → Ic35Rec) (x : Elmt) (es : List Elmt)
    → at ≢ x.at
    → change at f (x ∷ es) ≡ x ∷ change at f es
unfolding change
change_skip at f x es n = rw (ne→== x.at at (λ v. n (sym v))) refl

-- The element found by an id is changed, and keeps the id.
find-change_self :
    (id : ℕ) (es : List Elmt) (e : Elmt) (to : Ic35Rec)
    → IsDistinct es
    → find_id id es ≡ some e
    → to.id ≡ id
    → find_id id (change e.at (λ old. to) es) ≡ some (record { at = e.at; rec = to })
find-change_self id [] e to d h q = absurd (unfold find_id in (ground arith))
find-change_self id (x ∷ es) e to d h q = elim (find-cons id x es) [
  | inl (t, u) ↦
      rw (← ap (or_else x) (sym u ∙ h))
        (unfold find_id in unfold change in rw (eq→== x.at x.at refl, eq→== to.id id q) refl)
  | inr (n, u) ↦
      let away : e.at ≢ x.at = find-Others id x.at es e d.0 (sym u ∙ h) in
      let on : find_id id (change e.at (λ old. to) es) ≡ some (record { at = e.at; rec = to }) =
        find-change_self id es e to d.1 (sym u ∙ h) q in
      ap (find_id id) (change_skip e.at (λ old. to) x es away)
      ∙ find_skip id x (change e.at (λ old. to) es) n
      ∙ on
]

change-Others :
    (at : ℕ) (f : Ic35Rec → Ic35Rec) (es : List Elmt) → Others at es → change at f es ≡ es
unfolding change
change-Others at f [] o = refl
change-Others at f (e ∷ es) o = rw (ne→== e.at at o.0) (ap (◌∷◌ e) (change-Others at f es o.1))

-- Other ids are found as before.
find-change_ne :
    (id k : ℕ) (es : List Elmt) (e : Elmt) (to : Ic35Rec)
    → IsDistinct es
    → find_id id es ≡ some e
    → to.id ≡ id
    → k ≢ id
    → find_id k (change e.at (λ old. to) es) ≡ find_id k es
find-change_ne id k [] e to d h q ne = unfold change in refl
find-change_ne id k (x ∷ es) e to d h q ne = elim (find-cons id x es) [
  | inl (t, u) ↦
      let kept : change x.at (λ old. to) es ≡ es = change-Others x.at (λ old. to) es d.0 in
      rw (← ap (or_else x) (sym u ∙ h)) (
        unfold find_id in
        unfold change in
        rw
          (
            eq→== x.at x.at refl,
            ne→== to.id k (λ v. ne (sym v ∙ q)),
            ne→== x.rec.id k (λ v. ne (sym v ∙ t)),
          )
          (unfold find_id in unfold change in ap (find_id k) kept))
  | inr (n, u) ↦
      let away : e.at ≢ x.at = find-Others id x.at es e d.0 (sym u ∙ h) in
      let on : find_id k (change e.at (λ old. to) es) ≡ find_id k es =
        find-change_ne id k es e to d.1 (sym u ∙ h) q ne in
      ap (find_id k) (change_skip e.at (λ old. to) x es away)
      ∙ find_cong k x (change e.at (λ old. to) es) es on
]

-- A new element is found by its id, if no other has it, and by no other id.
find-insert :
    (f k : ℕ) (new : Elmt) (es : List Elmt)
    → find_id new.rec.id es ≡ none
    → find_id k (insert_in_file f new es) ≡ (if k == new.rec.id then some new else find_id k es)
unfolding find_id insert_in_file
find-insert f k new [] h = ground arith
find-insert f k new (x ∷ es) h = ground (arith, find-insert f k new es)

-- What a put leaves to a caller that looks records up by their ids.
abbrev Found : Bin → Bin → Ic35Rec → ℕ → Type 0
Found s s' r at =
    (e : Elmt) × (bin_getrec_byid s' r.id ≡ some e)
    × (e.at ≡ at)
    × (raw_data e.rec ≡ raw_data r)
    × ((k : ℕ) → k ≢ r.id → bin_getrec_byid s' k ≡ bin_getrec_byid s k)

put_found_lem :
    (stray : ℕ) (s : Bin) (r : Ic35Rec) (o : Option Elmt)
    → IsDistinct s.binlist
    → rec_id r.id ≢ 0
    → find_id r.id s.binlist ≡ o
    → Found s (put_found stray s r o).0 r (put_found stray s r o).2
unfolding put_found bin_getrec_byid
put_found_lem stray s r (some e) d nz h =
    let to : Ic35Rec = (copy_rec stray e.rec r).1 in
    let (same, kept) = copy_rec_lem stray e.rec r in
    (
      record { at = e.at; rec = to },
      rw (ne→== (rec_id r.id) 0 nz) (find-change_self r.id s.binlist e to d h same),
      refl,
      kept,
      λ k ne. rw (find-change_ne r.id k s.binlist e to d h same ne) refl,
    )
put_found_lem stray s r none d nz h =
    let to : Ic35Rec = (copy_rec stray new_ic35rec r).1 in
    let (same, kept) = copy_rec_lem stray new_ic35rec r in
    let new : Elmt = record { at = s.next_at; rec = to } in
    let found : (k : ℕ)
        → find_id k (insert_in_file (file_id r.id) new s.binlist)
          ≡ (if k == to.id then some new else find_id k s.binlist) =
      λ k. find-insert (file_id r.id) k new s.binlist (ap (λ i. find_id i s.binlist) same ∙ h) in
    (
      new,
      rw (ne→== (rec_id r.id) 0 nz, found r.id, eq→== r.id to.id (sym same)) refl,
      refl,
      kept,
      λ k ne. rw (found k, ne→== k to.id (λ v. ne (v ∙ same))) refl,
    )

byid_lem : (s : Bin) (id : ℕ) → rec_id id ≢ 0 → find_id id s.binlist ≡ bin_getrec_byid s id
unfolding bin_getrec_byid
byid_lem s id nz = rw (ne→== (rec_id id) 0 nz) refl

-- When no two elements are at the same place, and the record has a record id, bin_putic35rec()
-- makes the record findable by its id, at the place that was returned and with the data of the
-- record, whether it was there before or not, and every other id finds what it found before.
pub bin_getrec_byid-bin_putic35rec :
    (stray : ℕ) (s : Bin) (r : Ic35Rec)
    → IsDistinct s.binlist
    → rec_id r.id ≢ 0
    → (e : Elmt) × (bin_getrec_byid (bin_putic35rec stray s r).0 r.id ≡ some e)
      × (e.at ≡ (bin_putic35rec stray s r).2)
      × (raw_data e.rec ≡ raw_data r)
      × ((k : ℕ) → k ≢ r.id → bin_getrec_byid (bin_putic35rec stray s r).0 k ≡ bin_getrec_byid s k)
unfolding bin_putic35rec
bin_getrec_byid-bin_putic35rec stray s r d nz =
    put_found_lem stray s r (bin_getrec_byid s r.id) d nz (byid_lem s r.id nz)
