-- ===== src/Record/Compare/Spec.antt =====
-- What equality of records in the sense of cmp_ic35rec() (ic35frec.c) means.
use ic35link.Base.{
  ℕ, zero, suc, ◌+◌, ◌≤◌, ◌<◌, ◌≡◌, ◌≢◌, ◌↔◌, refl, sym, ap, ◌∙◌, true, false, some, List, [], ◌∷◌,
  arith, Bool-cases, inl, inr, eq→==,
}
use mathlib.Core.Bool.{false≢true}
use ic35link.Base.Int.{ok}
use ic35link.Record.{Ic35Rec, ic35recfld}
use ic35link.Record.Ids.{file_id, file_fld, ic35fnflds, filesched}
use ic35link.Record.Compare.{bytes_eq, ignored, is_category, field_same, cmp_loop, cmp_ic35rec}

bytes_eq_refl : (s : List ℕ) → bytes_eq s s ≡ true
unfolding bytes_eq
bytes_eq_refl [] = refl
bytes_eq_refl (b ∷ s) = ground (arith, bytes_eq_refl s)

bytes_eq→eq : (s t : List ℕ) → bytes_eq s t ≡ true → s ≡ t
unfolding bytes_eq
bytes_eq→eq [] [] h = refl
bytes_eq→eq [] (b ∷ t) h = cc
bytes_eq→eq (a ∷ s) [] h = cc
bytes_eq→eq (a ∷ s) (b ∷ t) h = ground (arith, bytes_eq→eq s t)

bytes_eq_iff : (s t : List ℕ) → (bytes_eq s t ≡ true) ↔ (s ≡ t)
bytes_eq_iff s t = (bytes_eq→eq s t, λ e. ap (λ u. bytes_eq s u) (sym e) ∙ bytes_eq_refl s)

-- The loop answers 0 exactly when every field of its range is regarded same.
cmp_loop→ :
    (r1 r2 : Ic35Rec) (fileid left fi i : ℕ)
    → cmp_loop r1 r2 fileid left fi ≡ ok
    → fi ≤ i
    → i < fi + left
    → field_same r1 r2 (file_fld fileid i) ≡ true
unfolding cmp_loop
cmp_loop→ r1 r2 fileid zero fi i h lo hi = absurd (omega arith)
cmp_loop→ r1 r2 fileid (suc left) fi i h lo hi = ground (
  arith,
  cmp_loop→ r1 r2 fileid left (suc fi) i,
  ap (λ (k : ℕ). field_same r1 r2 (file_fld fileid k)) {x = fi} {y = i},
)

cmp_loop← :
    (r1 r2 : Ic35Rec) (fileid left fi : ℕ)
    → ((i : ℕ) → fi ≤ i → i < fi + left → field_same r1 r2 (file_fld fileid i) ≡ true)
    → cmp_loop r1 r2 fileid left fi ≡ ok
unfolding cmp_loop
cmp_loop← r1 r2 fileid zero fi h = refl
cmp_loop← r1 r2 fileid (suc left) fi h =
    rw (h fi (omega arith) (omega arith))
      (cmp_loop← r1 r2 fileid left (suc fi) (λ i lo hi. h i (omega arith) (omega arith)))

fnflds_le : (fileid : ℕ) → ic35fnflds fileid ≤ 21
unfolding ic35fnflds
fnflds_le fileid = ground arith

-- Outside the schedule only a category id is ignored.
ignored_plain :
    (r2 : Ic35Rec) (fileid i : ℕ) (a b : List ℕ)
    → fileid ≢ filesched
    → i ≤ 21
    → ignored r2 (file_fld fileid i) a b ≡ is_category (file_fld fileid i)
unfolding ignored
ignored_plain r2 fileid i a b ne h = ground arith

same_iff :
    (r1 r2 : Ic35Rec) (fileid i : ℕ)
    → fileid ≢ filesched
    → i ≤ 21
    → (field_same r1 r2 (file_fld fileid i) ≡ true) ↔ (
        is_category (file_fld fileid i) ≡ false
        → ic35recfld r2 (file_fld fileid i) ≡ ic35recfld r1 (file_fld fileid i))
unfolding field_same
same_iff r1 r2 fileid i ne h =
    let a : List ℕ = ic35recfld r1 (file_fld fileid i) in
    let b : List ℕ = ic35recfld r2 (file_fld fileid i) in
    let other = ignored_plain r2 fileid i a b ne h in
    elim (Bool-cases (bytes_eq b a)) [
      | inl e ↦ rw e ((λ _ _. bytes_eq→eq b a e), λ _. refl)
      | inr e ↦
          rw (e, other)
            (
              (λ c n. cc),
              λ same. elim (Bool-cases (is_category (file_fld fileid i))) [
                | inl c ↦ c
                | inr c ↦
                    absurd
                      (false≢true (sym e ∙ ap (λ t. bytes_eq b t) (sym (same c)) ∙ bytes_eq_refl b))
              ],
            )
    ]

cmp_same_file :
    (r1 r2 : Ic35Rec)
    → file_id r1.id ≡ file_id r2.id
    → cmp_ic35rec (some r1) (some r2)
      ≡ cmp_loop r1 r2 (file_id r1.id) (ic35fnflds (file_id r1.id)) 0
unfolding cmp_ic35rec
cmp_same_file r1 r2 e = rw (eq→== (file_id r1.id) (file_id r2.id) e)

-- Two records of one file other than the schedule are regarded same exactly when every field of
-- the file that is no category id shows the same C string in both.
pub cmp_ic35rec_iff :
    (r1 r2 : Ic35Rec)
    → file_id r1.id ≡ file_id r2.id
    → file_id r1.id ≢ filesched
    → (cmp_ic35rec (some r1) (some r2) ≡ ok) ↔ (
        (i : ℕ)
        → i < ic35fnflds (file_id r1.id)
        → is_category (file_fld (file_id r1.id) i) ≡ false
        → ic35recfld r2 (file_fld (file_id r1.id) i) ≡ ic35recfld r1 (file_fld (file_id r1.id) i))
cmp_ic35rec_iff r1 r2 e ne =
    let f : ℕ = file_id r1.id in
    let n : ℕ = ic35fnflds f in
    let same = λ (i : ℕ) (h : i < n). same_iff r1 r2 f i ne (omega (arith, fnflds_le f)) in
    (
      (λ h i lt.
          (same i lt).0 (
            cmp_loop→ r1 r2 f n 0 i (sym (cmp_same_file r1 r2 e) ∙ h) (omega arith) (omega arith))),
      λ h.
          cmp_same_file r1 r2 e
          ∙ cmp_loop← r1 r2 f n 0 (λ i lo hi. (same i (omega arith)).1 (h i (omega arith))),
    )

-- Every record is the same as itself, whatever its file.
cmp_ic35rec_refl : (r : Ic35Rec) → cmp_ic35rec (some r) (some r) ≡ ok
cmp_ic35rec_refl r =
    cmp_same_file r r refl
    ∙ cmp_loop← r r (file_id r.id) (ic35fnflds (file_id r.id)) 0 (λ i lo hi.
      unfold field_same in rw (bytes_eq_refl (ic35recfld r (file_fld (file_id r.id) i))))
