-- ===== src/Bin/Order.antt =====
-- bin_putic35rec() (databin.c) as seen by who walks over the records of a file: where it puts one.
use ic35link.Base.{
  ℕ, ◌≡◌, ◌≢◌, ◌⊎◌, refl, sym, ap, ◌∙◌, Bool, true, false, none, List, [], ◌∷◌, ◌++◌, ◌==◌, ◌||◌,
  arith, Bool-cases, inl, inr,
}
use ic35link.Record.{Ic35Rec, new_ic35rec}
use ic35link.Record.Ids.{file_id, file_any}
use ic35link.Bin.{
  Elmt, Bin, bin_getrec_byid, copy_rec, insert_in_file, has_file, put_found, bin_putic35rec,
}
use ic35link.Bin.Walk.{in_file}
use ic35link.Bin.Lookup.{copy_rec_lem}

-- The records of each file stand side by side: when one has a later one of its file, that is the
-- next.
abbrev next_in_file : ℕ → List Elmt → Bool
next_in_file f [] = false
next_in_file f (e ∷ es) = file_id e.rec.id == f

abbrev pub IsGrouped : List Elmt → Type 0
IsGrouped [] = Unit
IsGrouped (e ∷ es) =
    (has_file (file_id e.rec.id) es ≡ next_in_file (file_id e.rec.id) es) × IsGrouped es

in_file-none : (f : ℕ) (es : List Elmt) → f ≢ file_any → has_file f es ≡ false → in_file f es ≡ []
in_file-none f [] n h = refl
in_file-none f (e ∷ es) n h = ground (arith, in_file-none f es n)

in_file-insert :
    (f : ℕ) (new : Elmt) (es : List Elmt)
    → f ≢ file_any
    → file_id new.rec.id ≡ f
    → in_file f (insert_in_file f new es) ≡ in_file f es ++ new ∷ []
unfolding insert_in_file
in_file-insert f new [] n q = ground arith
in_file-insert f new (e ∷ es) n q = ground (arith, in_file-insert f new es n q, in_file-none f es n)

in_file-insert_ne :
    (f g : ℕ) (new : Elmt) (es : List Elmt)
    → g ≢ file_any
    → file_id new.rec.id ≡ f
    → g ≢ f
    → in_file g (insert_in_file f new es) ≡ in_file g es
unfolding insert_in_file
in_file-insert_ne f g new [] n q ne = ground arith
in_file-insert_ne f g new (e ∷ es) n q ne = ground (arith, in_file-insert_ne f g new es n q ne)

has_file-insert :
    (f g : ℕ) (new : Elmt) (es : List Elmt)
    → file_id new.rec.id ≡ f
    → has_file g (insert_in_file f new es) ≡ (g == f || has_file g es)
unfolding insert_in_file
has_file-insert f g new [] q = ground arith
has_file-insert f g new (e ∷ es) q = ground (arith, has_file-insert f g new es q)

next-insert :
    (f g : ℕ) (new : Elmt) (es : List Elmt)
    → file_id new.rec.id ≡ f
    → (g ≢ f) ⊎ (has_file f es ≡ true)
    → next_in_file g (insert_in_file f new es) ≡ next_in_file g es
unfolding insert_in_file
next-insert f g new [] q (inl n) = ground arith
next-insert f g new [] q (inr h) = absurd (ground arith)
next-insert f g new (x ∷ es) q h = ground arith

next-has_file : (f : ℕ) (es : List Elmt) → has_file f es ≡ false → next_in_file f es ≡ false
next-has_file f [] h = refl
next-has_file f (e ∷ es) h = ground arith

-- Behind the last of its file.
after_lem :
    (f : ℕ) (new e : Elmt) (es : List Elmt)
    → file_id new.rec.id ≡ f
    → file_id e.rec.id ≡ f
    → has_file f es ≡ false
    → IsGrouped es
    → IsGrouped (e ∷ new ∷ es)
after_lem f new e es q t u g = (
  ground arith,
  (ap (λ k. has_file k es) q ∙ u ∙ sym (ap (λ k. next_in_file k es) q ∙ next-has_file f es u), g),
)

-- Further on.
on_lem :
    (f : ℕ) (new e : Elmt) (es : List Elmt)
    → file_id new.rec.id ≡ f
    → (file_id e.rec.id ≢ f) ⊎ (has_file f es ≡ true)
    → IsGrouped (e ∷ es)
    → IsGrouped (insert_in_file f new es)
    → IsGrouped (e ∷ insert_in_file f new es)
on_lem f new e es q h g on =
    let fe : ℕ = file_id e.rec.id in
    (ground (arith, has_file-insert f fe new es q, next-insert f fe new es q h, g.0), on)

insert-IsGrouped :
    (f : ℕ) (new : Elmt) (es : List Elmt)
    → file_id new.rec.id ≡ f
    → IsGrouped es
    → IsGrouped (insert_in_file f new es)
unfolding insert_in_file
insert-IsGrouped f new [] q g = (refl, tt)
insert-IsGrouped f new (e ∷ es) q g =
    let on : IsGrouped (insert_in_file f new es) = insert-IsGrouped f new es q g.1 in
    elim (Bool-cases (file_id e.rec.id == f)) [
      | inl t ↦ elim (Bool-cases (has_file f es)) [
        | inl u ↦ rw (t, u) (on_lem f new e es q (inr u) g on)
        | inr u ↦ rw (t, u) (after_lem f new e es q (ground arith) u g.1)
      ]
      | inr n ↦ rw n (on_lem f new e es q (inl (ground arith)) g on)
    ]

-- A record whose id is not found is put behind the last of its file: a caller that walks over the
-- file gets it last and the others as before, a caller that walks over another file gets what it
-- got before, and the records of each file still stand side by side. The file's id is not 0.
pub bin_putic35rec-in_file :
    (stray : ℕ) (s : Bin) (r : Ic35Rec)
    → bin_getrec_byid s r.id ≡ none
    → file_id r.id ≢ file_any
    → IsGrouped s.binlist
    → (new : Elmt) × (new.rec.id ≡ r.id)
      × (in_file (file_id r.id) (bin_putic35rec stray s r).0.binlist
          ≡ in_file (file_id r.id) s.binlist ++ new ∷ [])
      × ((g : ℕ)
          → g ≢ file_any
          → g ≢ file_id r.id
          → in_file g (bin_putic35rec stray s r).0.binlist ≡ in_file g s.binlist)
      × IsGrouped (bin_putic35rec stray s r).0.binlist
unfolding bin_putic35rec put_found
bin_putic35rec-in_file stray s r none_yet any g =
    let new : Elmt = record { at = s.next_at; rec = (copy_rec stray new_ic35rec r).1 } in
    let same : new.rec.id ≡ r.id = (copy_rec_lem stray new_ic35rec r).0 in
    let file : file_id new.rec.id ≡ file_id r.id = ap (λ i. file_id i) same in
    (
      new,
      same,
      rw none_yet (in_file-insert (file_id r.id) new s.binlist any file),
      λ h n ne. rw none_yet (in_file-insert_ne (file_id r.id) h new s.binlist n file ne),
      rw none_yet (insert-IsGrouped (file_id r.id) new s.binlist file g),
    )
