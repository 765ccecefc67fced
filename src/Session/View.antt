-- ===== src/Session/View.antt =====
-- What an export of src/ic35sync.c leaves in the records of the PC, seen by their ids.
use ic35link.Base.{
  ℕ, zero, suc, ◌+◌, ◌-◌, ◌<◌, ◌≡◌, ◌≢◌, refl, sym, ap, ◌∙◌, Bool-cases, inl, inr, false, Option,
  some, List, [], ◌∷◌, arith, length, ◌==◌, if◌then◌else◌,
}
use ic35link.Base.Int.{ℤ, pos, negsuc, ok, err}
use ic35link.Record.{Ic35Rec, new_ic35rec}
use ic35link.Record.Ids.{rec_id, ic35fname}
use ic35link.Bin.Lookup.{raw_data}
use ic35link.Session.{Device, PimOper, PimLaws}
use ic35link.Session.Export.{export_loop, export_counted, export_opened, export_named, exportfile}

-- A record by its id and raw data.
pub record Entry : Type 0 where
  pub id : ℕ
  pub bytes : List ℕ

abbrev pub View : Type 0
View = ℕ → Option (List ℕ)

abbrev pub put_entry : Entry → View → View
put_entry e v k = if k == e.id then some e.bytes else v k

-- The specification: each record overrides what was under its id.
abbrev pub replay : List Entry → View → View
replay [] v = v
replay (e ∷ es) v = replay es (put_entry e v)

replay_cong :
    (es : List Entry) (v w : View) → ((k : ℕ) → v k ≡ w k) → (k : ℕ) → replay es v k ≡ replay es w k
replay_cong [] v w h k = h k
replay_cong (e ∷ es) v w h k =
    replay_cong es (put_entry e v) (put_entry e w)
      (λ j. ap (λ t. if j == e.id then some e.bytes else t) (h j)) k

module _ {D : Type 0} (dev : Device D) where
  -- A read of the record at an index gives an entry, whatever record is read into.
  abbrev pub Reads : ℕ → ℕ → D → Entry → D → Type 0
  Reads fd irec d e d' =
      (rec : Ic35Rec)
      → (n : ℕ) × (r : Ic35Rec) × (dev.read_frec d fd irec rec ≡ (pos n, r, d'))
        × (r.id ≡ e.id)
        × (raw_data r ≡ e.bytes)

  -- The device gives some entries from an index on, and is then in another state.
  abbrev pub Gives : ℕ → ℕ → D → List Entry → D → Type 0
  Gives fd irec d [] d' = d ≡ d'
  Gives fd irec d (e ∷ es) d' =
      (d1 : D) × Reads fd irec d e d1 × (rec_id e.id ≢ 0) × Gives fd (suc irec) d1 es d'

  -- The read of the record at an index fails, whatever record is read into.
  abbrev pub FailsAt : ℕ → ℕ → D → D → Type 0
  FailsAt fd irec d d' =
      (rec : Ic35Rec) → (n : ℕ) × (r : Ic35Rec) × (dev.read_frec d fd irec rec ≡ (negsuc n, r, d'))

  -- A file that is opened and counted.
  abbrev pub Opens : ℕ → D → ℕ → ℕ → D → Type 0
  Opens fileid d fd nrec d2 =
      (fname : List ℕ) × (d1 : D) × (ic35fname fileid ≡ some fname)
      × (dev.open_file d fname ≡ (pos fd, d1))
      × (dev.get_flen d1 fd ≡ (pos nrec, d2))

module _ {D S : Type 0} (dev : Device D) (pim : PimOper S) (laws : PimLaws pim) where
  put-replayed :
      (e : Entry) (es : List Entry) (s : S) (r : Ic35Rec)
      → laws.Good s
      → rec_id e.id ≢ 0
      → r.id ≡ e.id
      → raw_data r ≡ e.bytes
      → (k : ℕ) → replay es (laws.view (pim.putic35rec s r).0) k ≡ replay (e ∷ es) (laws.view s) k
  put-replayed e es s r good nz same bytes =
      let nz' : rec_id r.id ≢ 0 = λ z. nz (ap rec_id (sym same) ∙ z) in
      replay_cong es (laws.view (pim.putic35rec s r).0) (put_entry e (laws.view s)) (λ k.
        elim (Bool-cases (k == e.id)) [
          | inl t ↦
              let at : k ≡ e.id = ground arith in
              rw t (
                ap (laws.view (pim.putic35rec s r).0) (at ∙ sym same)
                ∙ laws.put-view_self s r good nz'
                ∙ ap some bytes)
          | inr f ↦ rw f (laws.put-view_ne s r k good nz' (λ z. absurd_id k r.id e.id f z same))
        ])
    where
      absurd_id : (k i j : ℕ) → (k == j) ≡ false → k ≡ i → i ≡ j → ⊥
      absurd_id k i j f z w = ground arith

  loop_step :
      (m irec fd n : ℕ) (d d1 : D) (s : S) (rec r : Ic35Rec)
      → dev.read_frec d fd irec rec ≡ (pos n, r, d1)
      → export_loop dev pim (suc m) irec fd d s rec
        ≡ export_loop dev pim m (suc irec) fd d1 (pim.putic35rec s r).0 (pim.putic35rec s r).1
  unfolding export_loop
  loop_step m irec fd n d d1 s rec r e = rw e refl

  loop_fails :
      (m irec fd n : ℕ) (d d1 : D) (s : S) (rec r : Ic35Rec)
      → dev.read_frec d fd irec rec ≡ (negsuc n, r, d1)
      → export_loop dev pim (suc m) irec fd d s rec ≡ (err, d1, s)
  unfolding export_loop
  loop_fails m irec fd n d d1 s rec r e = rw e refl

  -- What the loop does while the device gives entries.
  loop-through :
      (es : List Entry) (m left irec j fd : ℕ) (d d' : D) (s : S) (rec : Ic35Rec)
      → m ≡ length es + left
      → j ≡ irec + length es
      → Gives dev fd irec d es d'
      → laws.Good s
      → (s' : S) × (rec' : Ic35Rec) × (export_loop dev pim m irec fd d s rec
          ≡ export_loop dev pim left j fd d' s' rec')
        × laws.Good s'
        × ((k : ℕ) → laws.view s' k ≡ replay es (laws.view s) k)
  loop-through [] m left irec j fd d d' s rec e e' same good =
      let em : m ≡ left = omega arith in
      let ej : j ≡ irec = omega arith in (s, rec, rw (em, ej, same) refl, good, λ k. refl)
  loop-through (x ∷ es) zero left irec j fd d d' s rec e e' gives good = absurd (omega arith)
  loop-through (x ∷ es) (suc m) left irec j fd d d' s rec e e' (d1, reads, nz, gives) good =
      let (n, r, read, same, bytes) = reads rec in
      let s1 : S = (pim.putic35rec s r).0 in
      let (s', rec', run, good', view) =
        loop-through es m left (suc irec) j fd d1 d' s1 (pim.putic35rec s r).1 (omega arith)
          (omega arith) gives (laws.put-Good s r good) in
      (
        s',
        rec',
        loop_step m irec fd n d d1 s rec r read ∙ run,
        good',
        λ k. view k ∙ put-replayed x es s r good nz same bytes k,
      )

  counted_lem :
      (fd n : ℕ) (d1 d2 d3 d4 : D) (s s' : S) (rval : ℤ)
      → export_loop dev pim n 0 fd d2 s new_ic35rec ≡ (rval, d3, s')
      → (dev.close_file d3 fd).1 ≡ d4
      → export_counted dev pim fd s (pos n, d2) ≡ (rval, d4, s')
  unfolding export_counted
  counted_lem fd n d1 d2 d3 d4 s s' rval e e' = rw (e, e') refl

  named_lem :
      (fd : ℕ) (d d1 : D) (s : S) (fname : List ℕ)
      → dev.open_file d fname ≡ (pos fd, d1)
      → export_named dev pim d s (some fname) ≡ export_counted dev pim fd s (dev.get_flen d1 fd)
  unfolding export_named export_opened
  named_lem fd d d1 s fname e = ap (export_opened dev pim s) e

  opened_lem :
      (fileid fd nrec : ℕ) (d d2 : D) (s : S)
      → Opens dev fileid d fd nrec d2
      → exportfile dev pim fileid d s ≡ export_counted dev pim fd s (pos nrec, d2)
  unfolding exportfile
  opened_lem fileid fd nrec d d2 s (fname, d1, name, open_, count) =
      ap (export_named dev pim d s) name
      ∙ named_lem fd d d1 s fname open_
      ∙ ap (export_counted dev pim fd s) count

  -- When the file is known and opened and the device gives as many entries as it counts, each with a
  -- record id, exportfile() succeeds and closes the file, and the records of the PC, seen by their
  -- ids, are those before with each record of the device overriding, in its order, what was under
  -- its id.
  pub exportfile-replay :
      (fileid fd : ℕ) (d d2 d3 : D) (s : S) (es : List Entry)
      → Opens dev fileid d fd (length es) d2
      → Gives dev fd 0 d2 es d3
      → laws.Good s
      → (s' : S) × (exportfile dev pim fileid d s ≡ (ok, (dev.close_file d3 fd).1, s'))
        × laws.Good s'
        × ((k : ℕ) → laws.view s' k ≡ replay es (laws.view s) k)
  exportfile-replay fileid fd d d2 d3 s es opens gives good =
      let (s', rec', run, good', view) =
        loop-through es (length es) 0 0 (length es) fd d2 d3 s new_ic35rec (omega arith)
          (omega arith) gives good in
      (
        s',
        opened_lem fileid fd (length es) d d2 s opens
            ∙ counted_lem fd (length es) d d2 d3 (dev.close_file d3 fd).1 s s' ok
                (run ∙ (unfold export_loop in refl)) refl,
        good',
        view,
      )

  -- When the file is known and opened and the device gives some entries, fewer than it counts, each
  -- with a record id, and then the next read fails, exportfile() returns ERR and closes the file,
  -- and the records of the PC are those before with each entry that was read overriding, in its
  -- order, what was under its id: what was exported stays.
  pub exportfile_fails :
      (fileid fd nrec : ℕ) (d d2 d3 d4 : D) (s : S) (es : List Entry)
      → Opens dev fileid d fd nrec d2
      → Gives dev fd 0 d2 es d3
      → length es < nrec
      → FailsAt dev fd (length es) d3 d4
      → laws.Good s
      → (s' : S) × (exportfile dev pim fileid d s ≡ (err, (dev.close_file d4 fd).1, s'))
        × laws.Good s'
        × ((k : ℕ) → laws.view s' k ≡ replay es (laws.view s) k)
  exportfile_fails fileid fd nrec d d2 d3 d4 s es opens gives more fails good =
      let (s', rec', run, good', view) =
        loop-through es nrec (suc (nrec - length es - 1)) 0 (length es) fd d2 d3 s new_ic35rec
          (omega arith) (omega arith) gives good in
      let (n, r, read) = fails rec' in
      (
        s',
        opened_lem fileid fd nrec d d2 s opens
            ∙ counted_lem fd nrec d d2 d4 (dev.close_file d4 fd).1 s s' err
                (run ∙ loop_fails (nrec - length es - 1) (length es) fd n d3 d4 s' rec' r read)
                refl,
        good',
        view,
      )
