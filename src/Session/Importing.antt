-- ===== src/Session/Importing.antt =====
-- What importfile() of src/ic35sync.c does when a record cannot be read.
use ic35link.Base.{
  ℕ, zero, suc, ◌+◌, ◌<◌, ◌≡◌, refl, sym, ap, ◌∙◌, some, List, [], ◌∷◌, ◌++◌, arith, length,
}
use ic35link.Base.Int.{pos, negsuc, err}
use ic35link.Record.{Ic35Rec, new_ic35rec}
use ic35link.Rectab.{Ic35Op, put_ic35recs}
use ic35link.Session.{Device, PimOper}
use ic35link.Session.Sync.{Sess, entry}
use ic35link.Session.View.{Entry, FailsAt, Opens}
use ic35link.Session.Deletes.{Lists}
use ic35link.Session.Import.{note_all, import_counted, import_opened, import_named, importfile}

module _ {D S : Type 0} (dev : Device D) (pim : PimOper S) where
  note_step :
      (left irec fd n : ℕ) (d1 : D) (r : Ic35Rec) (x : Sess D S)
      → dev.read_frec x.dev fd irec new_ic35rec ≡ (pos n, r, d1)
      → note_all dev pim (suc left) irec fd x
        ≡ note_all dev pim left (suc irec) fd (record {
          dev = d1;
          pim = x.pim;
          heap = x.heap ++ r ∷ [];
          table = put_ic35recs x.table (entry (length x.heap) Ic35Op.noact);
        })
  unfolding note_all
  note_step left irec fd n d1 r x e = rw e refl

  note_stops :
      (left irec fd n : ℕ) (d1 : D) (r : Ic35Rec) (x : Sess D S)
      → dev.read_frec x.dev fd irec new_ic35rec ≡ (negsuc n, r, d1)
      → note_all dev pim (suc left) irec fd x
        ≡ (err, record { dev = d1; pim = x.pim; heap = x.heap ++ r ∷ []; table = x.table })
  unfolding note_all
  note_stops left irec fd n d1 r x e = rw e refl

  note_fails :
      (es : List Entry) (m irec j fd : ℕ) (d d' : D) (x : Sess D S)
      → length es < m
      → j ≡ irec + length es
      → Lists dev pim fd irec x.dev es d
      → FailsAt dev fd j d d'
      → (x' : Sess D S) × (note_all dev pim m irec fd x ≡ (err, x'))
        × (x'.dev ≡ d')
        × (x'.pim ≡ x.pim)
  note_fails es zero irec j fd d d' x h e gives fails = absurd (omega arith)
  note_fails [] (suc m) irec j fd d d' x h e gives fails =
      let same : j ≡ irec = omega arith in
      let (n, r, read) = fails new_ic35rec in
      (
        record { dev = d'; pim = x.pim; heap = x.heap ++ r ∷ []; table = x.table },
        note_stops m irec fd n d' r x (rw (gives, sym same) read),
        refl,
        refl,
      )
  note_fails (e ∷ es) (suc m) irec j fd d d' x h at (d1, reads, gives) fails =
      let (n, r, read, same, bytes) = reads new_ic35rec in
      let x1 : Sess D S = record {
        dev = d1;
        pim = x.pim;
        heap = x.heap ++ r ∷ [];
        table = put_ic35recs x.table (entry (length x.heap) Ic35Op.noact);
      } in
      let (x', run, dev', pim') =
        note_fails es m (suc irec) j fd d d' x1 (omega arith) (omega arith) gives fails in
      (x', note_step m irec fd n d1 r x read ∙ run, dev', pim')

module _ {D S : Type 0} (dev : Device D) (pim : PimOper S) (rounds : ℕ) where
  counted_stops :
      (fileid fd nrec : ℕ) (d d' : D) (x x' : Sess D S)
      → note_all dev pim nrec 0 fd (record { dev = d; pim = x.pim; heap = x.heap; table = x.table })
        ≡ (err, x')
      → x'.dev ≡ d'
      → import_counted dev pim rounds fileid fd x (pos nrec, d)
        ≡ some (
          err,
          record { dev = (dev.close_file d' fd).1; pim = x'.pim; heap = x'.heap; table = x'.table },
        )
  unfolding import_counted
  counted_stops fileid fd nrec d d' x x' e e' = rw (e, ap (λ z. (dev.close_file z fd).1) e') refl

  opened_import :
      (fd : ℕ) (fileid : ℕ) (d1 : D) (x : Sess D S) (fname : List ℕ)
      → dev.open_file x.dev fname ≡ (pos fd, d1)
      → import_named dev pim rounds fileid x (some fname)
        ≡ import_counted dev pim rounds fileid fd x (dev.get_flen d1 fd)
  unfolding import_named import_opened
  opened_import fd fileid d1 x fname e = ap (import_opened dev pim rounds fileid x) e

  -- When the file is known and opened and the device gives some records, fewer than it counts, and
  -- then the next read fails, importfile() returns ERR; the device was only read and its file
  -- closed, and the records of the PC are as they were.
  pub importfile_fails :
      (fileid fd nrec : ℕ) (d2 d3 d4 : D) (x : Sess D S) (es : List Entry)
      → Opens dev fileid x.dev fd nrec d2
      → Lists dev pim fd 0 d2 es d3
      → length es < nrec
      → FailsAt dev fd (length es) d3 d4
      → (x' : Sess D S) × (importfile dev pim rounds fileid x ≡ some (err, x'))
        × (x'.dev ≡ (dev.close_file d4 fd).1)
        × (x'.pim ≡ x.pim)
  unfolding importfile
  importfile_fails fileid fd nrec d2 d3 d4 x es (fname, d1, name, open_, count) gives more fails =
      let x0 : Sess D S = record { dev = d2; pim = x.pim; heap = x.heap; table = x.table } in
      let (y, run, at, kept) =
        note_fails dev pim es nrec 0 (length es) fd d3 d4 x0 more (omega arith) gives fails in
      (
        record { dev = (dev.close_file d4 fd).1; pim = y.pim; heap = y.heap; table = y.table },
        ap (import_named dev pim rounds fileid x) name
            ∙ opened_import fd fileid d1 x fname open_
            ∙ ap (import_counted dev pim rounds fileid fd x) count
            ∙ counted_stops fileid fd nrec d2 d4 x y run at,
        refl,
        kept,
      )
