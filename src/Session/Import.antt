-- ===== src/Session/Import.antt =====
-- src/ic35sync.c: importfile(), ic35import() and ic35sync(). `rounds` bounds the loops over the PC
-- records and over the table; `none` when they are not enough or a read of the PC records is
-- undefined. `dtime` is the text of get_newic35dt(); set_oldic35dt() keeps a date for vCards only.
use ic35link.Base.{
  ℕ, zero, suc, Bool, true, false, Option, none, some, List, [], ◌∷◌, ◌++◌, ◌==◌, ◌&&◌, not,
  if◌then◌else◌, length, get_or, set,
}
use ic35link.Base.Int.{ℤ, pos, negsuc, ok, err, is_neg}
use ic35link.Record.{Ic35Rec, new_ic35rec}
use ic35link.Record.Ids.{ic35fname, file_rec_id, fileaddr}
use ic35link.Rectab.{Ic35Op, RecOp, Table, put_ic35recs, get_ic35recs}
use ic35link.Bin.{pim_clean, ic35_clean}
use ic35link.Session.{Device, PimOper}
use ic35link.Session.Export.{is_ok}
use ic35link.Session.Sync.{Sess, id_at, entry}
use ic35link.Session.Syncfile.{syncfile}

module _ {D S : Type 0} (dev : Device D) (pim : PimOper S) where
  -- All records of the IC35 are read and noted.
  unfoldable pub note_all : ℕ → ℕ → ℕ → Sess D S → ℤ × Sess D S
  note_all zero irec fd x = (ok, x)
  note_all (suc left) irec fd x =
      let (rlen, r, d) = dev.read_frec x.dev fd irec new_ic35rec in
      let read = record x { dev = d; heap = x.heap ++ r ∷ [] } in
      let noted = record read {
        table = put_ic35recs x.table (entry (length x.heap) Ic35Op.noact);
      } in
      let rest = note_all left (suc irec) fd noted in if is_neg rlen then (err, read) else rest

  -- The record at `ptr` becomes the one of the PC, and the action is noted with both.
  unfoldable pub note_action : ℕ → Ic35Op → ℕ → Sess D S → Sess D S
  note_action ptr op h x =
      let (s, r) = pim.updic35rec x.pim (get_or x.heap ptr new_ic35rec) h in
      record x {
        pim = s;
        heap = set x.heap ptr r;
        table = put_ic35recs x.table (record { rec = ptr; op = op; pim = some h });
      }

  -- A record of the PC is not on the IC35; the owner's address is updated there.
  unfoldable pub note_new : ℕ → ℕ → Sess D S → Sess D S
  note_new recid h x =
      note_action (length x.heap)
        (if recid == file_rec_id fileaddr 1 then Ic35Op.update else Ic35Op.write) h
        (record x { heap = x.heap ++ new_ic35rec ∷ [] })

  unfoldable pub note_found : ℕ → ℕ → Sess D S → Option RecOp × Table → Sess D S
  note_found recid h x (none, t) = note_new recid h (record x { table = t })
  note_found recid h x (some e, t) =
      let r = get_or x.heap e.rec new_ic35rec in
      let is_same = pim.cmpic35rec x.pim r h in
      let taken = record x { table = t } in
      if is_ok is_same && r.chg == ic35_clean
      then taken
      else note_action e.rec (if is_ok is_same then Ic35Op.commit else Ic35Op.update) h taken

  unfoldable pub compare_one : ℕ → Sess D S → Sess D S
  compare_one h x =
      let recid = pim.recid x.pim h in
      if recid == 0
      then note_new recid h x
      else note_found recid h x (get_ic35recs (id_at x.heap) x.table recid)

  unfoldable pub compare_all : ℕ → ℕ → Sess D S → Option (Sess D S)
  compare_all zero fileid x = none
  compare_all (suc rounds) fileid x = elim (pim.getrec x.pim fileid) [
    | none ↦ none
    | some (none, s) ↦ some (record x { pim = s })
    | some (some h, s) ↦ compare_all rounds fileid (compare_one h (record x { pim = s }))
  ]

  -- What an action returns, with the record as it is then; `none` when there is none to do.
  unfoldable pub import_act : ℕ → D → Ic35Rec → Ic35Op → Option (ℤ × Ic35Rec × D)
  import_act fd d r Ic35Op.commit = let (rc, d') = dev.commit_frec d fd r.id in some (rc, r, d')
  import_act fd d r Ic35Op.update = some (dev.update_frec d fd r)
  import_act fd d r Ic35Op.write = some (dev.write_frec d fd r)
  import_act fd d r Ic35Op.delete = none
  import_act fd d r Ic35Op.noact = none

  abbrev pub mark_clean : S → Option ℕ → ℕ → S
  mark_clean s none id = s
  mark_clean s (some h) id = pim.set_recstat (pim.set_recid s h id) h pim_clean

  -- After an action on the entry `e`.
  unfoldable pub import_done : RecOp → ℤ → Sess D S → ℤ × Ic35Rec × D → ℤ × Sess D S
  import_done e rval x (rc, r, d) =
      let acted = record x { dev = d; heap = set x.heap e.rec r } in
      if is_neg rc then (err, acted) else (rval, record acted { pim = mark_clean x.pim e.pim r.id })

  -- What the loop makes of an entry and of what its action returned: `more` goes on.
  unfoldable pub execute_acted :
      ℕ
      → ℤ
      → RecOp
      → Sess D S
      → (ℤ → ℕ → Sess D S → Option (ℤ × ℕ × Sess D S))
      → Option (ℤ × Ic35Rec × D)
      → Option (ℤ × ℕ × Sess D S)
  execute_acted absent rval e x more none = more rval (suc absent) x
  execute_acted absent rval e x more (some out) =
      let (rval', x') = import_done e rval x out in more rval' absent x'

  unfoldable pub execute_found :
      ℕ
      → ℕ
      → ℤ
      → Sess D S
      → (ℤ → ℕ → Sess D S → Option (ℤ × ℕ × Sess D S))
      → Option RecOp
      → Option (ℤ × ℕ × Sess D S)
  execute_found fd absent rval x more none = some (rval, absent, x)
  execute_found fd absent rval x more (some e) =
      execute_acted absent rval e x more
        (import_act fd x.dev (get_or x.heap e.rec new_ic35rec) e.op)

  -- All entries of the table are taken out; `absent` counts those with no action.
  unfoldable pub execute : ℕ → ℕ → ℤ → ℕ → Sess D S → Option (ℤ × ℕ × Sess D S)
  execute zero fd rval absent x = none
  execute (suc rounds) fd rval absent x =
      let (found, t) = get_ic35recs (id_at x.heap) x.table 0 in
      execute_found fd absent rval (record x { table = t }) (λ v n y. execute rounds fd v n y) found

module _ {D S : Type 0} (dev : Device D) (pim : PimOper S) (rounds : ℕ) where
  -- The value and close_file(), after _del_ic35recs().
  abbrev pub imported : ℕ → Option (ℤ × ℕ × Sess D S) → Option (ℤ × Sess D S)
  imported fd none = none
  imported fd (some (rval, absent, x)) = some (
    if is_ok rval then pos absent else rval,
    record x { dev = (dev.close_file x.dev fd).1; table = [] },
  )

  abbrev pub import_compared : ℕ → Option (Sess D S) → Option (ℤ × Sess D S)
  import_compared fd none = none
  import_compared fd (some x) = imported fd (execute dev pim rounds fd ok 0 x)

  -- The table is left as it is when a record cannot be read.
  unfoldable pub import_counted : ℕ → ℕ → Sess D S → ℤ × D → Option (ℤ × Sess D S)
  import_counted fileid fd x (negsuc n, d) = some (err, record x { dev = (dev.close_file d fd).1 })
  import_counted fileid fd x (pos nrec, d) =
      let (rval, x') = note_all dev pim nrec 0 fd (record x { dev = d }) in
      let compared = compare_all dev pim rounds fileid (record x' { pim = pim.rewind x'.pim }) in
      if not (is_ok rval)
      then some (rval, record x' { dev = (dev.close_file x'.dev fd).1 })
      else import_compared fd compared

  unfoldable pub import_opened : ℕ → Sess D S → ℤ × D → Option (ℤ × Sess D S)
  import_opened fileid x (negsuc n, d) = some (err, record x { dev = d })
  import_opened fileid x (pos fd, d) = import_counted fileid fd x (dev.get_flen d fd)

  unfoldable pub import_named : ℕ → Sess D S → Option (List ℕ) → Option (ℤ × Sess D S)
  import_named fileid x none = some (err, x)
  import_named fileid x (some fname) = import_opened fileid x (dev.open_file x.dev fname)

  unfoldable pub importfile : ℕ → Sess D S → Option (ℤ × Sess D S)
  importfile fileid x = import_named fileid x (ic35fname fileid)

  -- The value, and whether all records of the IC35 are those of the PC.
  unfoldable pub import_files : List ℕ → Bool → Sess D S → Option (ℤ × Bool × Sess D S)
  import_files [] same x = some (ok, same, x)
  import_files (fileid ∷ fileids) same x = elim (importfile fileid x) [
    | none ↦ none
    | some (rc, x') ↦ elim (is_neg rc) [
      | true ↦ some (rc, false, x')
      | false ↦ import_files fileids (same && is_ok rc) x'
    ]
  ]

  -- What both sessions do at their end: the date is written and the line closed.
  abbrev pub session_end : List ℕ → Bool → Sess D S → Sess D S
  session_end dtime is_same x =
      let (_, d) = dev.write_sys_info x.dev dtime in
      record x { dev = (dev.disconnect (if is_same then d else x.dev)).1 }

  abbrev pub import_ended : List ℕ → Option (ℤ × Bool × Sess D S) → Option (ℤ × Sess D S)
  import_ended dtime none = none
  import_ended dtime (some (rval, is_same, x)) = some (rval, session_end dtime is_same x)

  unfoldable pub ic35import : List ℕ → List ℕ → Sess D S → Option (ℤ × Sess D S)
  ic35import fileids dtime x =
      let (rval, d) = dev.connect x.dev in
      let run = import_files fileids true (record x { dev = d }) in
      if not (is_ok rval) then some (rval, record x { dev = d }) else import_ended dtime run

  unfoldable pub sync_files : ℕ → List ℕ → Sess D S → Option (ℤ × Sess D S)
  sync_files stray [] x = some (ok, x)
  sync_files stray (fileid ∷ fileids) x = elim (syncfile dev pim rounds stray fileid x) [
    | none ↦ none
    | some (rval, x') ↦ elim (is_ok rval) [
      | true ↦ sync_files stray fileids x'
      | false ↦ some (rval, x')
    ]
  ]

  abbrev pub sync_ended : List ℕ → Option (ℤ × Sess D S) → Option (ℤ × Sess D S)
  sync_ended dtime none = none
  sync_ended dtime (some (rval, x)) = some (rval, session_end dtime (is_ok rval) x)

  unfoldable pub ic35sync : ℕ → List ℕ → List ℕ → Sess D S → Option (ℤ × Sess D S)
  ic35sync stray fileids dtime x =
      let (rval, d) = dev.connect x.dev in
      let run = sync_files stray fileids (record x { dev = d }) in
      if not (is_ok rval) then some (rval, record x { dev = d }) else sync_ended dtime run
