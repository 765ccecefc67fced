-- ===== src/Session/Syncfile.antt =====
-- src/ic35sync.c: syncfile() and ic35sync(), which put the phases together. `rounds` bounds the
-- loops of each phase, `stray` is the byte behind raw data; `none` when the rounds are not enough or
-- a read of the PC records is undefined.
use ic35link.Base.{
  ℕ, Bool, true, false, Option, none, some, List, [], ◌&&◌, not, if◌then◌else◌, ltb,
}
use ic35link.Base.Int.{ℤ, pos, negsuc, ok, err}
use ic35link.Record.{new_ic35rec}
use ic35link.Record.Ids.{ic35fname}
use ic35link.Rectab.{Table}
use ic35link.Session.{Device, PimOper}
use ic35link.Session.Export.{exportfile, is_ok}
use ic35link.Session.Sync.{Sess, act_loop, is_commit, is_delete, sync_mod, send_all, check_all}

module _ {D S : Type 0} (dev : Device D) (pim : PimOper S) (rounds stray fileid : ℕ) where
  abbrev pub Ended : Type 0
  Ended = Option (ℤ × Sess D S)

  -- close_file() and the value.
  abbrev pub file_closed : ℕ → ℤ → Sess D S → Ended
  file_closed fd rval x = some (rval, record x { dev = (dev.close_file x.dev fd).1 })

  -- The same after _del_ic35recs().
  abbrev pub closed : ℕ → ℤ → Sess D S → Ended
  closed fd rval x = some (rval, record x { dev = (dev.close_file x.dev fd).1; table = [] })

  abbrev pub end_deletes : ℕ → Sess D S → Option (ℤ × D × Table) → Ended
  end_deletes fd x none = none
  end_deletes fd x (some (rval, d, t)) = closed fd rval (record x { dev = d })

  -- Phase 3.
  unfoldable pub phase3 : ℕ → Sess D S → ℤ × D → Ended
  phase3 fd x (negsuc n, d) = file_closed fd err (record x { dev = d })
  phase3 fd x (pos nrec, d) =
      let (rval, n_delete, x') = check_all dev pim nrec 0 fd 0 (record x { dev = d }) in
      let delete = λ (e : D) (recid : ℕ). dev.delete_frec e fd recid in
      let deleted = act_loop rounds delete is_delete x'.heap x'.dev x'.table in
      if is_ok rval && ltb 0 n_delete then end_deletes fd x' deleted else closed fd rval x'

  -- Phase 2, and what follows.
  abbrev pub after_sent : ℕ → Ended → Ended
  after_sent fd none = none
  after_sent fd (some (rval, x)) =
      if is_ok rval then phase3 fd x (dev.get_flen x.dev fd) else file_closed fd err x

  unfoldable pub phase2 : ℕ → Sess D S → Ended
  phase2 fd x = after_sent fd (
      send_all dev pim rounds stray fileid fd new_ic35rec
        (record x { pim = pim.rewind x.pim; table = [] }))

  -- Phase 1b: the end of the commits.
  abbrev pub end_commits : Bool → ℕ → Sess D S → Option (ℤ × D × Table) → Ended
  end_commits initexp fd x none = none
  end_commits initexp fd x (some (rval, d, t)) =
      if not (is_ok rval)
      then closed fd rval (record x { dev = d })
      else if initexp
      then closed fd ok (record x { dev = d })
      else phase2 fd (record x { dev = d })

  unfoldable pub phase1 : Bool → ℕ → Sess D S → ℤ × D → Ended
  phase1 initexp fd x (negsuc n, d) = file_closed fd err (record x { dev = d })
  phase1 initexp fd x (pos nrec, d) =
      let (rval, n_commit, x') = sync_mod dev pim nrec fd 0 (record x { dev = d }) in
      let commit = λ (e : D) (recid : ℕ). dev.commit_frec e fd recid in
      let committed = act_loop rounds commit is_commit x'.heap x'.dev x'.table in
      let unchanged = some (rval, x'.dev, x'.table) in
      end_commits initexp fd x' (if is_ok rval && ltb 0 n_commit then committed else unchanged)

  unfoldable pub sync_opened : Bool → Sess D S → ℤ × D → Ended
  sync_opened initexp x (negsuc n, d) = some (err, record x { dev = d })
  sync_opened initexp x (pos fd, d) = phase1 initexp fd x (dev.get_mod_flen d fd)

  -- Phase 0: with no records on the PC all are exported first.
  unfoldable pub phase0 : List ℕ → Sess D S → Option (Option ℕ × S) → Ended
  phase0 fname x none = none
  phase0 fname x (some (some h, s)) =
      sync_opened false (record x { pim = s }) (dev.open_file x.dev fname)
  phase0 fname x (some (none, s)) =
      let (rval, d, s') = exportfile dev pim fileid x.dev s in
      let x' = record x { dev = d; pim = s' } in
      if is_ok rval then sync_opened true x' (dev.open_file d fname) else some (rval, x')

  unfoldable pub sync_named : Sess D S → Option (List ℕ) → Ended
  sync_named x none = some (err, x)
  sync_named x (some fname) = phase0 fname x (pim.getrec (pim.rewind x.pim) fileid)

  unfoldable pub syncfile : Sess D S → Ended
  syncfile x = sync_named x (ic35fname fileid)
