-- ===== src/Session/Export.antt =====
-- src/ic35sync.c: ic35status(), exportfile() and ic35export(). new_ic35rec() succeeds; messages are
-- left out.
use ic35link.Base.{
  ℕ, zero, suc, Bool, false, Option, none, some, List, [], ◌∷◌, ◌==◌, not, if◌then◌else◌,
}
use ic35link.Base.Int.{ℤ, pos, negsuc, ok, err, is_neg}
use ic35link.Record.{Ic35Rec, new_ic35rec}
use ic35link.Record.Ids.{ic35fname, fileaddr, filememo, filetodo, filesched}
use ic35link.Session.{Device, PimOper}

abbrev pub is_ok : ℤ → Bool
is_ok (pos n) = n == 0
is_ok (negsuc n) = false

module _ {D : Type 0} (dev : Device D) where
  -- One file of ic35status(): what a message would show is left out.
  unfoldable pub status_file : D → ℕ → ℤ × D
  status_file d fd =
      let (nrec, d1) = dev.get_flen d fd in
      let (nmod, d2) = dev.get_mod_flen d1 fd in
      let after = if is_neg nrec then d1 else d2 in
      let rval = if is_neg nrec then err else if is_neg nmod then err else ok in
      (rval, (dev.close_file after fd).1)

  unfoldable pub status_opened : ℤ × D → ℤ × D
  status_opened (negsuc n, d) = (err, d)
  status_opened (pos fd, d) = status_file d fd

  unfoldable pub status_named : D → Option (List ℕ) → ℤ × D
  status_named d none = (err, d)
  status_named d (some fname) = status_opened (dev.open_file d fname)

  unfoldable pub status_files : List ℕ → D → ℤ × D
  status_files [] d = (ok, d)
  status_files (fileid ∷ fileids) d =
      let (rval, d1) = status_named d (ic35fname fileid) in
      let rest = status_files fileids d1 in if not (is_ok rval) then (rval, d1) else rest

  unfoldable pub ic35status : List ℕ → D → ℤ × D
  ic35status fileids d =
      let (rval, d1) = dev.connect d in
      let (rval', d2) = status_files fileids d1 in
      if not (is_ok rval) then (rval, d1) else (rval', (dev.disconnect d2).1)

module _ {D S : Type 0} (dev : Device D) (pim : PimOper S) where
  -- The loop of exportfile(): `left` records from `irec` on are to be read into `rec`.
  unfoldable pub export_loop : ℕ → ℕ → ℕ → D → S → Ic35Rec → ℤ × D × S
  export_loop zero irec fd d s rec = (ok, d, s)
  export_loop (suc left) irec fd d s rec =
      let (rlen, rec', d') = dev.read_frec d fd irec rec in
      let (s', rec'') = pim.putic35rec s rec' in
      let rest = export_loop left (suc irec) fd d' s' rec'' in
      if is_neg rlen then (err, d', s) else rest

  unfoldable pub export_counted : ℕ → S → ℤ × D → ℤ × D × S
  export_counted fd s (negsuc n, d) = (err, (dev.close_file d fd).1, s)
  export_counted fd s (pos nrec, d) =
      let (rval, d', s') = export_loop nrec 0 fd d s new_ic35rec in
      (rval, (dev.close_file d' fd).1, s')

  unfoldable pub export_opened : S → ℤ × D → ℤ × D × S
  export_opened s (negsuc n, d) = (err, d, s)
  export_opened s (pos fd, d) = export_counted fd s (dev.get_flen d fd)

  unfoldable pub export_named : D → S → Option (List ℕ) → ℤ × D × S
  export_named d s none = (err, d, s)
  export_named d s (some fname) = export_opened s (dev.open_file d fname)

  unfoldable pub exportfile : ℕ → D → S → ℤ × D × S
  exportfile fileid d s = export_named d s (ic35fname fileid)

  unfoldable pub export_files : List ℕ → D → S → ℤ × D × S
  export_files [] d s = (ok, d, s)
  export_files (fileid ∷ fileids) d s =
      let (rval, d1, s1) = exportfile fileid d s in
      let rest = export_files fileids d1 s1 in if not (is_ok rval) then (rval, d1, s1) else rest

  unfoldable pub ic35export : List ℕ → D → S → ℤ × D × S
  ic35export fileids d s =
      let (rval, d1) = dev.connect d in
      let (rval', d2, s') = export_files fileids d1 s in
      if not (is_ok rval) then (rval, d1, s) else (rval', (dev.disconnect d2).1, s')

-- The files of a session, in their order.
abbrev pub all_fileids : List ℕ
all_fileids = fileaddr ∷ filememo ∷ filesched ∷ filetodo ∷ []
