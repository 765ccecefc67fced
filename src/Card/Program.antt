-- ===== src/Card/Program.antt =====
-- src/ic35mgr.c: mmcget(), mmcput() and mmcdirlist(). malloc() succeeds; what is printed is left out,
-- but for the list of a directory.
use ic35link.Base.{
  ℕ, zero, suc, ◌-◌, ◌/◌, ◌%◌, Bool, true, false, Option, none, some, List, [], ◌∷◌, ◌++◌, ◌==◌,
  ◌&&◌, not, if◌then◌else◌, leb,
}
use ic35link.Base.Int.{ℤ, ok, err}
use ic35link.Com.{Port}
use ic35link.Mgr.{equals}
use ic35link.Mmc.Calls.{FileInfo}
use ic35link.Card.Dir.{DirEntry, MmcDir, mmc_opendir, mmc_readdir, mmc_closedir}
use ic35link.Card.File.{
  MmcFile, mmc_openfile, mmc_statfile, mmc_closefile, Copied, get_loop, put_loop,
}
use ic35link.Card.Backup.{same_bytes}

-- A line of a directory list: the directory and the entry.
pub record Listed : Type 0 where
  pub dirpath : List ℕ
  pub dirent : DirEntry

-- The size of the buffer when `blocksize` was given, else a default.
abbrev pub buffer_size : ℕ → ℕ → ℕ
buffer_size default blocksize =
    if leb 1 blocksize && leb blocksize 16350 then blocksize else default

-- Whether an entry is a directory that is listed in turn.
abbrev pub is_subdir : DirEntry → Bool
is_subdir e = e.attr / 16 % 2 == 1 && not (same_bytes e.name (b'.' ∷ b'.' ∷ []))

abbrev pub first_error : ℤ → ℤ → ℤ
first_error rval rc = if equals rval 0 then rc else rval

module _ (behind : List ℕ) where
  abbrev pub closed_after : ℤ → List ℕ → MmcFile → Port → ℤ × List ℕ × Port
  closed_after rval out fp p = (rval, out, (mmc_closefile behind p fp).1)

  abbrev pub get_ended : Copied → Option (ℤ × List ℕ × Port)
  get_ended none = none
  get_ended (some (rlen, all, out, fp, p)) =
      some (closed_after (if equals rlen 0 && all then ok else err) out fp p)

  -- `opened` is whether the local file could be opened; the value stays OK when it could not.
  unfoldable pub get_stated :
      Bool
      → ℕ
      → ℕ
      → (ℕ → Bool)
      → ℕ
      → List ℕ
      → Option DirEntry × MmcFile × Port
      → Option (ℤ × List ℕ × Port)
  get_stated opened rounds stack writes blen buff (none, fp, p) = some (closed_after err [] fp p)
  get_stated opened rounds stack writes blen buff (some dirent, fp, p) =
      let copied = get_loop rounds behind stack writes p fp buff blen [] in
      if not opened then some (closed_after ok [] fp p) else get_ended copied

  unfoldable pub get_opened :
      Bool
      → ℕ
      → ℕ
      → FileInfo
      → (ℕ → Bool)
      → ℕ
      → List ℕ
      → Option MmcFile × Port
      → Option (ℤ × List ℕ × Port)
  get_opened opened rounds stack info writes blen buff (none, p) = some (err, [], p)
  get_opened opened rounds stack info writes blen buff (some fp, p) =
      get_stated opened rounds stack writes blen buff (mmc_statfile behind info p fp)

  -- What was written to the local file is returned with the value; `none` when `rounds` rounds of
  -- the copying loop are not enough.
  unfoldable pub mmcget :
      Bool
      → ℕ
      → ℕ
      → FileInfo
      → (ℕ → Bool)
      → ℕ
      → List ℕ
      → MmcFile
      → Port
      → List ℕ
      → Option (ℤ × List ℕ × Port)
  mmcget opened rounds stack info writes blocksize buff fresh p ic35path =
      get_opened opened rounds stack info writes (buffer_size 5120 blocksize) buff
        (mmc_openfile behind p ic35path 1 fresh)

  -- `bs` are the blocks that fread() gives, `is_eof` is whether it ended at the end of the file.
  unfoldable pub put_opened : Bool → Bool → List (List ℕ) → Option MmcFile × Port → ℤ × Port
  put_opened opened is_eof bs (none, p) = (err, p)
  put_opened opened is_eof bs (some fp, p) =
      let (all, fp', q) = put_loop behind p fp bs in
      if not opened
      then (ok, (mmc_closefile behind p fp).1)
      else (if all && is_eof then ok else err, (mmc_closefile behind q fp').1)

  unfoldable pub mmcput : Bool → Bool → List (List ℕ) → MmcFile → Port → List ℕ → ℤ × Port
  mmcput opened is_eof bs fresh p ic35path =
      put_opened opened is_eof bs (mmc_openfile behind p ic35path 0 fresh)

  -- The loop over a directory, and its end; `sub` lists a directory below.
  unfoldable pub list_loop :
      FileInfo
      → (Port → List ℕ → Option (ℤ × List Listed × Port))
      → List ℕ
      → ℕ
      → ℤ
      → List Listed
      → Port
      → MmcDir
      → Option (ℤ × List Listed × Port)
  list_loop info sub dirpath zero rval out p d = none
  list_loop info sub dirpath (suc rounds) rval out p d =
      let (found, d', q) = mmc_readdir behind info p d in
      elim found [
        | none ↦ let (rc, r) = mmc_closedir behind q d' in some (first_error rval rc, out, r)
        | some e ↦
            let out' = out ++ record { dirpath = dirpath; dirent = e } ∷ [] in
            elim (is_subdir e) [
              | false ↦ list_loop info sub dirpath rounds rval out' q d'
              | true ↦ elim (sub q (dirpath ++ b'\\' ∷ e.name)) [
                | none ↦ none
                | some (rc, below, r) ↦
                    list_loop info sub dirpath rounds (first_error rval rc) (out' ++ below) r d'
              ]
            ]
      ]

  -- `depth` bounds the depth of the tree; a directory has at most 65535 entries.
  unfoldable pub mmcdirlist :
      ℕ → FileInfo → MmcDir → Port → List ℕ → Option (ℤ × List Listed × Port)
  mmcdirlist zero info fresh p dirpath = none
  mmcdirlist (suc depth) info fresh p dirpath =
      let (opened, q) = mmc_opendir behind p dirpath fresh in
      elim opened [
        | none ↦ some (err, [], q)
        | some d ↦
            list_loop info (λ r sub. mmcdirlist depth info fresh r sub) dirpath
              (suc (d.ndirent - d.dirindex)) ok [] q d
      ]
