-- ===== src/Card/Trees.antt =====
-- src/ic35mgr.c: mmcgettree(), and the commands on a path: ic35mmcget(), ic35mmcput(), ic35mmcdel()
-- and ic35mmcgettree(). The tree of local directories that mmcputtree() walks is I/O.
use ic35link.Base.{
  ℕ, zero, suc, ◌-◌, Bool, false, Option, none, some, List, [], ◌∷◌, ◌++◌, ◌==◌, ◌||◌, not,
  if◌then◌else◌,
}
use ic35link.Base.Int.{ℤ, pos, ok, err, is_neg}
use ic35link.Com.{Port}
use ic35link.Mgr.{equals}
use ic35link.Mmc.Calls.{FileInfo}
use ic35link.Card.Link.{mconnect, mdisconnect, mmc_status}
use ic35link.Card.Dir.{DirEntry, MmcDir, mmc_opendir, mmc_readdir, mmc_closedir}
use ic35link.Card.File.{MmcFile, mmc_delfile}
use ic35link.Card.Backup.{same_bytes}
use ic35link.Card.Path.{ic35mmcpath}
use ic35link.Card.Program.{first_error, mmcput}

-- What mmcget() of a path returns: the value, what was written to the local file, and the line.
abbrev pub Get : Type 0
Get = Port → List ℕ → Option (ℤ × List ℕ × Port)

-- The files that were read from a tree, each with its path.
abbrev pub Files : Type 0
Files = List (List ℕ × List ℕ)

-- What is read of an entry at a path: all below a directory, or a file, whose errors are not
-- looked at.
abbrev pub got_tree : ℤ → Files → Option (ℤ × Files × Port) → Option (ℤ × Files × Port)
got_tree rval out none = none
got_tree rval out (some (rc, below, p)) = some (first_error rval rc, out ++ below, p)

abbrev pub got_file : ℤ → Files → List ℕ → Option (ℤ × List ℕ × Port) → Option (ℤ × Files × Port)
got_file rval out path none = none
got_file rval out path (some (rc, bytes, p)) = some (rval, out ++ (path, bytes) ∷ [], p)

unfoldable pub get_entry :
    Get
    → (Port → List ℕ → Option (ℤ × Files × Port))
    → List ℕ
    → DirEntry
    → ℤ
    → Files
    → Port
    → Option (ℤ × Files × Port)
get_entry get sub path e rval out p =
    let tree = got_tree rval out (sub p path) in
    let file = got_file rval out path (get p path) in
    if e.attr == 0x10
    then (if same_bytes e.name (b'.' ∷ b'.' ∷ []) then some (rval, out, p) else tree)
    else if e.attr == 0x20
    then file
    else some (rval, out, p)

module _ (behind : List ℕ) where
  -- The loop over a directory, and its end; `sub` reads a directory below.
  unfoldable pub tree_loop :
      FileInfo
      → Get
      → (Port → List ℕ → Option (ℤ × Files × Port))
      → List ℕ
      → ℕ
      → ℤ
      → Files
      → Port
      → MmcDir
      → Option (ℤ × Files × Port)
  tree_loop info get sub dirpath zero rval out p d = none
  tree_loop info get sub dirpath (suc rounds) rval out p d =
      let (found, d', q) = mmc_readdir behind info p d in
      elim found [
        | none ↦ let (rc, r) = mmc_closedir behind q d' in some (first_error rval rc, out, r)
        | some e ↦ elim (get_entry get sub (dirpath ++ b'\\' ∷ e.name) e rval out q) [
          | none ↦ none
          | some (rval', out', r) ↦ tree_loop info get sub dirpath rounds rval' out' r d'
        ]
      ]

  -- `depth` bounds the depth of the tree.
  unfoldable pub mmcgettree :
      ℕ → FileInfo → MmcDir → Get → Port → List ℕ → Option (ℤ × Files × Port)
  mmcgettree zero info fresh get p dirpath = none
  mmcgettree (suc depth) info fresh get p dirpath =
      let (opened, q) = mmc_opendir behind p dirpath fresh in
      elim opened [
        | none ↦ some (err, [], q)
        | some d ↦
            tree_loop info get (λ r sub. mmcgettree depth info fresh get r sub) dirpath
              (suc (d.ndirent - d.dirindex)) ok [] q d
      ]

  module _ (connected : Bool) (hadsignal : ℕ → ℕ) (signal : ℕ) (rbuff : List ℕ) where
    -- After mdisconnect().
    abbrev pub left_card : {A : Type 0} → Option (ℤ × A × Port) → Option (ℤ × A × Port)
    left_card none = none
    left_card (some (rval, x, p)) = some (rval, x, (mdisconnect p).1)

    -- The path is checked before the connection is made, the card after it.
    abbrev pub card_of : ℤ → ℕ
    card_of (pos n) = n
    card_of n = 0

    -- The local file that was written; a card that is not there is an error.
    unfoldable pub ic35mmcget : Get → Port → List ℕ → Option (ℤ × List ℕ × Port)
    ic35mmcget get p ic35path =
        let (num, path) = ic35mmcpath ic35path in
        let (rval, _, p1) = mconnect connected hadsignal signal rbuff false p in
        let (present, p2) = mmc_status behind p1 (card_of num) in
        let run = left_card (get p2 path) in
        if is_neg num
        then some (err, [], p)
        else if not (equals rval 0)
        then some (rval, [], p1)
        else if is_neg present || equals present 0
        then some (err, [], (mdisconnect p2).1)
        else run

    unfoldable pub ic35mmcput : Bool → Bool → List (List ℕ) → MmcFile → Port → List ℕ → ℤ × Port
    ic35mmcput opened is_eof bs fresh p ic35path =
        let (num, path) = ic35mmcpath ic35path in
        let (rval, _, p1) = mconnect connected hadsignal signal rbuff false p in
        let (present, p2) = mmc_status behind p1 (card_of num) in
        let (rval', p3) = mmcput behind opened is_eof bs fresh p2 path in
        if is_neg num
        then (err, p)
        else if not (equals rval 0)
        then (rval, p1)
        else if is_neg present || equals present 0
        then (err, (mdisconnect p2).1)
        else (rval', (mdisconnect p3).1)

    unfoldable pub ic35mmcdel : Port → List ℕ → ℤ × Port
    ic35mmcdel p ic35path =
        let (num, path) = ic35mmcpath ic35path in
        let (rval, _, p1) = mconnect connected hadsignal signal rbuff false p in
        let (present, p2) = mmc_status behind p1 (card_of num) in
        let (rval', p3) = mmc_delfile behind p2 path in
        if is_neg num
        then (err, p)
        else if not (equals rval 0)
        then (rval, p1)
        else if is_neg present
        then (present, (mdisconnect p2).1)
        else if equals present 0
        then (err, (mdisconnect p2).1)
        else (rval', (mdisconnect p3).1)

    -- With a path: the tree below it.
    unfoldable pub ic35mmcgettree :
        ℕ → FileInfo → MmcDir → Get → Port → List ℕ → Option (ℤ × Files × Port)
    ic35mmcgettree depth info fresh get p ic35path =
        let (num, path) = ic35mmcpath ic35path in
        let (rval, _, p1) = mconnect connected hadsignal signal rbuff false p in
        let (present, p2) = mmc_status behind p1 (card_of num) in
        let run = left_card (mmcgettree depth info fresh get p2 path) in
        if is_neg num
        then some (err, [], p)
        else if not (equals rval 0)
        then some (rval, [], p1)
        else if is_neg present
        then some (present, [], (mdisconnect p2).1)
        else if equals present 0
        then some (err, [], (mdisconnect p2).1)
        else run
