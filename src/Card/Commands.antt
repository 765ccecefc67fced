-- ===== src/Card/Commands.antt =====
-- src/ic35mgr.c: the commands of the manager program, with what mconnect() needs as parameters.
-- Messages are left out, the label and the entries that a list shows are returned.
use ic35link.Base.{
  ℕ, ◌+◌, Bool, true, false, Option, none, some, List, [], ◌∷◌, ◌++◌, not, if◌then◌else◌,
}
use ic35link.Base.Int.{ℤ, is_neg}
use ic35link.Com.{Port}
use ic35link.Mgr.{equals}
use ic35link.Mmc.{mmcard_text}
use ic35link.Mmc.Calls.{FileInfo}
use ic35link.Card.Link.{mconnect, mdisconnect, mmc_status, mmc_label}
use ic35link.Card.Dir.{MmcDir}
use ic35link.Card.Backup.{readdatabase, writedatabase}
use ic35link.Card.Program.{Listed, mmcdirlist}

-- `connected`, `hadsignal`, `signal` and `rbuff` are for mconnect().
module _ (connected : Bool) (hadsignal : ℕ → ℕ) (signal : ℕ) (rbuff : List ℕ) where
  -- The file that was written, with the value.
  unfoldable pub ic35backup : Bool → (ℕ → Bool) → List ℕ → Port → ℤ × List ℕ × Port
  ic35backup opened writes buff p =
      let (rval, _, p1) = mconnect connected hadsignal signal rbuff false p in
      let (rval', out, p2) = readdatabase opened writes p1 buff in
      if not (equals rval 0) then (rval, [], p1) else (rval', out, (mdisconnect p2).1)

  unfoldable pub ic35restore : Bool → List ℕ → List ℕ → Port → ℤ × Port
  ic35restore opened buff file p =
      let (rval, _, p1) = mconnect connected hadsignal signal rbuff false p in
      let (rval', p2) = writedatabase opened p1 buff file in
      if not (equals rval 0) then (rval, p1) else (rval', (mdisconnect p2).1)

  -- State and label of the memory cards `nums`; `rval` is the value so far.
  unfoldable pub stat_cards : List ℕ → List ℕ → ℤ → List ℕ → Port → ℤ × Port
  stat_cards behind [] rval label p = (rval, p)
  stat_cards behind (mmcnum ∷ nums) rval label p =
      let (present, p1) = mmc_status behind p mmcnum in
      let (labelled, label', p2) = mmc_label behind p1 mmcnum label in
      let absent = stat_cards behind nums present label p1 in
      let rest = stat_cards behind nums labelled label' p2 in
      if is_neg present
      then (present, p1)
      else if equals present 0
      then absent
      else if is_neg labelled
      then (labelled, p2)
      else rest

  -- The status block is written to a file when there is one.
  unfoldable pub ic35mgrstat : List ℕ → Bool → List ℕ → Port → ℤ × List ℕ × Port
  ic35mgrstat behind with_file label p =
      let (rval, block, p1) = mconnect connected hadsignal signal rbuff with_file p in
      let (rval', p2) = stat_cards behind (1 ∷ 2 ∷ []) rval label p1 in
      if not (equals rval 0) then (rval, [], p1) else (rval', block, (mdisconnect p2).1)

  abbrev pub card_path : ℕ → List ℕ
  card_path mmcnum = mmcard_text ++ (b'0' + mmcnum) ∷ []

  -- What is shown: a label and the entries below each card.
  abbrev pub Shown : Type 0
  Shown = List (List ℕ × List Listed)

  -- The directories of the memory cards `nums`, with the label that is shown for each; the label is
  -- that of the first card, whichever card is listed.
  unfoldable pub list_cards :
      List ℕ
      → ℕ
      → FileInfo
      → MmcDir
      → List ℕ
      → ℤ
      → List ℕ
      → Shown
      → Port
      → Option (ℤ × Shown × Port)
  list_cards behind depth info fresh [] rval label out p = some (rval, out, p)
  list_cards behind depth info fresh (mmcnum ∷ nums) rval label out p =
      let (present, p1) = mmc_status behind p mmcnum in
      let (labelled, label', p2) = mmc_label behind p1 1 label in
      let absent = list_cards behind depth info fresh nums present label out p1 in
      let listed : Option (ℤ × Shown × Port) =
        elim (mmcdirlist behind depth info fresh p2 (card_path mmcnum)) [
          | none ↦ none
          | some (rc, entries, p3) ↦
              let out' = out ++ (label', entries) ∷ [] in
              elim (is_neg rc) [
                | true ↦ some (rc, out', p3)
                | false ↦ list_cards behind depth info fresh nums rc label' out' p3
              ]
        ] in
      if is_neg present
      then some (present, out, p1)
      else if equals present 0
      then absent
      else if is_neg labelled
      then some (labelled, out, p2)
      else listed

  abbrev pub dir_ended : Option (ℤ × Shown × Port) → Option (ℤ × Shown × Port)
  dir_ended none = none
  dir_ended (some (rval, out, p)) = some (rval, out, (mdisconnect p).1)

  unfoldable pub ic35mmcdir :
      List ℕ → ℕ → FileInfo → MmcDir → List ℕ → Port → Option (ℤ × Shown × Port)
  ic35mmcdir behind depth info fresh label p =
      let (rval, _, p1) = mconnect connected hadsignal signal rbuff false p in
      let run = list_cards behind depth info fresh (1 ∷ 2 ∷ []) rval label [] p1 in
      if not (equals rval 0) then some (rval, [], p1) else dir_ended run
