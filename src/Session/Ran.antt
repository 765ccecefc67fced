-- ===== src/Session/Ran.antt =====
-- What the actions of an import (importfile() in src/ic35sync.c) do, told without its loop.
use ic35link.Base.{ℕ, ◌+◌, ◌≡◌, Bool, true, false, List, [], ◌∷◌, get_or, set}
use ic35link.Base.Int.{ℤ, pos, negsuc}
use ic35link.Record.{Ic35Rec, new_ic35rec}
use ic35link.Rectab.{Ic35Op, RecOp}
use ic35link.Session.{Device, PimOper}
use ic35link.Session.Import.{mark_clean}

-- How many entries have no action for an import.
abbrev pub idle_op : Ic35Op → ℕ
idle_op Ic35Op.noact = 1
idle_op Ic35Op.delete = 1
idle_op Ic35Op.write = 0
idle_op Ic35Op.update = 0
idle_op Ic35Op.commit = 0

abbrev pub idle : List RecOp → ℕ
idle [] = 0
idle (e ∷ es) = idle_op e.op + idle es

module _ {D S : Type 0} (dev : Device D) (pim : PimOper S) where
  -- What an action does with a record: its result, the record and the device.
  abbrev pub Does : ℕ → Ic35Op → D → Ic35Rec → ℤ → Ic35Rec → D → Type 0
  Does fd Ic35Op.commit d r rc r' d' = (dev.commit_frec d fd r.id ≡ (rc, d')) × (r' ≡ r)
  Does fd Ic35Op.update d r rc r' d' = dev.update_frec d fd r ≡ (rc, r', d')
  Does fd Ic35Op.write d r rc r' d' = dev.write_frec d fd r ≡ (rc, r', d')
  Does fd Ic35Op.delete d r rc r' d' = ⊥
  Does fd Ic35Op.noact d r rc r' d' = ⊥

  -- The actions of some entries, one after the other: from a device, the records of the PC and the
  -- records in memory to these afterwards, and whether an action failed. An action that succeeds
  -- marks the record of the PC, one that fails does not, and the next is done all the same.
  pub data Ran (fd : ℕ)
      : List RecOp → D → S → List Ic35Rec → Bool → D → S → List Ic35Rec → Type 0 where
    done : (d : D) (s : S) (heap : List Ic35Rec) → Ran fd [] d s heap false d s heap
    none_to_do :
        (e : RecOp) (es : List RecOp) (d d' : D) (s s' : S) (heap heap' : List Ic35Rec) (bad : Bool)
        → idle_op e.op ≡ 1
        → Ran fd es d s heap bad d' s' heap'
        → Ran fd (e ∷ es) d s heap bad d' s' heap'
    good :
        (e : RecOp) (es : List RecOp) (d d1 d' : D) (s s' : S) (heap heap' : List Ic35Rec)
        (bad : Bool) (n : ℕ) (r : Ic35Rec)
        → Does fd e.op d (get_or heap e.rec new_ic35rec) (pos n) r d1
        → Ran fd es d1 (mark_clean dev pim s e.pim r.id) (set heap e.rec r) bad d' s' heap'
        → Ran fd (e ∷ es) d s heap bad d' s' heap'
    failed :
        (e : RecOp) (es : List RecOp) (d d1 d' : D) (s s' : S) (heap heap' : List Ic35Rec)
        (bad : Bool) (n : ℕ) (r : Ic35Rec)
        → Does fd e.op d (get_or heap e.rec new_ic35rec) (negsuc n) r d1
        → Ran fd es d1 s (set heap e.rec r) bad d' s' heap'
        → Ran fd (e ∷ es) d s heap true d' s' heap'
