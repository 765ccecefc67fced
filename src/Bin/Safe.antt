-- ===== src/Bin/Safe.antt =====
-- Which sequences of the operations of databin.c keep bin_getrec() away from freed memory.
use ic35link.Base.{
  ℕ, suc, ◌≡◌, ◌≢◌, ◌↔◌, refl, ap, ◌∙◌, Bool, true, false, Option, none, some, List, [], ◌∷◌, ◌==◌,
  arith, Bool-cases, inl, inr, All, ◌<◌,
}
use ic35link.Record.{Ic35Rec, new_ic35rec, set_ic35recid}
use ic35link.Bin.{
  Elmt, Bin, bin_rewind, first_in_file, at_of, from, look, bin_getrec, unlink, bin_delrec, change,
  insert_in_file, put_found, bin_putic35rec, bin_set_recid, set_recstat, bin_set_recstat,
  bin_getrec_byid, copy_rec, bin_updic35rec,
}
use ic35link.Bin.Opened.{open-IsBin, close-IsBin}
use ic35link.Bin.Disk.{Source, bin_open, bin_close}
use ic35link.Record.Ids.{file_id}
use ic35link.Bin.Walk.{IsDistinct, Others}
use ic35link.Bin.Places.{
  reads, IsBin, getrec_none, unlink-IsDistinct, here-unlink_self, here-unlink_ne, first-here,
  from-here, here-change, All-change, change-IsDistinct, All-unlink, All-insert, here-insert,
  insert-IsDistinct,
}

-- One call of an operation that changes the list, with any arguments and whatever the files hold. A
-- caller deletes a record only when the read position is elsewhere. bin_updic35rec() may rebuild the
-- data of the record at `at`.
pub data Call : Bin → Bin → Type 0 where
  opened :
      (s : Bin) (stray : ℕ) (iomode fname : List ℕ) (source : Source)
      → Call s (bin_open stray s iomode fname source).1
  closed :
      (s : Bin) (iomode fname : List ℕ) (can_write : Bool)
      → Call s (bin_close s iomode fname can_write).1
  updic35rec :
      (s : Bin) (stray at : ℕ) (r : Ic35Rec)
      → Call s (record s {
        binlist = change at (λ old. (bin_updic35rec stray (some r) old).0) s.binlist;
      })
  rewind : (s : Bin) → Call s (bin_rewind s)
  getrec : (s s' : Bin) (f : ℕ) (o : Option Elmt) → bin_getrec s f ≡ some (o, s') → Call s s'
  putic35rec : (s : Bin) (stray : ℕ) (r : Ic35Rec) → Call s (bin_putic35rec stray s r).0
  delrec : (s : Bin) (at : ℕ) → s.binget ≢ some at → Call s (bin_delrec s at)
  set_recid : (s : Bin) (at recid : ℕ) → Call s (bin_set_recid s at recid)
  set_stat : (s : Bin) (at stat : ℕ) → Call s (bin_set_recstat s at stat)

reads-change :
    (get : Option ℕ) (at : ℕ) (f : Ic35Rec → Ic35Rec) (es : List Elmt)
    → reads get (change at f es) ≡ reads get es
reads-change none at f es = refl
reads-change (some x) at f es = here-change at x f es

change-IsBin :
    (s : Bin) (at : ℕ) (f : Ic35Rec → Ic35Rec)
    → IsBin s
    → IsBin (record s { binlist = change at f s.binlist })
change-IsBin s at f w = (
  change-IsDistinct at f s.binlist w.0,
  All-change (λ x. x < s.next_at) at f s.binlist w.1,
  reads-change s.binget at f s.binlist ∙ w.2,
)

All-below :
    (n : ℕ) (es : List Elmt) → All (λ e. e.at < n) es → Others n es × All (λ e. e.at < suc n) es
All-below n [] h = (tt, tt)
All-below n (e ∷ es) h = let (a, b) = All-below n es h.1 in ((omega arith, a), (omega arith, b))

reads-insert :
    (get : Option ℕ) (f : ℕ) (new : Elmt) (es : List Elmt)
    → reads get es ≡ true
    → reads get (insert_in_file f new es) ≡ true
reads-insert none f new es h = refl
reads-insert (some x) f new es h = here-insert f x new es h

put-IsBin :
    (stray : ℕ) (s : Bin) (r : Ic35Rec) (o : Option Elmt)
    → IsBin s
    → IsBin (put_found stray s r o).0
unfolding put_found
put-IsBin stray s r (some e) w = change-IsBin s e.at (λ old. (copy_rec stray e.rec r).1) w
put-IsBin stray s r none w =
    let (away, below) = All-below s.next_at s.binlist w.1 in
    let new : Elmt = record { at = s.next_at; rec = (copy_rec stray new_ic35rec r).1 } in
    (
      insert-IsDistinct (file_id r.id) new s.binlist away w.0,
      All-insert (λ x. x < suc s.next_at) (file_id r.id) new s.binlist (omega arith) below,
      reads-insert s.binget (file_id r.id) new s.binlist w.2,
    )

unlink-IsBin :
    (s : Bin) (get : Option ℕ) (at : ℕ)
    → IsDistinct s.binlist
    → get ≢ some at
    → reads get s.binlist ≡ true
    → reads get (unlink at s.binlist) ≡ true
unlink-IsBin s none at d n h = refl
unlink-IsBin s (some x) at d n h = here-unlink_ne at x s.binlist (λ q. n (ap some q)) ∙ h

reads-found :
    (s : Bin) (f : ℕ) (o : Option Elmt) (rest : List Elmt)
    → from s.binget s.binlist ≡ some rest
    → first_in_file f rest ≡ o
    → reads (at_of o) s.binlist ≡ true
reads-found s f none rest h e = refl
reads-found s f (some x) rest h e = from-here s.binget x.at s.binlist rest h (first-here f rest x e)

abbrev list_of : Bin → Option (Option Elmt × Bin) → Bin
list_of s none = s
list_of s (some (o, s')) = s'

look-IsBin :
    (s s' : Bin) (f : ℕ) (o : Option Elmt) (found : Option (List Elmt))
    → IsBin s
    → from s.binget s.binlist ≡ found
    → look s f found ≡ some (o, s')
    → IsBin s'
unfolding look
look-IsBin s s' f o none w h e = absurd (ground arith)
look-IsBin s s' f o (some rest) w h e =
    rw (← ap (list_of s) e) (w.0, w.1, reads-found s f (first_in_file f rest) rest h refl)

-- Every call of an operation keeps the list and its read position in order, when no record is
-- deleted at the read position.
pub Call-IsBin : (s s' : Bin) → Call s s' → IsBin s → IsBin s'
unfolding bin_rewind bin_getrec bin_putic35rec bin_delrec bin_set_recid bin_set_recstat
Call-IsBin s s' (opened _ stray iomode fname source) w = open-IsBin stray s iomode fname source
Call-IsBin s s' (closed _ iomode fname can_write) w = close-IsBin s iomode fname can_write w
Call-IsBin s s' (updic35rec _ stray at r) w =
    change-IsBin s at (λ old. (bin_updic35rec stray (some r) old).0) w
Call-IsBin s s' (rewind _) w = (w.0, w.1, refl)
Call-IsBin s s' (getrec _ _ f o e) w = look-IsBin s s' f o (from s.binget s.binlist) w refl e
Call-IsBin s s' (putic35rec _ stray r) w = put-IsBin stray s r (bin_getrec_byid s r.id) w
Call-IsBin s s' (delrec _ at n) w = (
  unlink-IsDistinct at s.binlist w.0,
  All-unlink (λ x. x < s.next_at) at s.binlist w.1,
  unlink-IsBin s s.binget at w.0 n w.2,
)
Call-IsBin s s' (set_recid _ at recid) w = change-IsBin s at (λ r. set_ic35recid r recid) w
Call-IsBin s s' (set_stat _ at stat) w = change-IsBin s at (λ r. set_recstat r stat) w

-- Any number of calls.
pub data Calls : Bin → Bin → Type 0 where
  done : (s : Bin) → Calls s s
  more : (s s' s'' : Bin) → Call s s' → Calls s' s'' → Calls s s''

-- Whatever operations are called on a list that is in order, in any order and with whatever files,
-- bin_getrec() never reads a freed element, when no record was deleted while it was at the read
-- position.
pub bin_getrec_safe : (s s' : Bin) (fileid : ℕ) → Calls s s' → IsBin s → bin_getrec s' fileid ≢ none
bin_getrec_safe s s' fileid (done _) w =
    λ e. absurd (ground (arith, w.2, (getrec_none s' fileid).0 e))
bin_getrec_safe s s' fileid (more _ t _ c cs) w =
    bin_getrec_safe t s' fileid cs (Call-IsBin s t c w)

reads-unlink :
    (get : Option ℕ) (at : ℕ) (es : List Elmt)
    → IsDistinct es
    → reads get es ≡ true
    → (reads get (unlink at es) ≡ false) ↔ (get ≡ some at)
reads-unlink none at es d h = ground arith
reads-unlink (some x) at es d h = elim (Bool-cases (x == at)) [
  | inl t ↦ let q : x ≡ at = ground arith in (λ _. ap some q, λ _. rw q (here-unlink_self at es d))
  | inr n ↦ let q : x ≢ at = ground arith in ground (arith, here-unlink_ne at x es q)
]

-- After a record was deleted from a list that is in order, the next bin_getrec() reads a freed
-- element exactly when the record was the one at the read position.
pub bin_getrec-bin_delrec :
    (s : Bin) (at fileid : ℕ)
    → IsBin s
    → (bin_getrec (bin_delrec s at) fileid ≡ none) ↔ (s.binget ≡ some at)
unfolding bin_delrec
bin_getrec-bin_delrec s at fileid w =
    let (a, b) = getrec_none (bin_delrec s at) fileid in
    let (c, d) = reads-unlink s.binget at s.binlist w.0 w.2 in (λ e. c (a e), λ e. b (d e))
