-- ===== src/Session/Sync.antt =====
-- src/ic35sync.c: syncfile(), phase by phase. new_ic35rec() succeeds; messages are left out; a
-- record that was allocated stands in the list `heap` at its pointer, also when it was freed.
use ic35link.Base.{
  ℕ, zero, suc, Bool, true, false, Option, none, some, List, [], ◌∷◌, ◌++◌, ◌==◌, ◌||◌, not,
  if◌then◌else◌, length, get_or, set,
}
use ic35link.Base.Int.{ℤ, ok, err, is_neg}
use ic35link.Record.{Ic35Rec, new_ic35rec, set_ic35recdata}
use ic35link.Rectab.{Ic35Op, RecOp, Table, put_ic35recs, get_ic35recs}
use ic35link.Session.{Device, PimOper}
use ic35link.Session.Export.{is_ok}
use ic35link.Bin.{pim_clean, pim_del, ic35_new, ic35_mod, ic35_del}

-- The device, the records of the PC, the IC35 records in memory, and the table of actions.
pub record Sess (D : Type 0) (S : Type 0) : Type 0 where
  pub dev : D
  pub pim : S
  pub heap : List Ic35Rec
  pub table : Table

abbrev pub id_at : List Ic35Rec → ℕ → ℕ
id_at heap ptr = (get_or heap ptr new_ic35rec).id

abbrev pub entry : ℕ → Ic35Op → RecOp
entry ptr op = record { rec = ptr; op = op; pim = none }

-- What a round of the loops over the table makes of the entry that was taken out: `more` goes on.
unfoldable pub act_found :
    {D : Type 0}
    → (D → ℕ → ℤ × D)
    → (Ic35Op → Bool)
    → List Ic35Rec
    → D
    → Table
    → (D → Option (ℤ × D × Table))
    → Option RecOp
    → Option (ℤ × D × Table)
act_found act is_op heap d t more none = some (ok, d, t)
act_found act is_op heap d t more (some e) =
    let (rc, d') = act d (id_at heap e.rec) in
    if not (is_op e.op) then more d else if is_neg rc then some (err, d', t) else more d'

-- The loops over the table at the end of phases 1 and 3: `act` commits or deletes the record with
-- an id. `none` when `rounds` are not enough.
unfoldable pub act_loop :
    {D : Type 0}
    → ℕ
    → (D → ℕ → ℤ × D)
    → (Ic35Op → Bool)
    → List Ic35Rec
    → D
    → Table
    → Option (ℤ × D × Table)
act_loop zero act is_op heap d t = none
act_loop (suc rounds) act is_op heap d t =
    let (found, t') = get_ic35recs (id_at heap) t 0 in
    act_found act is_op heap d t' (λ e. act_loop rounds act is_op heap e t') found

abbrev pub is_commit : Ic35Op → Bool
is_commit Ic35Op.commit = true
is_commit op = false

abbrev pub is_delete : Ic35Op → Bool
is_delete Ic35Op.delete = true
is_delete op = false

abbrev pub is_known : Option ℕ → Bool
is_known none = false
is_known (some h) = true

module _ {D S : Type 0} (dev : Device D) (pim : PimOper S) where
  -- Phase 1a, for a record that was changed on the IC35 and stands at `ptr`: whether it is handled.
  abbrev pub unchanged : S → Option ℕ → Bool
  unchanged s none = true
  unchanged s (some h) = pim.recstat s h == pim_clean

  abbrev pub delete_found : S → Option ℕ → S
  delete_found s none = s
  delete_found s (some h) = pim.delrec s h

  unfoldable pub take_over : S → Ic35Rec → Option ℕ → S × Ic35Rec
  take_over s r h =
      if r.chg == ic35_new || r.chg == ic35_mod
      then pim.putic35rec s r
      else if r.chg == ic35_del
      then (delete_found s h, r)
      else (s, r)

  unfoldable pub sync_one : Sess D S → ℕ → Ic35Rec → Bool × Sess D S
  sync_one x ptr r =
      let h = pim.getrec_byid x.pim r.id in
      let (s, r') = take_over x.pim r h in
      let x' = record x {
        pim = s;
        heap = set x.heap ptr r';
        table = put_ic35recs x.table (entry ptr Ic35Op.commit);
      } in
      if unchanged x.pim h then (true, x') else (false, x)

  unfoldable pub sync_mod : ℕ → ℕ → ℕ → Sess D S → ℤ × ℕ × Sess D S
  sync_mod zero fd n_commit x = (ok, n_commit, x)
  sync_mod (suc left) fd n_commit x =
      let (rlen, r, d) = dev.read_mod_frec x.dev fd new_ic35rec in
      let read = record x { dev = d; heap = x.heap ++ r ∷ [] } in
      let (handled, x') = sync_one read (length x.heap) r in
      let rest = sync_mod left fd (if handled then suc n_commit else n_commit) x' in
      if is_neg rlen then (err, n_commit, read) else rest

  -- Phase 2, for one record of the PC: whether it goes on, the record of the phase, the session.
  unfoldable pub send_known : ℕ → ℕ → ℕ → Ic35Rec → Sess D S → ℤ × Ic35Rec × Sess D S
  send_known fd h recid rec x =
      let (rc, r, d) = dev.read_id_frec x.dev fd recid rec in
      let (s, r') = pim.updic35rec x.pim r h in
      let (wc, r'', d') = dev.update_frec d fd r' in
      if is_neg rc
      then (err, r, record x { dev = d })
      else if is_ok rc
      then (ok, r, record x { dev = d })
      else if is_neg wc
      then (err, r'', record x { dev = d'; pim = s })
      else (ok, r'', record x { dev = d'; pim = pim.set_recstat s h pim_clean })

  -- `stray` is the byte behind raw data, which NULL data does not have.
  unfoldable pub send_new : ℕ → ℕ → ℕ → Ic35Rec → Sess D S → ℤ × Ic35Rec × Sess D S
  send_new stray fd h rec x =
      let (s, r) = pim.updic35rec x.pim (set_ic35recdata stray rec []) h in
      let (wc, r', d) = dev.write_frec x.dev fd r in
      if is_neg wc then (err, r', record x { dev = d; pim = s }) else (
        ok,
        r',
        record x { dev = d; pim = pim.set_recstat (pim.set_recid s h r'.id) h pim_clean },
      )

  unfoldable pub send_deleted : ℕ → ℕ → ℕ → Ic35Rec → Sess D S → ℤ × Ic35Rec × Sess D S
  send_deleted fd h recid rec x =
      let (rc, d) = dev.delete_frec x.dev fd recid in
      if recid == 0
      then (ok, rec, x)
      else if is_neg rc
      then (err, rec, record x { dev = d })
      else (ok, rec, record x { dev = d; pim = pim.delrec x.pim h })

  unfoldable pub send_one : ℕ → ℕ → ℕ → Ic35Rec → Sess D S → ℤ × Ic35Rec × Sess D S
  send_one stray fd h rec x =
      let recid = pim.recid x.pim h in
      let stat = pim.recstat x.pim h in
      if stat == pim_clean
      then (ok, rec, x)
      else if stat == pim_del
      then send_deleted fd h recid rec x
      else if not (recid == 0)
      then send_known fd h recid rec x
      else send_new stray fd h rec x

  -- `none` when `rounds` rounds are not enough, or getrec() is undefined.
  unfoldable pub send_all : ℕ → ℕ → ℕ → ℕ → Ic35Rec → Sess D S → Option (ℤ × Sess D S)
  send_all zero stray fileid fd rec x = none
  send_all (suc rounds) stray fileid fd rec x = elim (pim.getrec x.pim fileid) [
    | none ↦ none
    | some (none, s) ↦ some (ok, record x { pim = s })
    | some (some h, s) ↦
        let (rval, rec', x') = send_one stray fd h rec (record x { pim = s }) in
        let rest = send_all rounds stray fileid fd rec' x' in
        if not (is_ok rval) then some (rval, x') else rest
  ]

  -- Phase 3a: the records of the IC35 that the PC does not have are noted.
  unfoldable pub check_all : ℕ → ℕ → ℕ → ℕ → Sess D S → ℤ × ℕ × Sess D S
  check_all zero irec fd n_delete x = (ok, n_delete, x)
  check_all (suc left) irec fd n_delete x =
      let (rlen, r, d) = dev.read_frec x.dev fd irec new_ic35rec in
      let ptr = length x.heap in
      let read = record x { dev = d; heap = x.heap ++ r ∷ [] } in
      let noted = record read { table = put_ic35recs x.table (entry ptr Ic35Op.delete) } in
      let known = check_all left (suc irec) fd n_delete read in
      let unknown = check_all left (suc irec) fd (suc n_delete) noted in
      if is_neg rlen
      then (err, n_delete, read)
      else if is_known (pim.getrec_byid x.pim r.id)
      then known
      else unknown
