-- ===== src/Session/Formats.antt =====
-- src/dataio.c: the formats of PC records, by which each operation is dispatched, and the dates of a
-- session. Records are read with the input format and stored with the other, which pim_openinp()
-- and pim_openout() choose apart.
use ic35link.Base.{
  ℕ, ◌-◌, Bool, true, false, Option, none, some, List, [], ◌∷◌, ◌==◌, ◌&&◌, ◌||◌, if◌then◌else◌,
  leb,
}
use ic35link.Base.Int.{ℤ, negsuc, ok, err}
use ic35link.Record.{Ic35Rec, new_ic35rec}
use ic35link.Bin.{pim_dirty}
use ic35link.Card.Backup.{same_bytes}
use ic35link.Session.{PimOper}

abbrev pub pim_txt : ℕ
pim_txt = 1

abbrev pub pim_bin : ℕ
pim_bin = 2

abbrev pub pim_vca : ℕ
pim_vca = 3

-- 0 for a text that is NULL or no format.
unfoldable pub pimfmt2bin : Option (List ℕ) → ℕ
pimfmt2bin none = 0
pimfmt2bin (some format) =
    if same_bytes format (b't' ∷ b'x' ∷ b't' ∷ [])
    then pim_txt
    else if same_bytes format (b'b' ∷ b'i' ∷ b'n' ∷ [])
    then pim_bin
    else if same_bytes format (b'v' ∷ b'c' ∷ b'a' ∷ [])
    then pim_vca
    else 0

-- The static variables pimfmt and inpfmt.
pub record Formats : Type 0 where
  pub pimfmt : ℕ
  pub inpfmt : ℕ

unfoldable pub set_pim_format : Formats → Option (List ℕ) → ℤ × Formats
set_pim_format f format =
    let newfmt = pimfmt2bin format in
    if newfmt == 0 then (err, f) else (ok, record { pimfmt = newfmt; inpfmt = newfmt })

-- struct pim_oper, with `none` for NULL. A file is opened by its mode and three names.
pub record NullableOper (S : Type 0) : Type 0 where
  pub open_ : Option (S → ℕ → List (Option (List ℕ)) → ℤ × S)
  pub close : Option (S → S)
  pub rewind : Option (S → S)
  pub getrec : Option (S → ℕ → Option (Option ℕ × S))
  pub getrec_byid : Option (S → ℕ → Option ℕ)
  pub cmpic35rec : Option (S → Ic35Rec → ℕ → ℤ)
  pub updic35rec : Option (S → Ic35Rec → ℕ → S × Ic35Rec)
  pub putic35rec : Option (S → Ic35Rec → S × Ic35Rec)
  pub delrec : Option (S → ℕ → S)
  pub recid : Option (S → ℕ → ℕ)
  pub set_recid : Option (S → ℕ → ℕ → S)
  pub recstat : Option (S → ℕ → ℕ)
  pub set_recstat : Option (S → ℕ → ℕ → S)

-- The operation, or what is done without one.
abbrev pub or_else : {A : Type 0} → Option A → A → A
or_else none a = a
or_else (some b) a = b

abbrev pub nul_oper : {S : Type 0} → NullableOper S
nul_oper = record {
  open_ = none;
  close = none;
  rewind = none;
  getrec = none;
  getrec_byid = none;
  cmpic35rec = none;
  updic35rec = none;
  putic35rec = none;
  delrec = none;
  recid = none;
  set_recid = none;
  recstat = none;
  set_recstat = none;
}

module _ {S : Type 0} (txt_oper bin_oper vca_oper : NullableOper S) where
  unfoldable pub pimop : ℕ → NullableOper S
  pimop fmt =
      if fmt == pim_txt
      then txt_oper
      else if fmt == pim_bin
      then bin_oper
      else if fmt == pim_vca
      then vca_oper
      else nul_oper

  -- pim_rewind() .. pim_set_recstat()
  unfoldable pub pim_ops : Formats → PimOper S
  pim_ops f = record {
    rewind = or_else (pimop f.inpfmt).rewind (λ s. s);
    getrec = or_else (pimop f.inpfmt).getrec (λ s fileid. some (none, s));
    getrec_byid = or_else (pimop f.inpfmt).getrec_byid (λ s recid. none);
    cmpic35rec = or_else (pimop f.pimfmt).cmpic35rec (λ s rec h. negsuc 0);
    updic35rec = or_else (pimop f.inpfmt).updic35rec (λ s rec h. (s, rec));
    putic35rec = or_else (pimop f.pimfmt).putic35rec (λ s rec. (s, rec));
    delrec = or_else (pimop f.pimfmt).delrec (λ s h. s);
    recid = or_else (pimop f.pimfmt).recid (λ s h. 0);
    set_recid = or_else (pimop f.pimfmt).set_recid (λ s h recid. s);
    recstat = or_else (pimop f.pimfmt).recstat (λ s h. pim_dirty);
    set_recstat = or_else (pimop f.pimfmt).set_recstat (λ s h stat. s);
  }

  -- Modes "r+", "r" and "w".
  unfoldable pub pim_open : Formats → List (Option (List ℕ)) → S → ℤ × S
  pim_open f names s = or_else (pimop f.pimfmt).open_ (λ s mode names. (err, s)) s 0 names

  unfoldable pub pim_openinp : Formats → Option (List ℕ) → Option (List ℕ) → S → ℤ × Formats × S
  pim_openinp f format fname s =
      let ifmt = pimfmt2bin format in
      elim (pimop ifmt).open_ [
        | none ↦ (err, f, s)
        | some open_file ↦
            let (rval, s') = open_file s 1 (fname ∷ none ∷ none ∷ []) in
            if ifmt == 0 then (err, f, s) else (rval, record f { inpfmt = ifmt }, s')
      ]

  abbrev pub no_name : Option (List ℕ) → Bool
  no_name none = true
  no_name (some []) = true
  no_name (some (c ∷ cs)) = false

  -- The file that is there is removed first.
  unfoldable pub pim_openout : Formats → Option (List ℕ) → Option (List ℕ) → S → ℤ × Formats × S
  pim_openout f format fname s =
      let ofmt = pimfmt2bin format in
      elim (pimop ofmt).open_ [
        | none ↦ (err, f, s)
        | some open_file ↦
            let (rval, s') = open_file s 2 (fname ∷ none ∷ none ∷ []) in
            if ofmt == 0 || no_name fname
            then (err, f, s)
            else (rval, record f { pimfmt = ofmt }, s')
      ]

  unfoldable pub pim_close : Formats → S → S
  pim_close f s =
      let s1 = or_else (pimop f.pimfmt).close (λ s. s) s in
      if f.inpfmt == f.pimfmt then s1 else or_else (pimop f.inpfmt).close (λ s. s) s1

  -- A record that was read with the input format is put with the other.
  unfoldable pub pim_putrec : Formats → S → ℕ → S
  pim_putrec f s h = elim (pimop f.inpfmt).updic35rec [
    | none ↦ s
    | some update ↦ elim (pimop f.pimfmt).putic35rec [
      | none ↦ s
      | some put ↦ let (s1, rec) = update s new_ic35rec h in (put s1 rec).0
    ]
  ]

-- A date that sscanf() takes from the text of the IC35, which has digits only; 0 where there is none.
pub record Scanned : Type 0 where
  pub mon : ℕ
  pub mday : ℕ
  pub year : ℕ
  pub hour : ℕ
  pub min : ℕ
  pub sec : ℕ

-- set_oldic35dt(): 1 when the date is not plausible. `mktime` takes years from 1900 and months from
-- 0, `scan` is sscanf() with the format of six numbers.
unfoldable pub set_oldic35dt : (List ℕ → Scanned) → (Scanned → ℕ) → ℕ → Option (List ℕ) → ℕ
set_oldic35dt scan mktime old none = old
set_oldic35dt scan mktime old (some dtime) =
    let t = scan dtime in
    let plausible =
      leb 1970 t.year && leb 1 t.mon && leb t.mon 12 && leb 1 t.mday && leb t.mday 31 in
    if plausible then mktime (record t { year = t.year - 1900; mon = t.mon - 1 }) else 1

-- newic35dt(): the date is fetched once, and again after clr_newic35dt(), which sets 0.
unfoldable pub newic35dt : ℕ → ℕ → ℕ × ℕ
newic35dt now new_dt = let dt = if new_dt == 0 then now else new_dt in (dt, dt)
