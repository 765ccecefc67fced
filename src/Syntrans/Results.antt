-- ===== src/Syntrans/Results.antt =====
-- What the transactions of syntrans.c return, on every path.
use ic35link.Base.{
  ℕ, suc, ◌≡◌, ◌⊎◌, refl, sym, ap, ◌∙◌, Bool, true, false, Option, none, some, List, ◌==◌, arith,
  not, if◌then◌else◌, Bool-cases, inl, inr, take,
}
use ic35link.Base.Int.{ℤ, pos, negsuc, is_neg, err}
use ic35link.Com.{Port}
use ic35link.Record.{Ic35Rec, set_ic35recid, get_ic35recdata, fetch_data}
use ic35link.Record.Ids.{file_id}
use ic35link.Bin.Lookup.{raw_data}
use ic35link.Level4.{Cmd, sendcmd}
use ic35link.Syntrans.{connect, disconnect, is_ok}
use ic35link.Syntrans.Frec.{
  blocks, cmds_of, first_cmd, write_cmds, read_frec_data, check_id, read_id_frec, write_frec_data,
}

-- The result, the record and the line.
abbrev pub Result : Type 0
Result = ℤ × Ic35Rec × Port

abbrev id_of : Option Result → ℕ
id_of none = 0
id_of (some (z, r, q)) = r.id

abbrev len_of : Option Result → ℤ
len_of none = pos 0
len_of (some (z, r, q)) = z

check_id-id :
    (rid n : ℕ) (o : Option Result) (r : Ic35Rec) (q : Port)
    → check_id rid o ≡ some (pos (suc n), r, q)
    → r.id ≡ rid
unfolding check_id
check_id-id rid n none r q e = absurd (ground arith)
check_id-id rid n (some (negsuc m, s, t)) r q e = absurd (ground arith)
check_id-id rid n (some (pos m, s, t)) r q e =
    let same : s.id ≡ r.id = ap id_of e in
    let len : (if not (s.id == rid) then pos 0 else pos m) ≡ pos (suc n) = ap len_of e in
    sym same ∙ ground arith

-- When read_id_frec() returns the length of a record, and not 0, the record is the one with the id
-- that was asked for.
read_id_frec-id :
    (rounds stray fd rid n : ℕ) (p q : Port) (r r' : Ic35Rec)
    → read_id_frec rounds stray p fd rid r ≡ some (pos (suc n), r', q)
    → r'.id ≡ rid
unfolding read_id_frec
read_id_frec-id rounds stray fd rid n p q r r' e =
    let sent : Port = (sendcmd p (Cmd.fgetirec fd rid)).1 in
    elim (Bool-cases (is_neg (sendcmd p (Cmd.fgetirec fd rid)).0)) [
      | inl t ↦ let z : err ≡ pos (suc n) = ap len_of (rw t at e) in absurd (ground arith)
      | inr f ↦ check_id-id rid n (read_frec_data rounds stray sent r) r' q (rw f at e)
    ]

-- When connect() does not succeed, at whatever step, the line is closed.
connect-closed :
    (opened : Bool) (hadsignal : ℕ → ℕ) (signal : ℕ) (rbuff idtext rinfo : List ℕ) (p : Port)
    (passwd : List ℕ)
    → (is_ok (connect opened hadsignal signal rbuff idtext rinfo p passwd).0 ≡ true)
      ⊎ ((connect opened hadsignal signal rbuff idtext rinfo p passwd).2.is_open ≡ false)
unfolding connect disconnect
connect-closed opened hadsignal signal rbuff idtext rinfo p passwd = ground arith

fetched :
    (r : Ic35Rec) (raw : Option (List ℕ))
    → r.raw ≡ raw
    → ((fetch_data r raw).0.raw ≡ some (fetch_data r raw).1) × ((fetch_data r raw).0.id ≡ r.id)
fetched r none e = (refl, refl)
fetched r (some bytes) e = (e, refl)

raw_data-some : (r : Ic35Rec) (bytes : List ℕ) → r.raw ≡ some bytes → raw_data r ≡ bytes
unfolding get_ic35recdata
raw_data-some r bytes e = ap (λ o. (fetch_data r o).1) e

set_id-raw : (r : Ic35Rec) (id : ℕ) → (set_ic35recid r id).raw ≡ r.raw
unfolding set_ic35recid
set_id-raw r id = ground arith

got :
    (r : Ic35Rec)
    → ((get_ic35recdata r).0.raw ≡ some (raw_data r)) × ((get_ic35recdata r).0.id ≡ r.id)
unfolding get_ic35recdata
got r = fetched r r.raw refl

-- Writing a record, new or updated, leaves its data as it was, and when that fails its id too.
write_frec_data-keeps :
    (do_write : Bool) (p : Port) (recid fd : ℕ) (r : Ic35Rec)
    → (raw_data (write_frec_data do_write p recid fd r).1 ≡ raw_data r)
      × ((is_neg (write_frec_data do_write p recid fd r).0 ≡ false)
          ⊎ ((write_frec_data do_write p recid fd r).1.id ≡ r.id))
unfolding write_frec_data
write_frec_data-keeps do_write p recid fd r =
    let (raw, same) = got r in
    let r' : Ic35Rec = (get_ic35recdata r).0 in
    let dlen : ℕ = (get_ic35recdata r).2 in
    let bs : List (Bool × List ℕ) = blocks (suc dlen) (take dlen (raw_data r)) in
    let w : ℤ × ℕ × Port =
      write_cmds p recid (cmds_of (first_cmd do_write fd r.id (file_id r.id) dlen) bs) in
    elim (Bool-cases (is_neg w.0)) [
      | inl t ↦ rw t (raw_data-some r' (raw_data r) raw, inr same)
      | inr f ↦
          rw f
            (raw_data-some (set_ic35recid r' w.1) (raw_data r) (set_id-raw r' w.1 ∙ raw), inl refl)
    ]
