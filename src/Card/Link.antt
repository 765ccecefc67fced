-- ===== src/Card/Link.antt =====
-- src/mgrtrans.c: connection with the IC35, and state and label of a memory card. `opened` is
-- whether com_init() succeeds, and com_exit() only closes; the others stand for what welcome() needs.
use ic35link.Base.{ℕ, Bool, true, false, List, [], ◌∷◌, ◌==◌, ◌&&◌, ◌||◌, not, if◌then◌else◌}
use ic35link.Base.CString.{c_str}
use ic35link.Base.Int.{ℤ, pos, negsuc, ok, err, is_neg}
use ic35link.Com.{Port, com_send, com_recv, com_settimeout}
use ic35link.Welcome.{welcome}
use ic35link.Mgr.{mcmdrsp, equals, mrsp_gotcmd}
use ic35link.Mmc.Calls.{mmcgetstatus, mmcgetlabel}

abbrev pub mcmd_disconn : ℕ
mcmd_disconn = 0x01

abbrev pub mcmd_reset : ℕ
mcmd_reset = 0x09

abbrev pub mcmd_ident : ℕ
mcmd_ident = 0x10

abbrev pub mcmd_init : ℕ
mcmd_init = 0x50

abbrev pub mcmd_status : ℕ
mcmd_status = 0xFF

unfoldable pub mgrwelcome : Bool → (ℕ → ℕ) → ℕ → List ℕ → Port → ℤ × Port
mgrwelcome opened hadsignal signal rbuff p =
    let (rval, q) = welcome 0x40 hadsignal signal rbuff p in
    if not opened then (err, p) else if not (equals rval 0) then (err, q) else (ok, q)

-- `rlen <= 0`
abbrev pub no_bytes : ℤ → Bool
no_bytes (pos n) = n == 0
no_bytes (negsuc n) = true

-- The text of at most 8 bytes; the caller's buffer has 8.
unfoldable pub identify : Port → ℤ × List ℕ × Port
identify p =
    let (reset, p1) = mcmdrsp p mcmd_reset mrsp_gotcmd in
    let (ident, p2) = mcmdrsp p1 mcmd_ident mrsp_gotcmd in
    let r = com_recv p2 8 in
    if not (equals reset 0)
    then (err, [], p1)
    else if not (equals ident 0)
    then (err, [], p2)
    else if no_bytes r.rlen
    then (err, [], r.port)
    else (ok, c_str r.bytes, r.port)

-- With a file for it the status block is fetched first, and what came is written there.
unfoldable pub status : Bool → Port → ℤ × List ℕ × Port
status with_file p =
    let (_, p1) = com_send p (mcmd_status ∷ []) in
    let r = com_recv p1 16400 in
    let bytes = if with_file then r.bytes else [] in
    let p2 = if with_file then r.port else p in
    let (_, p3) = com_send p2 (mcmd_init ∷ []) in
    let (old_tmo, p4) = com_settimeout p3 100 in
    let s = com_recv p4 1 in
    if with_file && is_neg r.rlen
    then (err, [], r.port)
    else (ok, bytes, (com_settimeout s.port old_tmo).1)

unfoldable pub mdisconnect : Port → ℤ × Port
mdisconnect p =
    let (reset, p1) = mcmdrsp p mcmd_reset mrsp_gotcmd in
    let (disconn, p2) = mcmdrsp p1 mcmd_disconn mrsp_gotcmd in
    if not (equals reset 0)
    then (reset, record p1 { is_open = false })
    else (disconn, record p2 { is_open = false })

unfoldable pub mconnect : Bool → (ℕ → ℕ) → ℕ → List ℕ → Bool → Port → ℤ × List ℕ × Port
mconnect opened hadsignal signal rbuff with_file p =
    let (w, p1) = mgrwelcome opened hadsignal signal rbuff p in
    let (i, _, p2) = identify p1 in
    let (s, bytes, p3) = status with_file p2 in
    if not (equals w 0)
    then (w, [], (mdisconnect p1).1)
    else if not (equals i 0)
    then (i, [], (mdisconnect p2).1)
    else if not (equals s 0)
    then (s, [], (mdisconnect p3).1)
    else (s, bytes, p3)

abbrev pub bad_mmcnum : ℕ → Bool
bad_mmcnum mmcnum = not (mmcnum == 1) && not (mmcnum == 2)

-- 1 when the card is there, 0 when it is not.
unfoldable pub mmc_status : List ℕ → Port → ℕ → ℤ × Port
mmc_status behind p mmcnum =
    let (mstat, q) = mmcgetstatus behind p mmcnum in
    if bad_mmcnum mmcnum
    then (err, p)
    else if is_neg mstat || not (equals mstat 0xFFFF || equals mstat 1)
    then (err, q)
    else (if equals mstat 0xFFFF then pos 0 else mstat, q)

unfoldable pub mmc_label : List ℕ → Port → ℕ → List ℕ → ℤ × List ℕ × Port
mmc_label behind p mmcnum label =
    let (mstat, label', q) = mmcgetlabel behind p mmcnum label in
    if bad_mmcnum mmcnum
    then (err, label, p)
    else if not (equals mstat 1)
    then (err, label', q)
    else (ok, label', q)
