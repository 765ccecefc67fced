-- ===== src/Mmc.antt =====
-- src/mgrproto.c, the memory card commands: remote calls of the IC35's file functions. A command is
-- put into a PDU, sent and answered with the manager protocol, and its results are got from the
-- response. A structure is its packed bytes, 27 of a FILE_IDEN and 24 of a FILE_INFO.
pub mod Calls
pub mod Layout
pub mod Exchange
mod Examples
use ic35link.Base.{
  ℕ, zero, suc, ◌+◌, ◌-◌, ◌^◌, Bool, true, false, Option, none, some, List, [], ◌∷◌, ◌++◌, ◌==◌,
  if◌then◌else◌, take, drop, set, replicate, length, u32,
}
use ic35link.Base.CString.{strlen}
use ic35link.Base.Int.{ℤ, pos, negsuc, err, is_neg}
use ic35link.Com.{Port}
use ic35link.Pdu.{
  putbyte, putword, putbtxt, puttext, puttxt0, getbyte, getword, getdword, getbtxt, gettext,
}
use ic35link.Mgr.{mmcsend, mmcrecv}

abbrev pub fidensz : ℕ
fidensz = 27

abbrev pub noffs : ℕ
noffs = 0xFFFF

pub record PduDesc : Type 0 where
  pub cmd : ℕ
  pub slen : ℕ
  pub sidenoffs : ℕ
  pub rstatoffs : ℕ
  pub ridenoffs : ℕ

abbrev pub desc : ℕ → ℕ → ℕ → ℕ → ℕ → PduDesc
desc cmd slen sidenoffs rstatoffs ridenoffs = record {
  cmd = cmd;
  slen = slen;
  sidenoffs = sidenoffs;
  rstatoffs = rstatoffs;
  ridenoffs = ridenoffs;
}

abbrev pub mmcpdutab : List PduDesc
mmcpdutab =
    desc 0x20 9 noffs 0 noffs
    ∷ desc 0x34 9 noffs 0 noffs
    ∷ desc 0x2A 4 noffs 0 2
    ∷ desc 0x2B 29 1 27 0
    ∷ desc 0x2C 31 1 27 0
    ∷ desc 0x2E 29 1 noffs 0
    ∷ desc 0x22 4 noffs 0 2
    ∷ desc 0x26 29 1 27 0
    ∷ desc 0x23 31 1 27 0
    ∷ desc 0x24 31 1 27 0
    ∷ desc 0x27 29 1 noffs 0
    ∷ desc 0x28 2 noffs 0 noffs
    ∷ desc 0 0 0 0 0
    ∷ []

-- The PDU buffer of a command; `none` when the table has no such command.
unfoldable pub initvpdu : List PduDesc → ℕ → ℕ → Option (List ℕ)
initvpdu [] cmd varlen = none
initvpdu (d ∷ ds) cmd varlen =
    let rest = initvpdu ds cmd varlen in
    if d.slen == 0
    then none
    else if d.cmd == cmd
    then some (set (replicate (d.slen + varlen) 0) 0 cmd)
    else rest

unfoldable pub find_desc : List PduDesc → ℕ → Option PduDesc
find_desc [] cmd = none
find_desc (d ∷ ds) cmd =
    let rest = find_desc ds cmd in
    if d.cmd == cmd then some d else if d.slen == 0 then none else rest

-- The commands and their arguments. A path is a C string, `wdata` has at least `dlen` bytes.
pub data Mcmd : Type 0 where
  getstatus : ℕ → Mcmd
  getlabel : ℕ → Mcmd
  diropen : List ℕ → Mcmd
  dircreate : List ℕ → Mcmd
  dirgetlen : Mcmd
  dirread : ℕ → Mcmd
  dirclose : Mcmd
  filedel : List ℕ → Mcmd
  fileopen : List ℕ → ℕ → Mcmd
  filestat : Mcmd
  fileread : ℕ → Mcmd
  filewrite : List ℕ → ℕ → Mcmd
  fileclose : Mcmd

abbrev pub code : Mcmd → ℕ
code (getstatus mmcnum) = 0x20
code (getlabel mmcnum) = 0x34
code (diropen dirpath) = 0x2A
code (dircreate dirpath) = 0x2A
code dirgetlen = 0x2B
code (dirread index) = 0x2C
code dirclose = 0x2E
code (filedel filepath) = 0x28
code (fileopen filepath mode) = 0x22
code filestat = 0x26
code (fileread blen) = 0x24
code (filewrite wdata dlen) = 0x23
code fileclose = 0x27

abbrev pub varlen : Mcmd → ℕ
varlen (diropen dirpath) = strlen dirpath
varlen (dircreate dirpath) = strlen dirpath
varlen (filedel filepath) = strlen filepath
varlen (fileopen filepath mode) = strlen filepath
varlen (filewrite wdata dlen) = dlen
varlen c = 0

abbrev pub mmcard_text : List ℕ
mmcard_text = b'M' ∷ b'M' ∷ b'C' ∷ b'a' ∷ b'r' ∷ b'd' ∷ []

-- What each command puts into its PDU.
unfoldable pub encode : Mcmd → List ℕ → List ℕ
encode (getstatus mmcnum) pdu = putbyte (puttext pdu 1 mmcard_text) 7 (b'0' + mmcnum)
encode (getlabel mmcnum) pdu = putbyte (puttext pdu 1 mmcard_text) 7 (b'0' + mmcnum)
encode (diropen dirpath) pdu = puttxt0 (putword pdu 1 0x0001) 3 dirpath
encode (dircreate dirpath) pdu = puttxt0 (putword pdu 1 0x0000) 3 dirpath
encode dirgetlen pdu = pdu
encode (dirread index) pdu = putword pdu 28 index
encode dirclose pdu = pdu
encode (filedel filepath) pdu = puttxt0 pdu 1 filepath
encode (fileopen filepath mode) pdu = puttxt0 (putword pdu 1 mode) 3 filepath
encode filestat pdu = pdu
encode (fileread blen) pdu = putword pdu 28 blen
encode (filewrite wdata dlen) pdu =
    putbyte (putbtxt (putword pdu 28 dlen) 30 wdata dlen) (30 + dlen) 0x00
encode fileclose pdu = pdu

-- `fdstat` is `none` for NULL.
unfoldable pub put_iden : ℕ → List ℕ → Option (List ℕ) → List ℕ
put_iden offs pdu none = pdu
put_iden offs pdu (some fdstat) = if offs == noffs then pdu else putbtxt pdu offs fdstat fidensz

unfoldable pub get_iden : ℕ → List ℕ → Option (List ℕ) → Option (List ℕ)
get_iden offs mem none = none
get_iden offs mem (some fdstat) =
    if offs == noffs then some fdstat else some (getbtxt mem offs fdstat fidensz)

-- What an exchange returns: the value, the response of `rlen` bytes with what is behind it in
-- memory, the FILE_IDEN and the line.
pub record Exchanged : Type 0 where
  pub rval : ℤ
  pub mem : List ℕ
  pub rlen : ℕ
  pub fdstat : Option (List ℕ)
  pub port : Port

abbrev pub failed : ℤ → Option (List ℕ) → Port → Exchanged
failed rval fdstat p = record { rval = rval; mem = []; rlen = 0; fdstat = fdstat; port = p }

unfoldable pub sendrecv_as : PduDesc → List ℕ → Port → List ℕ → Option (List ℕ) → Exchanged
sendrecv_as d behind p pdu fdstat =
    let (sent, q) = mmcsend p (put_iden d.sidenoffs pdu fdstat) (length pdu) in
    let (rval, rsp, r) = mmcrecv q in
    let mem = rsp ++ behind in
    let stat = if d.rstatoffs == noffs then 0 else getword mem d.rstatoffs in
    if is_neg sent
    then failed sent fdstat q
    else if is_neg rval
    then failed rval fdstat r
    else record {
      rval = pos stat;
      mem = mem;
      rlen = length rsp;
      fdstat = get_iden d.ridenoffs mem fdstat;
      port = r;
    }

-- `behind` is what stands behind the response in memory.
unfoldable pub sendrecv : List ℕ → Port → List ℕ → Option (List ℕ) → Exchanged
sendrecv behind p pdu fdstat = elim (find_desc mmcpdutab (getbyte pdu 0)) [
  | none ↦ failed err fdstat p
  | some d ↦ sendrecv_as d behind p pdu fdstat
]

unfoldable pub command : List ℕ → Port → Mcmd → Option (List ℕ) → Exchanged
command behind p c fdstat = elim (initvpdu mmcpdutab (code c) (varlen c)) [
  | none ↦ failed err fdstat p
  | some pdu ↦ sendrecv behind p (encode c pdu) fdstat
]
