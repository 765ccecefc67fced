-- ===== src/Mmc/Calls.antt =====
-- src/mgrproto.c: the functions MMCgetstatus() .. MMCfileclose(). A variable that a function stores
-- to through a pointer is an argument, with what it holds before, and a result.
use ic35link.Base.{ℕ, ◌+◌, ◌-◌, ◌^◌, Option, none, some, List, if◌then◌else◌, take, drop, u16, u32}
use ic35link.Base.CString.{strlen, overwrite}
use ic35link.Base.Int.{ℤ, is_neg}
use ic35link.Com.{Port}
use ic35link.Pdu.{getbyte, getword, getdword, gettext}
use ic35link.Mmc.{Mcmd, command}

-- FILE_INFO on the host; the two reserved bytes are copied as they are.
pub record FileInfo : Type 0 where
  pub file_name : List ℕ
  pub ext_name : List ℕ
  pub attribute : ℕ
  pub modify_time : ℕ
  pub modify_date : ℕ
  pub reserved : List ℕ
  pub file_size : ℕ

unfoldable pub cvtfinfo : List ℕ → ℕ → FileInfo
cvtfinfo mem at = record {
  file_name = take 9 (drop at mem);
  ext_name = take 4 (drop (at + 9) mem);
  attribute = getbyte mem (at + 13);
  modify_time = getword mem (at + 14);
  modify_date = getword mem (at + 16);
  reserved = take 2 (drop (at + 18) mem);
  file_size = getdword mem (at + 20);
}

-- The identifier that the caller's buffer holds after a call.
abbrev pub iden_of : List ℕ → Option (List ℕ) → List ℕ
iden_of fdstat none = fdstat
iden_of fdstat (some after) = after

unfoldable pub mmcgetstatus : List ℕ → Port → ℕ → ℤ × Port
mmcgetstatus behind p mmcnum =
    let x = command behind p (Mcmd.getstatus mmcnum) none in (x.rval, x.port)

unfoldable pub mmcgetlabel : List ℕ → Port → ℕ → List ℕ → ℤ × List ℕ × Port
mmcgetlabel behind p mmcnum plabel =
    let x = command behind p (Mcmd.getlabel mmcnum) none in
    if is_neg x.rval
    then (x.rval, plabel, x.port)
    else (x.rval, gettext x.mem 3 plabel (strlen (drop 3 x.mem)), x.port)

unfoldable pub mmcdiropen : List ℕ → Port → List ℕ → List ℕ → ℤ × List ℕ × Port
mmcdiropen behind p dirpath fdstat =
    let x = command behind p (Mcmd.diropen dirpath) (some fdstat) in
    (x.rval, iden_of fdstat x.fdstat, x.port)

unfoldable pub mmcdircreate : List ℕ → Port → List ℕ → List ℕ → ℤ × List ℕ × Port
mmcdircreate behind p dirpath fdstat =
    let x = command behind p (Mcmd.dircreate dirpath) (some fdstat) in
    (x.rval, iden_of fdstat x.fdstat, x.port)

unfoldable pub mmcdirgetlen : List ℕ → Port → List ℕ → ℕ → ℤ × List ℕ × ℕ × Port
mmcdirgetlen behind p fdstat ndent =
    let x = command behind p Mcmd.dirgetlen (some fdstat) in
    (
      x.rval,
      iden_of fdstat x.fdstat,
      if is_neg x.rval then ndent else u16 (getword x.mem 29),
      x.port,
    )

unfoldable pub mmcdirread : List ℕ → Port → List ℕ → ℕ → FileInfo → ℤ × List ℕ × FileInfo × Port
mmcdirread behind p fdstat index dirent =
    let x = command behind p (Mcmd.dirread index) (some fdstat) in
    (x.rval, iden_of fdstat x.fdstat, if is_neg x.rval then dirent else cvtfinfo x.mem 29, x.port)

unfoldable pub mmcdirclose : List ℕ → Port → List ℕ → ℤ × List ℕ × Port
mmcdirclose behind p fdstat =
    let x = command behind p Mcmd.dirclose (some fdstat) in
    (x.rval, iden_of fdstat x.fdstat, x.port)

unfoldable pub mmcfiledel : List ℕ → Port → List ℕ → ℤ × Port
mmcfiledel behind p filepath =
    let x = command behind p (Mcmd.filedel filepath) none in (x.rval, x.port)

unfoldable pub mmcfileopen : List ℕ → Port → List ℕ → ℕ → List ℕ → ℕ → ℤ × List ℕ × ℕ × Port
mmcfileopen behind p filepath mode fdstat size =
    let x = command behind p (Mcmd.fileopen filepath mode) (some fdstat) in
    (
      x.rval,
      iden_of fdstat x.fdstat,
      if is_neg x.rval then size else getdword x.mem (2 + 14),
      x.port,
    )

unfoldable pub mmcfilestat : List ℕ → Port → List ℕ → FileInfo → ℤ × List ℕ × FileInfo × Port
mmcfilestat behind p fdstat dirent =
    let x = command behind p Mcmd.filestat (some fdstat) in
    (x.rval, iden_of fdstat x.fdstat, if is_neg x.rval then dirent else cvtfinfo x.mem 29, x.port)

-- What a file read returns: the buffer and the length that the device reports.
pub record FileRead : Type 0 where
  pub mstat : ℤ
  pub fdstat : List ℕ
  pub buff : List ℕ
  pub rlen : ℕ
  pub port : Port

-- All data of the response is copied, `blen` only asks for that many bytes: a longer response leaves
-- a buffer that is longer than it was.
unfoldable pub mmcfileread : List ℕ → Port → List ℕ → List ℕ → ℕ → ℕ → FileRead
mmcfileread behind p fdstat buff blen rlen =
    let x = command behind p (Mcmd.fileread blen) (some fdstat) in
    let dlen = u32 (x.rlen + 2 ^ 32 - 31) in
    record {
      mstat = x.rval;
      fdstat = iden_of fdstat x.fdstat;
      buff = if is_neg x.rval then buff else overwrite buff (take dlen (drop 31 x.mem));
      rlen = if is_neg x.rval then rlen else u16 (getword x.mem 29);
      port = x.port;
    }

unfoldable pub mmcfilewrite : List ℕ → Port → List ℕ → List ℕ → ℕ → ℤ × List ℕ × Port
mmcfilewrite behind p fdstat wdata dlen =
    let x = command behind p (Mcmd.filewrite wdata dlen) (some fdstat) in
    (x.rval, iden_of fdstat x.fdstat, x.port)

unfoldable pub mmcfileclose : List ℕ → Port → List ℕ → ℤ × List ℕ × Port
mmcfileclose behind p fdstat =
    let x = command behind p Mcmd.fileclose (some fdstat) in
    (x.rval, iden_of fdstat x.fdstat, x.port)
