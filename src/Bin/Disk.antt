-- ===== src/Bin/Disk.antt =====
-- src/databin.c: the file of binary records, which bin_open() reads and bin_close() writes. A file
-- is the list of its bytes. A record on disk has a packed header of 9 bytes, whose words have
-- their least significant byte first, and then the raw data.
use ic35link.Base.{
  ℕ, zero, suc, ◌+◌, ◌-◌, ◌*◌, ◌/◌, ◌%◌, ◌^◌, Bool, Option, none, some, List, [], ◌∷◌, ◌++◌, ◌==◌,
  ◌||◌, ◌&&◌, not, if◌then◌else◌, ltb, length, take, drop, get_or, u8, u32,
}
use ic35link.Base.Int.{ℤ, pos, negsuc, ok, err, is_neg}
use ic35link.Record.{
  Ic35Rec, new_ic35rec, set_ic35recid, set_ic35recchg, set_ic35recdata, get_ic35recdata,
}
use ic35link.Bin.{Elmt, Bin}

abbrev pub dword_bytes : ℕ → List ℕ
dword_bytes n = n % 2 ^ 8 ∷ n / 2 ^ 8 % 2 ^ 8 ∷ n / 2 ^ 16 % 2 ^ 8 ∷ n / 2 ^ 24 % 2 ^ 8 ∷ []

abbrev pub dword_of : List ℕ → ℕ
dword_of bs =
    get_or bs 0 0 + get_or bs 1 0 * 2 ^ 8 + get_or bs 2 0 * 2 ^ 16 + get_or bs 3 0 * 2 ^ 24

pub record BinRec : Type 0 where
  pub len : ℕ
  pub rid : ℕ
  pub chg : ℕ

abbrev pub sizeof_binrec : ℕ
sizeof_binrec = 9

abbrev pub binrec_bytes : BinRec → List ℕ
binrec_bytes b = dword_bytes b.len ++ (dword_bytes b.rid ++ (u8 b.chg ∷ []))

abbrev pub binrec_of : List ℕ → BinRec
binrec_of bs = record {
  len = dword_of (take 4 bs);
  rid = dword_of (take 4 (drop 4 bs));
  chg = get_or bs 8 0;
}

-- Returned are the result, the record, and the bytes that go to the file. fwrite() of a block of
-- no bytes writes nothing and returns 0.
unfoldable pub bin_writerec : Ic35Rec → ℤ × Ic35Rec × List ℕ
bin_writerec r =
    let (r', recdata, reclen) = get_ic35recdata r in
    let brec : BinRec = record { len = u32 (sizeof_binrec + reclen); rid = r.id; chg = r.chg } in
    let block = take reclen recdata in
    (if reclen == 0 then err else ok, r', binrec_bytes brec ++ block)

-- A size_t as an int.
abbrev pub int_of : ℕ → ℤ
int_of n = if ltb n (2 ^ 31) then pos n else negsuc (2 ^ 32 - n - 1)

-- The part of _bin_readrec() that follows the header: `rlen` bytes of data are to come.
unfoldable pub readrec_data : ℕ → ℕ → Ic35Rec → List ℕ → ℤ × Ic35Rec × List ℕ
readrec_data stray rlen r file =
    let r' = set_ic35recdata stray r (take rlen file) in
    if rlen == 0
    then (pos 0, r, file)
    else if ltb (length file) rlen
    then (err, r, [])
    else (int_of rlen, r', drop rlen file)

-- The part that follows a header that was read.
unfoldable pub readrec_body : ℕ → BinRec → Ic35Rec → List ℕ → ℤ × Ic35Rec × List ℕ
readrec_body stray brec r file =
    let r' = set_ic35recchg (set_ic35recid r brec.rid) brec.chg in
    let rlen = u32 (brec.len + 2 ^ 32 - sizeof_binrec) in readrec_data stray rlen r' file

-- Returned are the result, the record, and what is left of the file.
unfoldable pub bin_readrec : ℕ → List ℕ → Ic35Rec → ℤ × Ic35Rec × List ℕ
bin_readrec stray file r =
    if ltb (length file) sizeof_binrec
    then (err, r, [])
    else readrec_body stray (binrec_of file) r (drop sizeof_binrec file)

-- The loop of bin_open(), in at most `rounds` rounds: the records up to the first that is not
-- there or not whole.
unfoldable pub read_loop : ℕ → ℕ → List ℕ → List Ic35Rec
read_loop stray zero file = []
read_loop stray (suc rounds) file =
    let (rlen, r, rest) = bin_readrec stray file new_ic35rec in
    let more = read_loop stray rounds rest in if is_neg rlen then [] else r ∷ more

-- The elements that malloc() gives for the records, one after the other.
unfoldable pub elmts : ℕ → List Ic35Rec → List Elmt
elmts at [] = []
elmts at (r ∷ rs) = record { at = at; rec = r } ∷ elmts (suc at) rs

-- What fopen() finds under the name, or stdin has: the bytes of a file, no file, or a file that
-- may not be read.
pub data Source : Type 0 where
  bytes : List ℕ → Source
  absent : Source
  unreadable : Source

unfoldable pub read_source : ℕ → Bin → Source → ℤ × Bin
read_source stray s (bytes file) =
    let rs = read_loop stray (length file) file in
    let es = elmts s.next_at rs in
    (ok, record s { binlist = es; binget = none; next_at = s.next_at + length rs })
read_source stray s absent = (ok, record s { binlist = []; binget = none })
read_source stray s unreadable = (err, record s { binlist = []; binget = none })

-- `[]` is no name, or NULL; 114 is 'r'.
unfoldable pub bin_open : ℕ → Bin → List ℕ → List ℕ → Source → ℤ × Bin
bin_open stray s iomode addrfname source =
    if length addrfname == 0 || not (get_or iomode 0 0 == 114)
    then (ok, record s { binlist = []; binget = none })
    else read_source stray s source

unfoldable pub write_all : List Elmt → List ℕ
write_all [] = []
write_all (e ∷ es) = (bin_writerec e.rec).2 ++ write_all es

-- Whether bin_close() has a file to write: 119 is 'w', 43 is '+'.
abbrev pub wants_file : List ℕ → List ℕ → Bool
wants_file iomode addr_fname =
    not (length addr_fname == 0) && (get_or iomode 0 0 == 119 || get_or iomode 1 0 == 43)

-- `can_write` is whether backup_and_openwr() gets the file open. Returned are the bytes of the
-- file, if one is written, and the list.
unfoldable pub bin_close : Bin → List ℕ → List ℕ → Bool → Option (List ℕ) × Bin
bin_close s iomode addr_fname can_write =
    let freed : Bin = record s { binlist = []; binget = none } in
    if wants_file iomode addr_fname
    then (if can_write then (some (write_all s.binlist), freed) else (none, s))
    else (none, freed)
