-- ===== src/Bin/RoundTrip.antt =====
-- What bin_close() (databin.c) writes is what bin_open() reads.
use ic35link.Base.{
  ℕ, zero, suc, ◌+◌, ◌-◌, ◌^◌, ◌≡◌, ◌≤◌, ◌<◌, refl, ap, ap₂, ◌∙◌, true, false, some, List, [], ◌∷◌,
  ◌++◌, ◌==◌, length, take, drop, u8, u32, map, arith, All, le→ltb, take-length, drop-length,
  length-append,
}
use ic35link.Base.Int.{pos, ok}
use ic35link.Record.{
  Ic35Rec, new_ic35rec, set_ic35recid, set_ic35recchg, set_ic35recdata, get_ic35recdata,
}
use ic35link.Bin.{Elmt, Bin}
use ic35link.Bin.Lookup.{raw_data, set_data-id, set_data-chg, raw_data-set, set_id-id}
use ic35link.Bin.Disk.{
  BinRec, binrec_bytes, binrec_of, dword_bytes, dword_of, bin_writerec, bin_readrec, readrec_data,
  readrec_body, read_loop, elmts, bytes, read_source, bin_open, write_all, bin_close, wants_file,
}

-- A record that a file can hold: id and flag fit their widths, there is data, the length that
-- get_ic35recdata() reports is that of the data, and with the header's it is an int.
abbrev pub Fits : Ic35Rec → Type 0
Fits r =
    (r.id < 2 ^ 32)
    × (r.chg < 2 ^ 8)
    × ((get_ic35recdata r).2 ≡ length (raw_data r))
    × (0 < length (raw_data r))
    × (length (raw_data r) + 9 < 2 ^ 31)

-- What a record is on disk: its id, its change flag and its raw data.
abbrev pub Entry : Type 0
Entry = ℕ × ℕ × List ℕ

abbrev pub entry : Ic35Rec → Entry
entry r = (r.id, r.chg, raw_data r)

dword_lem : (n : ℕ) → n < 2 ^ 32 → dword_of (dword_bytes n) ≡ n
dword_lem n h = omega arith

header_lem :
    (b : BinRec) (rest : List ℕ)
    → b.len < 2 ^ 32
    → b.rid < 2 ^ 32
    → b.chg < 2 ^ 8
    → binrec_of (binrec_bytes b ++ rest) ≡ b
header_lem b rest hl hr hc =
    let byte : u8 b.chg ≡ b.chg = omega arith in
    λ i. record { len = dword_lem b.len hl i; rid = dword_lem b.rid hr i; chg = byte i }

take_all : (xs : List ℕ) → take (length xs) xs ≡ xs
take_all [] = refl
take_all (x ∷ xs) = ap (◌∷◌ x) (take_all xs)

chg_id : (id chg : ℕ) → (set_ic35recchg (set_ic35recid new_ic35rec id) chg).id ≡ id
unfolding set_ic35recchg
chg_id id chg = set_id-id new_ic35rec id

chg_chg : (id chg : ℕ) → (set_ic35recchg (set_ic35recid new_ic35rec id) chg).chg ≡ chg
unfolding set_ic35recchg
chg_chg id chg = refl

data_lem :
    (stray n : ℕ) (r : Ic35Rec) (block rest : List ℕ)
    → n ≡ length block
    → 0 < n
    → n < 2 ^ 31
    → readrec_data stray n r (block ++ rest) ≡ (pos n, set_ic35recdata stray r block, rest)
unfolding readrec_data
data_lem stray n r block rest e some_yet small =
    rw (take-length block rest n e, drop-length block rest n e)
      (ground (arith, length-append block rest))

body_lem :
    (stray : ℕ) (b : BinRec) (r : Ic35Rec) (block rest : List ℕ)
    → b.len ≡ length block + 9
    → 0 < length block
    → length block + 9 < 2 ^ 31
    → readrec_body stray b r (block ++ rest) ≡ (
      pos (length block),
      set_ic35recdata stray (set_ic35recchg (set_ic35recid r b.rid) b.chg) block,
      rest,
    )
unfolding readrec_body
body_lem stray b r block rest e some_yet small =
    let r' : Ic35Rec = set_ic35recchg (set_ic35recid r b.rid) b.chg in
    let n : u32 (b.len + 2 ^ 32 - 9) ≡ length block = omega arith in
    ap (λ k. readrec_data stray k r' (block ++ rest)) n
    ∙ data_lem stray (length block) r' block rest refl some_yet (omega arith)

long_lem :
    (stray : ℕ) (file : List ℕ) (r : Ic35Rec)
    → 9 ≤ length file
    → bin_readrec stray file r ≡ readrec_body stray (binrec_of file) r (drop 9 file)
unfolding bin_readrec
long_lem stray file r h = rw (le→ltb (length file) 9 h) refl

readrec_lem :
    (stray : ℕ) (b : BinRec) (r : Ic35Rec) (block rest : List ℕ)
    → b.len ≡ length block + 9
    → b.rid < 2 ^ 32
    → b.chg < 2 ^ 8
    → 0 < length block
    → length block + 9 < 2 ^ 31
    → bin_readrec stray (binrec_bytes b ++ (block ++ rest)) r ≡ (
      pos (length block),
      set_ic35recdata stray (set_ic35recchg (set_ic35recid r b.rid) b.chg) block,
      rest,
    )
readrec_lem stray b r block rest e hr hc some_yet small =
    long_lem stray (binrec_bytes b ++ (block ++ rest)) r (omega arith)
    ∙ ap (λ c. readrec_body stray c r (block ++ rest))
        (header_lem b (block ++ rest) (omega arith) hr hc)
    ∙ body_lem stray b r block rest e some_yet small

writerec_lem :
    (r : Ic35Rec)
    → Fits r
    → (bin_writerec r).2
      ≡ binrec_bytes (record { len = length (raw_data r) + 9; rid = r.id; chg = r.chg })
        ++ raw_data r
unfolding bin_writerec
writerec_lem r (hi, hc, whole, some_yet, small) =
    let n : u32 (9 + length (raw_data r)) ≡ length (raw_data r) + 9 = omega arith in
    rw (whole, n, take_all (raw_data r)) refl

-- A record that a file can hold is read back as a record of the same id, change flag and data, and
-- what follows it in the file is left.
bin_readrec-bin_writerec :
    (stray : ℕ) (r : Ic35Rec) (rest : List ℕ)
    → Fits r
    → (r' : Ic35Rec) × (bin_readrec stray ((bin_writerec r).2 ++ rest) new_ic35rec
        ≡ (pos (length (raw_data r)), r', rest))
      × (entry r' ≡ entry r)
bin_readrec-bin_writerec stray r rest fits =
    let (hi, hc, whole, some_yet, small) = fits in
    let b : BinRec = record { len = length (raw_data r) + 9; rid = r.id; chg = r.chg } in
    let blank : Ic35Rec = set_ic35recchg (set_ic35recid new_ic35rec r.id) r.chg in
    (
      set_ic35recdata stray blank (raw_data r),
      ap (λ f. bin_readrec stray (f ++ rest) new_ic35rec) (writerec_lem r fits)
          ∙ readrec_lem stray b new_ic35rec (raw_data r) rest refl hi hc some_yet small,
      λ i. (
        (set_data-id stray blank (raw_data r) ∙ chg_id r.id r.chg) i,
        (set_data-chg stray blank (raw_data r) ∙ chg_chg r.id r.chg) i,
        raw_data-set stray blank (raw_data r) i,
      ),
    )

abbrev pub recs : List Elmt → List Ic35Rec
recs [] = []
recs (e ∷ es) = e.rec ∷ recs es

read_loop_lem :
    (stray rounds : ℕ) (es : List Elmt)
    → All (λ e. Fits e.rec) es
    → length es ≤ rounds
    → map entry (read_loop stray rounds (write_all es)) ≡ map entry (recs es)
unfolding read_loop write_all
read_loop_lem stray zero [] h k = refl
read_loop_lem stray zero (e ∷ es) h k = absurd (omega arith)
read_loop_lem stray (suc n) [] h k = unfold bin_readrec in refl
read_loop_lem stray (suc n) (e ∷ es) h k =
    let (r', run, same) = bin_readrec-bin_writerec stray e.rec (write_all es) h.0 in
    rw run (ap₂ ◌∷◌ same (read_loop_lem stray n es h.1 (omega arith)))

length-write_all : (es : List Elmt) → length es ≤ length (write_all es)
unfolding write_all bin_writerec
length-write_all [] = omega arith
length-write_all (e ∷ es) =
    let block : List ℕ = take (get_ic35recdata e.rec).2 (raw_data e.rec) in
    omega (arith, length-write_all es, length-append block (write_all es))

recs-elmts : (at : ℕ) (rs : List Ic35Rec) → recs (elmts at rs) ≡ rs
unfolding elmts
recs-elmts at [] = refl
recs-elmts at (r ∷ rs) = ap (◌∷◌ r) (recs-elmts (suc at) rs)

-- When every record fits a file, and the mode and the name ask for a file to be written, which can
-- be opened, what bin_close() writes is read by bin_open() for reading under that name as the same
-- number of records in the same order, each with its id, change flag and data.
pub bin_open-bin_close :
    (stray : ℕ) (s t : Bin) (iomode addr_fname : List ℕ)
    → All (λ e. Fits e.rec) s.binlist
    → wants_file iomode addr_fname ≡ true
    → (file : List ℕ) × ((bin_close s iomode addr_fname true).0 ≡ some file)
      × ((bin_open stray t (114 ∷ []) addr_fname (bytes file)).0 ≡ ok)
      × (map entry (recs (bin_open stray t (114 ∷ []) addr_fname (bytes file)).1.binlist)
          ≡ map entry (recs s.binlist))
unfolding bin_close bin_open read_source
bin_open-bin_close stray s t iomode addr_fname h w =
    let file : List ℕ = write_all s.binlist in
    let named : (length addr_fname == 0) ≡ false = ground arith in
    (
      file,
      rw w refl,
      rw named refl,
      rw named (
          ap (map entry) (recs-elmts t.next_at (read_loop stray (length file) file))
          ∙ read_loop_lem stray (length file) s.binlist h (length-write_all s.binlist)),
    )
