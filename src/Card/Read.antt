-- ===== src/Card/Read.antt =====
-- Files that are read from a memory card to their end (src/mgrtrans.c and src/ic35mgr.c).
use ic35link.Base.{
  ℕ, ◌+◌, ◌-◌, ◌*◌, ◌^◌, ◌≤◌, ◌<◌, ◌≡◌, refl, sym, ap, ◌∙◌, some, List, [], ◌∷◌, ◌++◌, arith,
  length, take, drop, u16, u32, append_assoc, append-nil, get_or, get_or-append_right, take-length,
  drop-length, length-append, lt→leb,
}
use ic35link.Base.CString.{write_at, overwrite, overwrite_lem, write_at-append}
use ic35link.Base.Int.{pos}
use ic35link.Com.{Port}
use ic35link.Com.Waiting.{Line, Goes}
use ic35link.Pdu.{getbyte, getword, getbtxt}
use ic35link.Mmc.{Mcmd, get_iden}
use ic35link.Mmc.Calls.{mmcfileread}
use ic35link.Mmc.Layout.{layout, word}
use ic35link.Mmc.Exchange.{Answers, IsAnswer, answer_stream, writes, command-answered}
use ic35link.Card.File.{MmcFile, read_len, mmc_readfile}

getword-right :
    (pre post : List ℕ) (at n : ℕ) → n ≡ length pre + at → getword (pre ++ post) n ≡ getword post at
unfolding getword getbyte
getword-right pre post at n e =
    ap (λ t. t * 2 ^ 8 + get_or (pre ++ post) (n + 0) 0)
      (get_or-append_right pre post (at + 1) (n + 1) 0 (omega arith))
    ∙ ap (λ t. get_or post (at + 1) 0 * 2 ^ 8 + t)
        (get_or-append_right pre post (at + 0) (n + 0) 0 (omega arith))

-- The response to a file read.
pub record Part : Type 0 where
  pub answers : Answers
  pub iden : List ℕ
  pub chunk : List ℕ

abbrev pub response : List ℕ → List ℕ → List ℕ
response iden chunk = iden ++ (1 ∷ 0 ∷ (word (length chunk) ++ chunk))

abbrev pub IsPart : MmcFile → ℕ → ℕ → Part → Type 0
IsPart fp room blen s =
    (fp.offset < fp.size)
    × (length fp.fdiden ≡ 27)
    × IsAnswer (layout (Mcmd.fileread (u16 (read_len fp blen))) fp.fdiden) s.answers
    × (s.answers.good.bytes ≡ response s.iden s.chunk)
    × (length s.iden ≡ 27)
    × (0 < length s.chunk)
    × (length s.chunk < 2 ^ 16)
    × (length s.chunk ≤ room)

abbrev pub after : MmcFile → Part → MmcFile
after fp s = record { fdiden = s.iden; size = fp.size; offset = u32 (fp.offset + length s.chunk) }

word-whole : (n : ℕ) (post : List ℕ) → n < 2 ^ 16 → u16 (getword (1 ∷ 0 ∷ (word n ++ post)) 2) ≡ n
unfolding getword getbyte
word-whole n post h = omega arith

-- What a response means.
in_response :
    (iden chunk behind old buff : List ℕ)
    → length iden ≡ 27
    → length old ≡ 27
    → length chunk < 2 ^ 16
    → length chunk ≤ length buff
    → (getword (response iden chunk ++ behind) 27 ≡ 1)
      × (u16 (getword (response iden chunk ++ behind) 29) ≡ length chunk)
      × (getbtxt (response iden chunk ++ behind) 0 old 27 ≡ iden)
      × (overwrite buff (
            take
              (u32 (length (response iden chunk) + 2 ^ 32 - 31))
              (drop 31 (response iden chunk ++ behind)))
          ≡ write_at buff 0 chunk)
unfolding getbtxt
in_response iden chunk behind old buff ni lo small fits =
    let tail : List ℕ = 1 ∷ 0 ∷ (word (length chunk) ++ (chunk ++ behind)) in
    let shape : response iden chunk ++ behind ≡ iden ++ tail =
      append_assoc iden (1 ∷ 0 ∷ (word (length chunk) ++ chunk)) behind in
    let len : u32 (length (response iden chunk) + 2 ^ 32 - 31) ≡ length chunk =
      omega (arith, length-append iden (1 ∷ 0 ∷ (word (length chunk) ++ chunk))) in
    let head : List ℕ = iden ++ (1 ∷ 0 ∷ word (length chunk)) in
    let shape' : response iden chunk ++ behind ≡ head ++ (chunk ++ behind) =
      shape ∙ sym (append_assoc iden (1 ∷ 0 ∷ word (length chunk)) (chunk ++ behind)) in
    (
      ap (λ m. getword m 27) shape
          ∙ getword-right iden tail 0 27 (omega arith)
          ∙ (unfold getword in unfold getbyte in refl),
      ap (λ m. u16 (getword m 29)) shape
          ∙ ap u16 (getword-right iden tail 2 29 (omega arith))
          ∙ word-whole (length chunk) (chunk ++ behind) small,
      ap (λ m. write_at old 0 (take 27 m)) shape
          ∙ ap (write_at old 0) (take-length iden tail 27 (sym ni))
          ∙ ap (λ b. write_at b 0 iden) (sym (append-nil old))
          ∙ write_at-append [] old [] iden 0 refl (lo ∙ sym ni)
          ∙ append-nil iden,
      ap (λ n. overwrite buff (take n (drop 31 (response iden chunk ++ behind)))) len
          ∙ ap (λ m. overwrite buff (take (length chunk) (drop 31 m))) shape'
          ∙ ap (λ m. overwrite buff (take (length chunk) m))
              (drop-length head (chunk ++ behind) 31
                (omega (arith, ni, length-append iden (1 ∷ 0 ∷ word (length chunk)))))
          ∙ ap (overwrite buff) (take-length chunk behind (length chunk) refl)
          ∙ overwrite_lem buff chunk fits,
    )

-- One read.
pub readfile-part :
    (behind : List ℕ) (stack : ℕ) (p : Port) (fp : MmcFile) (buff : List ℕ) (blen : ℕ) (s : Part)
    (rest : List ℕ)
    → 0 < p.tmo
    → IsPart fp (length buff) blen s
    → Line p (answer_stream s.answers rest)
    → (q : Port) × (mmc_readfile behind stack p fp buff blen ≡ record {
      rlen = pos (length s.chunk);
      fp = after fp s;
      buff = write_at buff 0 s.chunk;
      port = q;
    })
      × (q.tmo ≡ p.tmo)
      × Goes p q (writes (layout (Mcmd.fileread (u16 (read_len fp blen))) fp.fdiden) s.answers) rest
unfolding mmc_readfile mmcfileread
readfile-part behind stack p fp buff blen s rest t (more, n, ha, bytes, ni, some_, small, room) on =
    let (q, run, tmo, goes) =
      command-answered (Mcmd.fileread (u16 (read_len fp blen))) behind p (some fp.fdiden) fp.fdiden
        s.answers rest t tt (refl, n) ha on in
    let (stat, len, iden, filled) =
      in_response s.iden s.chunk behind fp.fdiden buff ni n small (omega (arith, room)) in
    (
      q,
      rw (lt→leb fp.size fp.offset more, run, bytes, stat, len)
          (unfold get_iden in rw (iden, filled) refl),
      tmo,
      goes,
    )
