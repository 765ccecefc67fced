-- ===== src/Card/Copy.antt =====
-- mmcget() of src/ic35mgr.c: the loop that copies a file of a memory card to a local file.
use ic35link.Base.{
  ℕ, zero, suc, ◌+◌, ◌-◌, ◌^◌, ◌≤◌, ◌<◌, ◌≡◌, ◌≢◌, refl, sym, ap, ◌∙◌, true, false, Bool, none,
  some, List, [], ◌∷◌, ◌++◌, arith, length, take, u16, append_assoc, append-nil, le→leb, ne→==,
  Bool-cases, inl, inr, ◌⊎◌,
}
use ic35link.Base.CString.{write_at, length-write_at, take-drop-write_at}
use ic35link.Base.Int.{ℤ, pos, negsuc}
use ic35link.Com.{Port}
use ic35link.Com.Waiting.{Line, Goes}
use ic35link.Mmc.{Mcmd}
use ic35link.Mmc.Layout.{layout}
use ic35link.Mmc.Exchange.{answer_stream, writes}
use ic35link.Mmc.Calls.{mmcfileread}
use ic35link.Card.File.{
  MmcFile, ReadFile, Copied, read_len, mmc_readfile, read_bytes, read_ends, finish, get_loop,
}
use ic35link.Card.Read.{Part, IsPart, after, readfile-part}

-- A file that the device serves to its end.
abbrev pub Serves : MmcFile → ℕ → ℕ → List Part → Type 0
Serves fp room blen [] = fp.size ≤ fp.offset
Serves fp room blen (s ∷ ss) = IsPart fp room blen s × Serves (after fp s) room blen ss

abbrev pub chunks : List Part → List ℕ
chunks [] = []
chunks (s ∷ ss) = s.chunk ++ chunks ss

abbrev pub served : List Part → List ℕ → List ℕ
served [] rest = rest
served (s ∷ ss) rest = answer_stream s.answers (served ss rest)

abbrev pub reads_sent : MmcFile → ℕ → List Part → List (List ℕ)
reads_sent fp blen [] = []
reads_sent fp blen (s ∷ ss) =
    writes (layout (Mcmd.fileread (u16 (read_len fp blen))) fp.fdiden) s.answers
    ++ reads_sent (after fp s) blen ss

abbrev pub at_end : MmcFile → List Part → MmcFile
at_end fp [] = fp
at_end fp (s ∷ ss) = at_end (after fp s) ss

-- The loop in terms of what the read returned.
abbrev went_on : ℕ → List ℕ → ℕ → ℕ → List ℕ → ReadFile → Copied
went_on rounds behind stack blen out r =
    finish (read_ends (λ _. true) out r) (out ++ read_bytes r) r
      (get_loop rounds behind stack (λ _. true) r.port r.fp r.buff blen (out ++ read_bytes r))

loop-step :
    (rounds : ℕ) (behind : List ℕ) (stack : ℕ) (p q : Port) (fp fp' : MmcFile) (buff buff' : List ℕ)
    (blen : ℕ) (out : List ℕ) (n : ℕ)
    → mmc_readfile behind stack p fp buff blen
      ≡ record { rlen = pos n; fp = fp'; buff = buff'; port = q }
    → n ≢ 0
    → get_loop (suc rounds) behind stack (λ _. true) p fp buff blen out
      ≡ get_loop rounds behind stack (λ _. true) q fp' buff' blen (out ++ take n buff')
unfolding get_loop read_ends finish
loop-step rounds behind stack p q fp fp' buff buff' blen out n e ne =
    ap (went_on rounds behind stack blen out) e ∙ rw (ne→== n 0 ne) refl

at-end :
    (behind : List ℕ) (stack : ℕ) (p : Port) (fp : MmcFile) (buff : List ℕ) (blen : ℕ)
    → fp.size ≤ fp.offset
    → mmc_readfile behind stack p fp buff blen
      ≡ record { rlen = pos 0; fp = fp; buff = buff; port = p }
unfolding mmc_readfile
at-end behind stack p fp buff blen h = rw (le→leb fp.size fp.offset h) refl

loop-end :
    (rounds : ℕ) (behind : List ℕ) (stack : ℕ) (p : Port) (fp : MmcFile) (buff : List ℕ) (blen : ℕ)
    (out : List ℕ)
    → fp.size ≤ fp.offset
    → get_loop (suc rounds) behind stack (λ _. true) p fp buff blen out
      ≡ some (pos 0, true, out, fp, p)
unfolding get_loop read_ends finish
loop-end rounds behind stack p fp buff blen out h =
    ap (went_on rounds behind stack blen out) (at-end behind stack p fp buff blen h)
    ∙ ap (λ o. some (pos 0, true, o, fp, p)) (append-nil out)

-- When the receive timeout is not 0, the local file takes every write, and on an open line the
-- device serves the file part by part until its size is reached, each part not empty, within the
-- buffer and with an identifier of 27 bytes, its command confirmed after at most 5 wrong checksums
-- and its response intact after at most 5 damaged copies, the copying loop with more rounds than
-- parts ends with a read of 0 bytes and has written exactly the parts in their order behind what was
-- there; it has sent one read for each part, and leaves the receive timeout and what follows on the
-- line.
pub get_loop-chunks :
    (rounds : ℕ) (behind : List ℕ) (stack : ℕ) (p : Port) (fp : MmcFile) (buff : List ℕ) (blen : ℕ)
    (out : List ℕ) (parts : List Part) (rest : List ℕ)
    → length parts < rounds
    → 0 < p.tmo
    → Serves fp (length buff) blen parts
    → Line p (served parts rest)
    → (q : Port) × (get_loop rounds behind stack (λ _. true) p fp buff blen out
        ≡ some (pos 0, true, out ++ chunks parts, at_end fp parts, q))
      × (q.tmo ≡ p.tmo)
      × Goes p q (reads_sent fp blen parts) rest
get_loop-chunks zero behind stack p fp buff blen out parts rest h t serves on = absurd (omega arith)
get_loop-chunks (suc rounds) behind stack p fp buff blen out [] rest h t serves on = (
  p,
  loop-end rounds behind stack p fp buff blen out serves
      ∙ ap (λ o. some (pos 0, true, o, fp, p)) (sym (append-nil out)),
  refl,
  (on, sym (append-nil p.sent)),
)
get_loop-chunks (suc rounds) behind stack p fp buff blen out (s ∷ parts) rest h t (part, serves)
      on =
    let buff' : List ℕ = write_at buff 0 s.chunk in
    let n : length buff ≡ length buff' = sym (length-write_at buff 0 s.chunk) in
    let (q, read, tmo, (line, sent)) =
      readfile-part behind stack p fp buff blen s (served parts rest) t part on in
    let (r, run, tmo', (line', sent')) =
      get_loop-chunks rounds behind stack q (after fp s) buff' blen
        (out ++ take (length s.chunk) buff') parts rest (omega arith) (omega (arith, t, tmo))
        (rw n at serves) line in
    (
      r,
      loop-step rounds behind stack p q fp (after fp s) buff buff' blen out (length s.chunk) read
            (λ e. omega (arith, part.5, e))
          ∙ run
          ∙ ap (λ o. some (pos 0, true, o, at_end (after fp s) parts, r))
              (ap (λ c. (out ++ c) ++ chunks parts)
                  (take-drop-write_at buff s.chunk 0 (omega (arith, part.7)))
                ∙ append_assoc out s.chunk (chunks parts)),
      tmo' ∙ tmo,
      (
        line',
        sent'
            ∙ rw sent (
                append_assoc p.sent
                  (writes (layout (Mcmd.fileread (u16 (read_len fp blen))) fp.fdiden) s.answers)
                  (reads_sent (after fp s) blen parts)),
      ),
    )

-- How far the file is from its end.
abbrev left : MmcFile → ℕ
left fp = fp.size - fp.offset

readfile-left :
    (behind : List ℕ) (stack : ℕ) (p : Port) (fp : MmcFile) (buff : List ℕ) (blen n : ℕ)
    → fp.size + 2 ^ 16 ≤ 2 ^ 32
    → (mmc_readfile behind stack p fp buff blen).rlen ≡ pos n
    → n ≢ 0
    → (left (mmc_readfile behind stack p fp buff blen).fp < left fp)
      × ((mmc_readfile behind stack p fp buff blen).fp.size ≡ fp.size)
unfolding mmc_readfile mmcfileread
readfile-left behind stack p fp buff blen n h e ne = ground arith

ends-cases :
    (writes : ℕ → Bool) (out : List ℕ) (r : ReadFile)
    → ((x : ℤ × Bool) × (read_ends writes out r ≡ some x))
      ⊎ ((n : ℕ) × (r.rlen ≡ pos n) × (n ≢ 0) × (read_ends writes out r ≡ none))
unfolding read_ends
ends-cases writes out r = of_len r.rlen refl
  where
    of_len :
        (v : ℤ)
        → r.rlen ≡ v
        → ((x : ℤ × Bool) × (read_ends writes out r ≡ some x))
          ⊎ ((n : ℕ) × (r.rlen ≡ pos n) × (n ≢ 0) × (read_ends writes out r ≡ none))
    of_len (negsuc n) e = inl ((negsuc n, true), rw e refl)
    of_len (pos zero) e = inl ((pos 0, true), rw e refl)
    of_len (pos (suc n)) e = elim (Bool-cases (writes (length out))) [
      | inl t ↦
          inr (
            suc n,
            e,
            λ z. omega (arith, z),
            rw (e, ne→== (suc n) 0 (λ z. omega (arith, z)), t) refl,
          )
      | inr f ↦ inl ((pos (suc n), false), rw (e, ne→== (suc n) 0 (λ z. omega (arith, z)), f) refl)
    ]

loop-goes :
    (rounds : ℕ) (behind : List ℕ) (stack : ℕ) (writes : ℕ → Bool) (p : Port) (fp : MmcFile)
    (buff : List ℕ) (blen : ℕ) (out : List ℕ)
    → read_ends writes out (mmc_readfile behind stack p fp buff blen) ≡ none
    → get_loop (suc rounds) behind stack writes p fp buff blen out
      ≡ get_loop rounds behind stack writes
          (mmc_readfile behind stack p fp buff blen).port
          (mmc_readfile behind stack p fp buff blen).fp
          (mmc_readfile behind stack p fp buff blen).buff
          blen
          (out ++ read_bytes (mmc_readfile behind stack p fp buff blen))
unfolding get_loop finish
loop-goes rounds behind stack writes p fp buff blen out goes = rw goes refl

-- Whatever the device answers and whichever writes fail, the copying loop of mmcget() ends within as
-- many rounds as the file has bytes left and one more, when the size that was reported on opening
-- stays 2^16 below 2^32.
pub get_loop_ends :
    (rounds : ℕ) (behind : List ℕ) (stack : ℕ) (writes : ℕ → Bool) (p : Port) (fp : MmcFile)
    (buff : List ℕ) (blen : ℕ) (out : List ℕ)
    → fp.size + 2 ^ 16 ≤ 2 ^ 32
    → fp.size - fp.offset < rounds
    → (x : ℤ × Bool × List ℕ × MmcFile × Port) × (get_loop rounds behind stack writes p fp buff blen
          out
        ≡ some x)
get_loop_ends zero behind stack writes p fp buff blen out h k = absurd (omega arith)
get_loop_ends (suc rounds) behind stack writes p fp buff blen out h k =
    let r : ReadFile = mmc_readfile behind stack p fp buff blen in
    elim (ends-cases writes out r) [
      | inl ((rlen, all), e) ↦ (
        (rlen, all, out ++ read_bytes r, r.fp, r.port),
        unfold get_loop in rw e (unfold finish in refl),
      )
      | inr (n, e, ne, goes) ↦
          let (less, same) = readfile-left behind stack p fp buff blen n h e ne in
          let (x, run) =
            get_loop_ends rounds behind stack writes r.port r.fp r.buff blen (out ++ read_bytes r)
              (omega (arith, same, h)) (omega (arith, less, k)) in
          (x, loop-goes rounds behind stack writes p fp buff blen out goes ∙ run)
    ]
