-- ===== src/Card/Restoring.antt =====
-- What a restore of src/mgrtrans.c writes to the IC35.
use ic35link.Base.{
  ℕ, suc, ◌-◌, ◌≤◌, ◌<◌, ◌≡◌, refl, sym, ap, ◌∙◌, List, [], ◌∷◌, ◌++◌, arith, length, take, drop,
  All, map, eq→==, le→ltb, append-nil, append_assoc, length-append, length-drop, take-length,
  drop-length, if◌then◌else◌,
}
use ic35link.Base.CString.{write_at, length-write_at}
use ic35link.Base.Int.{pos, ok}
use ic35link.Com.{Port}
use ic35link.Com.Waiting.{Line, Goes}
use ic35link.Pdu.{chksum, getword}
use ic35link.Mgr.{mcmdrsp, mrsp_gotcmd}
use ic35link.Mgr.Block.{over, start_of_buffer, chksum-over}
use ic35link.Mgr.Send.{IsWrong, reports, attempts, cut, msendblk_recovers}
use ic35link.Card.Backup.{
  getdbinfo, check_dbinfos, same_bytes, info_tail, write_dbblocks, write_database, mcmd_info,
  mcmd_restinit, mcmd_restdata, mrsp_restdata,
}
use ic35link.Card.Saving.{dbinfo-got, take-over, same_room}

-- A block of the database as it goes: its bytes, the wrong checksums that the device reports of it,
-- and the right one.
pub record GoneBlock : Type 0 where
  pub bytes : List ℕ
  pub wrong : List (List ℕ)
  pub right : List ℕ

abbrev pub IsGoneBlock : ℕ → GoneBlock → Type 0
IsGoneBlock room b =
    (length b.bytes ≤ room)
    × (length b.wrong ≤ 5)
    × All (IsWrong b.bytes (length b.bytes)) b.wrong
    × (length b.right ≡ 2)
    × (chksum b.bytes (length b.bytes) ≡ getword b.right 0)

abbrev pub lens_gone : List GoneBlock → List ℕ
lens_gone bs = map (λ b. length b.bytes) bs

abbrev pub file_of : List GoneBlock → List ℕ → List ℕ
file_of [] tail = tail
file_of (b ∷ bs) tail = b.bytes ++ file_of bs tail

abbrev pub answers : List GoneBlock → List ℕ → List ℕ
answers [] rest = rest
answers (b ∷ bs) rest = reports b.wrong (reports (b.right ∷ []) (answers bs rest))

abbrev pub goes_out : List GoneBlock → List (List ℕ)
goes_out [] = []
goes_out (b ∷ bs) = attempts (cut b.bytes) b.wrong ++ goes_out bs

over-IsWrong :
    (buff bytes : List ℕ) (bad : List (List ℕ))
    → All (IsWrong bytes (length bytes)) bad
    → All (IsWrong (over (length bytes) buff bytes) (length bytes)) bad
over-IsWrong buff bytes [] h = tt
over-IsWrong buff bytes (s ∷ bad) ((n, ne), h) = (
  (n, λ e. ne (sym (chksum-over (length bytes) buff bytes refl) ∙ e)),
  over-IsWrong buff bytes bad h,
)

All-room :
    (room room' : ℕ) (bs : List GoneBlock)
    → room ≤ room'
    → All (IsGoneBlock room) bs
    → All (IsGoneBlock room') bs
All-room room room' [] h ok_ = tt
All-room room room' (b ∷ bs) h ((fits, few, bad, n, sum), rest) =
    ((omega arith, few, bad, n, sum), All-room room room' bs h rest)

-- One round of the loop.
block-gone :
    (p : Port) (buff : List ℕ) (b : GoneBlock) (lens tail rest : List ℕ)
    → 0 < p.tmo
    → IsGoneBlock (length buff) b
    → Line p (reports b.wrong (reports (b.right ∷ []) rest))
    → (q : Port) × (write_dbblocks (length b.bytes ∷ lens) p buff (b.bytes ++ tail)
        ≡ write_dbblocks lens q (over (length b.bytes) buff b.bytes) tail)
      × (q.tmo ≡ p.tmo)
      × Goes p q (attempts (cut b.bytes) b.wrong) rest
unfolding write_dbblocks
block-gone p buff b lens tail rest t (fits, few, bad, n, sum) on =
    let len : ℕ = length b.bytes in
    let full : List ℕ = over (length b.bytes) buff b.bytes in
    let (q, run, tmo, (line, sent)) =
      msendblk_recovers p full (length b.bytes) b.wrong b.right rest t few
        (over-IsWrong buff b.bytes b.wrong bad) n
        (chksum-over (length b.bytes) buff b.bytes refl ∙ sum) on in
    (
      q,
      rw
          (
            take-length b.bytes tail (length b.bytes) refl,
            start_of_buffer (length b.bytes) buff b.bytes fits refl,
            run,
            le→ltb (length (b.bytes ++ tail)) (length b.bytes)
                (omega (arith, length-append b.bytes tail)),
            eq→== (length b.bytes) (length b.bytes) refl,
            drop-length b.bytes tail (length b.bytes) refl,
          )
          refl,
      tmo,
      (
        line,
        sent
            ∙ ap (λ x. p.sent ++ attempts (cut x) b.wrong)
                (take-over (length b.bytes) buff b.bytes refl),
      ),
    )

pub blocks-gone :
    (bs : List GoneBlock) (p : Port) (buff tail rest : List ℕ)
    → 0 < p.tmo
    → All (IsGoneBlock (length buff)) bs
    → Line p (answers bs rest)
    → (q : Port) × (write_dbblocks (lens_gone bs) p buff (file_of bs tail) ≡ (ok, q))
      × (q.tmo ≡ p.tmo)
      × Goes p q (goes_out bs) rest
blocks-gone [] p buff tail rest t good on =
    (p, (unfold write_dbblocks in refl), refl, (on, sym (append-nil p.sent)))
blocks-gone (b ∷ bs) p buff tail rest t (good, others) on =
    let (q, run, tmo, (line, sent)) =
      block-gone p buff b (lens_gone bs) (file_of bs tail) (answers bs rest) t good on in
    let full : List ℕ = over (length b.bytes) buff b.bytes in
    let room : length full ≡ length buff = same_room (length b.bytes) buff b.bytes good.0 refl in
    let (r, run', tmo', (line', sent')) =
      blocks-gone bs q full tail rest (omega (arith, tmo, t))
        (All-room (length buff) (length full) bs (omega (arith, room)) others) line in
    (
      r,
      run ∙ run',
      tmo' ∙ tmo,
      (line', sent' ∙ rw sent (append_assoc p.sent (attempts (cut b.bytes) b.wrong) (goes_out bs))),
    )

-- One info block: what it is compared with does not decide how it goes on.
info-checked :
    (left : ℕ) (p q : Port) (buff buff' tail : List ℕ) (m : ℕ)
    → getdbinfo p buff 4 ≡ (pos 4, buff', q)
    → 4 ≤ length tail
    → (m' : ℕ) × (check_dbinfos (suc left) p buff tail m
        ≡ check_dbinfos left q buff' (drop 4 tail) m')
unfolding check_dbinfos
info-checked left p q buff buff' tail m e h = (
  if same_bytes (take 4 buff') (take 4 tail) then m else suc m,
  rw (e, le→ltb (length tail) 4 h) refl,
)

pub infos-checked :
    (p : Port) (buff tail info1 info2 rest : List ℕ)
    → 0 < p.tmo
    → 4 ≤ length buff
    → 8 ≤ length tail
    → length info1 ≡ 4
    → length info2 ≡ 4
    → Line p (mrsp_gotcmd ∷ (info1 ++ mrsp_gotcmd ∷ (info2 ++ rest)))
    → (q : Port) × (m : ℕ) × (buff' : List ℕ) × (check_dbinfos 2 p buff tail 0
        ≡ record { rval = ok; mismatches = m; buff = buff'; port = q })
      × (length buff' ≡ length buff)
      × (q.tmo ≡ p.tmo)
      × Goes p q ((mcmd_info ∷ []) ∷ (mcmd_info ∷ []) ∷ []) rest
infos-checked p buff tail info1 info2 rest t h eight n1 n2 on =
    let second : List ℕ = mrsp_gotcmd ∷ (info2 ++ rest) in
    let (q, got, tmo, (line, sent)) = dbinfo-got p buff info1 second n1 h on in
    let b1 : List ℕ = write_at buff 0 info1 in
    let same1 : length b1 ≡ length buff = length-write_at buff 0 info1 in
    let (r, got', tmo', (line', sent')) =
      dbinfo-got q b1 info2 rest n2 (omega (arith, h, same1)) line in
    let b2 : List ℕ = write_at b1 0 info2 in
    let (m1, run1) = info-checked 1 p q buff b1 tail 0 got (omega arith) in
    let (m2, run2) =
      info-checked 0 q r b1 b2 (drop 4 tail) m1 got' (omega (arith, length-drop 4 tail)) in
    (
      r,
      m2,
      b2,
      run1 ∙ run2 ∙ (unfold check_dbinfos in refl),
      length-write_at b1 0 info2 ∙ same1,
      tmo' ∙ tmo,
      (
        line',
        sent' ∙ rw sent (append_assoc p.sent ((mcmd_info ∷ []) ∷ []) ((mcmd_info ∷ []) ∷ [])),
      ),
    )

pub database-gone :
    (lens : List ℕ) (p q r s u : Port) (buff buff' file : List ℕ) (m : ℕ)
    → check_dbinfos 2 p buff (info_tail file) 0
      ≡ record { rval = ok; mismatches = m; buff = buff'; port = q }
    → mcmdrsp q mcmd_restinit mrsp_gotcmd ≡ (ok, r)
    → mcmdrsp r mcmd_restdata mrsp_restdata ≡ (ok, s)
    → write_dbblocks lens s buff' file ≡ (ok, u)
    → write_database lens p buff file ≡ (ok, u)
unfolding write_database
database-gone lens p q r s u buff buff' file m e e' e'' e''' = rw (e, e', e'', e''') refl

pub info_tail-eight : (file : List ℕ) → 8 ≤ length file → 8 ≤ length (info_tail file)
info_tail-eight file h =
    rw (le→ltb (length file) 8 h) (omega (arith, length-drop (length file - 8) file))
