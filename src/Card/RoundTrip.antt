-- ===== src/Card/RoundTrip.antt =====
-- The database restored from the file of a backup (src/mgrtrans.c).
use ic35link.Base.{
  ℕ, ◌≤◌, ◌<◌, ◌≡◌, refl, sym, ap, ap₂, ◌∙◌, true, List, [], ◌∷◌, ◌++◌, arith, length, All, map,
  append_assoc, length-append,
}
use ic35link.Base.Int.{ℤ, ok}
use ic35link.Com.{Port}
use ic35link.Com.Waiting.{Line, Goes}
use ic35link.Mgr.{mrsp_gotcmd}
use ic35link.Mgr.Command.{mcmdrsp_answered, mcmdrsp-Sends}
use ic35link.Card.Backup.{
  read_database, write_database, info_tail, mcmd_info, mcmd_restinit, mcmd_restdata, mrsp_restdata,
}
use ic35link.Card.Saving.{DbBlock, IsDbBlock, lens_of, come, contents, read_database-contents}
use ic35link.Card.Restoring.{
  GoneBlock, IsGoneBlock, lens_gone, file_of, answers, goes_out, infos-checked, blocks-gone,
  database-gone, info_tail-eight,
}

-- All that a restore sends.
abbrev pub restore_sent : List GoneBlock → List (List ℕ)
restore_sent bs =
    (mcmd_info ∷ []) ∷ (mcmd_info ∷ []) ∷ (mcmd_restinit ∷ []) ∷ (mcmd_restdata ∷ []) ∷ goes_out bs

-- When the receive timeout is not 0, the file has the blocks and at least 8 bytes, and on an open
-- line the device answers both requests for an info block with any 4 bytes, both restore commands,
-- and each block, which is within the buffer of at least 4 bytes, with the right checksum after at
-- most 5 wrong ones, the restore succeeds and has sent the commands and then every block of the file
-- in order, also when the info blocks are not those of the file; it leaves the receive timeout and
-- what follows on the line.
pub write_database_sends :
    (bs : List GoneBlock) (p : Port) (buff tail info1 info2 rest : List ℕ)
    → 0 < p.tmo
    → 4 ≤ length buff
    → All (IsGoneBlock (length buff)) bs
    → 8 ≤ length (file_of bs tail)
    → length info1 ≡ 4
    → length info2 ≡ 4
    → Line p (
        mrsp_gotcmd
        ∷ (info1 ++ mrsp_gotcmd ∷ (info2 ++ mrsp_gotcmd ∷ mrsp_restdata ∷ answers bs rest)))
    → (q : Port) × (write_database (lens_gone bs) p buff (file_of bs tail) ≡ (ok, q))
      × (q.tmo ≡ p.tmo)
      × Goes p q (restore_sent bs) rest
write_database_sends bs p buff tail info1 info2 rest t room good eight n1 n2 on =
    let file : List ℕ = file_of bs tail in
    let started : List ℕ = mrsp_restdata ∷ answers bs rest in
    let (q, m, buff', infos, room', tmo, (line, sent)) =
      infos-checked p buff (info_tail file) info1 info2 (mrsp_gotcmd ∷ started) t room
        (info_tail-eight file eight) n1 n2 on in
    let (r, init, (line1, sent1)) = mcmdrsp_answered q mcmd_restinit mrsp_gotcmd started line in
    let tmo1 : r.tmo ≡ q.tmo =
      ap (λ (x : ℤ × Port). x.1.tmo) (sym init) ∙ (mcmdrsp-Sends q mcmd_restinit mrsp_gotcmd).3 in
    let (s, start, (line2, sent2)) =
      mcmdrsp_answered r mcmd_restdata mrsp_restdata (answers bs rest) line1 in
    let tmo2 : s.tmo ≡ r.tmo =
      ap (λ (x : ℤ × Port). x.1.tmo) (sym start)
      ∙ (mcmdrsp-Sends r mcmd_restdata mrsp_restdata).3 in
    let (u, run, tmo3, (line3, sent3)) =
      blocks-gone bs s buff' tail rest (omega (arith, tmo, tmo1, tmo2, t)) (rw (sym room') at good)
        line2 in
    (
      u,
      database-gone (lens_gone bs) p q r s u buff buff' file m infos init start run,
      tmo3 ∙ tmo2 ∙ tmo1 ∙ tmo,
      (
        line3,
        sent3
            ∙ ap (λ x. x ++ goes_out bs)
                (sent2
                  ∙ ap (λ x. x ++ (mcmd_restdata ∷ []) ∷ [])
                      (sent1 ∙ ap (λ x. x ++ (mcmd_restinit ∷ []) ∷ []) sent))
            ∙ all_sent p.sent (goes_out bs),
      ),
    )
  where
    all_sent :
        (start out : List (List ℕ))
        → (((start ++ ((mcmd_info ∷ []) ∷ (mcmd_info ∷ []) ∷ [])) ++ (mcmd_restinit ∷ []) ∷ [])
              ++ (mcmd_restdata ∷ []) ∷ [])
            ++ out
          ≡ start
            ++ ((mcmd_info ∷ [])
                ∷ (mcmd_info ∷ [])
                ∷ (mcmd_restinit ∷ [])
                ∷ (mcmd_restdata ∷ [])
                ∷ out)
    all_sent start out = simp append_assoc

-- A block that was saved, and how the device takes it back.
pub record Both : Type 0 where
  pub saved : DbBlock
  pub wrong : List (List ℕ)
  pub right : List ℕ

abbrev pub gone : Both → GoneBlock
gone x = record { bytes = x.saved.good.bytes; wrong = x.wrong; right = x.right }

abbrev pub saved_blocks : List Both → List DbBlock
saved_blocks xs = map (λ x. x.saved) xs

abbrev pub gone_blocks : List Both → List GoneBlock
gone_blocks xs = map gone xs

same_file :
    (xs : List Both) (tail : List ℕ)
    → file_of (gone_blocks xs) tail ≡ contents (saved_blocks xs) ++ tail
same_file [] tail = refl
same_file (x ∷ xs) tail =
    ap (λ t. x.saved.good.bytes ++ t) (same_file xs tail)
    ∙ sym (append_assoc x.saved.good.bytes (contents (saved_blocks xs)) tail)

same_lens :
    (room : ℕ) (xs : List Both)
    → All (IsDbBlock room) (saved_blocks xs)
    → lens_gone (gone_blocks xs) ≡ lens_of (saved_blocks xs)
same_lens room [] h = refl
same_lens room (x ∷ xs) ((two, fits, few, bad, good), h) = ap₂ (◌∷◌) good.0.0 (same_lens room xs h)

-- When both receive timeouts are not 0, a backup and later a restore use the same buffer of at least
-- 4 bytes, and on an open line the device gives for the backup each block, of at least 2 bytes and
-- within the buffer, intact after at most 5 damaged copies, then two info blocks of 4 bytes, and on
-- another open line answers for the restore both requests for an info block with any 4 bytes, both
-- commands, and each block, also within the buffer, with the right checksum after at most 5 wrong
-- ones, then both succeed, and the restore from the file of the backup sends the device exactly the
-- intact blocks that it had sent, in their order and each until its checksum was confirmed.
pub restore-backup :
    (xs : List Both) (p p' : Port) (buff info1 info2 info1' info2' rest rest' : List ℕ)
    → 0 < p.tmo
    → 0 < p'.tmo
    → 4 ≤ length buff
    → All (IsDbBlock (length buff)) (saved_blocks xs)
    → All (IsGoneBlock (length buff)) (gone_blocks xs)
    → length info1 ≡ 4
    → length info2 ≡ 4
    → length info1' ≡ 4
    → length info2' ≡ 4
    → Line p (
        mrsp_gotcmd
        ∷ come (saved_blocks xs) (mrsp_gotcmd ∷ (info1 ++ mrsp_gotcmd ∷ (info2 ++ rest))))
    → Line p' (
        mrsp_gotcmd
        ∷ (info1'
            ++ mrsp_gotcmd
              ∷ (info2' ++ mrsp_gotcmd ∷ mrsp_restdata ∷ answers (gone_blocks xs) rest')))
    → (file : List ℕ) × (q : Port) × (q' : Port) × (read_database
          (lens_of (saved_blocks xs))
          (λ _. true)
          p
          buff
        ≡ (ok, file, q))
      × (write_database (lens_of (saved_blocks xs)) p' buff file ≡ (ok, q'))
      × Goes p' q' (restore_sent (gone_blocks xs)) rest'
restore-backup xs p p' buff info1 info2 info1' info2' rest rest' t t' room good good' n1 n2 n1' n2'
      on on' =
    let bs : List DbBlock = saved_blocks xs in
    let tail : List ℕ = info1 ++ info2 in
    let file : List ℕ = contents bs ++ tail in
    let (q, run, _, _) = read_database-contents bs p buff info1 info2 rest t room good n1 n2 on in
    let long : 8 ≤ length (file_of (gone_blocks xs) tail) = omega (
      arith,
      ap (λ (f : List ℕ). length f) (same_file xs tail),
      length-append (contents bs) tail,
      length-append info1 info2,
      n1,
      n2,
    ) in
    let (q', run', _, goes) =
      write_database_sends (gone_blocks xs) p' buff tail info1' info2' rest' t' room good' long n1'
        n2' on' in
    (
      file,
      q,
      q',
      run,
      ap (λ l. write_database l p' buff file) (sym (same_lens (length buff) xs good))
          ∙ ap (write_database (lens_gone (gone_blocks xs)) p' buff) (sym (same_file xs tail))
          ∙ run',
      goes,
    )
