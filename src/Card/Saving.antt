-- ===== src/Card/Saving.antt =====
-- What a backup of src/mgrtrans.c puts into its file.
use ic35link.Base.{
  ℕ, suc, ◌≤◌, ◌<◌, ◌≡◌, refl, sym, ap, ◌∙◌, true, List, [], ◌∷◌, ◌++◌, arith, length, take, drop,
  All, map, eq→==, append-nil, append_assoc, length-append, length-drop, take-length,
}
use ic35link.Base.CString.{write_at, length-write_at, take-drop-write_at}
use ic35link.Base.Int.{ℤ, pos, ok}
use ic35link.Com.{Port}
use ic35link.Com.Chunks.{com_recv_step}
use ic35link.Com.Waiting.{Line, Goes}
use ic35link.Mgr.{mcmdrsp, mcmd_posack, mrsp_gotcmd}
use ic35link.Mgr.Command.{mcmdrsp_answered, mcmdrsp-Sends}
use ic35link.Mgr.Block.{Copy, IsDamaged, IsIntact, copies, naks, over, mrecvblk_recovers}
use ic35link.Card.Backup.{
  getdbinfo, read_dbblocks, read_dbinfos, read_database, mcmd_backup, mcmd_info,
}

-- A block of the database as it comes.
pub record DbBlock : Type 0 where
  pub len : ℕ
  pub bad : List Copy
  pub good : Copy

abbrev pub IsDbBlock : ℕ → DbBlock → Type 0
IsDbBlock room b =
    (2 ≤ b.len)
    × (b.len ≤ room)
    × (length b.bad ≤ 5)
    × All (IsDamaged b.len) b.bad
    × IsIntact b.len b.good

abbrev pub lens_of : List DbBlock → List ℕ
lens_of bs = map (λ b. b.len) bs

abbrev pub come : List DbBlock → List ℕ → List ℕ
come [] rest = rest
come (b ∷ bs) rest = copies b.bad (copies (b.good ∷ []) (come bs rest))

abbrev pub contents : List DbBlock → List ℕ
contents [] = []
contents (b ∷ bs) = b.good.bytes ++ contents bs

abbrev pub acks : List DbBlock → List (List ℕ)
acks [] = []
acks (b ∷ bs) = (naks b.bad ++ (mcmd_posack ∷ []) ∷ []) ++ acks bs

pub take-over :
    (blen : ℕ) (buff bytes : List ℕ)
    → length bytes ≡ blen
    → take blen (over blen buff bytes) ≡ bytes
take-over blen buff bytes e = take-length bytes (drop blen buff) blen (sym e)

All-room :
    (room room' : ℕ) (bs : List DbBlock)
    → room ≤ room'
    → All (IsDbBlock room) bs
    → All (IsDbBlock room') bs
All-room room room' [] h ok_ = tt
All-room room room' (b ∷ bs) h ((two, fits, few, bad, good), rest) =
    ((two, omega arith, few, bad, good), All-room room room' bs h rest)

pub same_room :
    (blen : ℕ) (buff bytes : List ℕ)
    → blen ≤ length buff
    → length bytes ≡ blen
    → length (over blen buff bytes) ≡ length buff
same_room blen buff bytes h e =
    omega (arith, length-append bytes (drop blen buff), length-drop blen buff)

pub blocks-saved :
    (bs : List DbBlock) (p : Port) (buff out rest : List ℕ)
    → 0 < p.tmo
    → All (IsDbBlock (length buff)) bs
    → Line p (come bs rest)
    → (q : Port) × (buff' : List ℕ) × (read_dbblocks (lens_of bs) (λ _. true) p buff out
        ≡ record { rval = ok; out = out ++ contents bs; buff = buff'; port = q })
      × (length buff' ≡ length buff)
      × (q.tmo ≡ p.tmo)
      × Goes p q (acks bs) rest
unfolding read_dbblocks
blocks-saved [] p buff out rest t good on =
    (p, buff, rw (append-nil out) refl, refl, refl, (on, sym (append-nil p.sent)))
blocks-saved (b ∷ bs) p buff out rest t ((two, fits, few, bad, good), others) on =
    let (q, run, tmo, (line, sent)) =
      mrecvblk_recovers p buff b.len b.bad b.good (come bs rest) t two fits few bad good on in
    let full : List ℕ = over b.len buff b.good.bytes in
    let room : length full ≡ length buff = same_room b.len buff b.good.bytes fits good.0.0 in
    let (r, buff', run', room', tmo', (line', sent')) =
      blocks-saved bs q full (out ++ b.good.bytes) rest (omega (arith, tmo, t))
        (All-room (length buff) (length full) bs (omega (arith, room)) others) line in
    (
      r,
      buff',
      rw (run, eq→== b.len b.len refl, take-over b.len buff b.good.bytes good.0.0, run')
          (ap (λ o. record { rval = ok; out = o; buff = buff'; port = r })
            (append_assoc out b.good.bytes (contents bs))),
      room' ∙ room,
      tmo' ∙ tmo,
      (
        line',
        sent' ∙ rw sent (append_assoc p.sent (naks b.bad ++ (mcmd_posack ∷ []) ∷ []) (acks bs)),
      ),
    )

-- One info block.
pub dbinfo-got :
    (p : Port) (buff info rest : List ℕ)
    → length info ≡ 4
    → 4 ≤ length buff
    → Line p (mrsp_gotcmd ∷ (info ++ rest))
    → (q : Port) × (getdbinfo p buff 4 ≡ (pos 4, write_at buff 0 info, q))
      × (q.tmo ≡ p.tmo)
      × Goes p q ((mcmd_info ∷ []) ∷ []) rest
unfolding getdbinfo
dbinfo-got p buff info rest n h on =
    let (q, run, (line, sent)) = mcmdrsp_answered p mcmd_info mrsp_gotcmd (info ++ rest) on in
    let tmo : q.tmo ≡ p.tmo =
      ap (λ (x : ℤ × Port). x.1.tmo) (sym run) ∙ (mcmdrsp-Sends p mcmd_info mrsp_gotcmd).3 in
    let (r, got, left, open_, kept) =
      com_recv_step q 4 info rest line.0 line.1 (sym n) (omega arith) in
    (r, rw (run, got) refl, kept.1 ∙ tmo, ((open_, left), kept.2 ∙ sent))

pub take-info :
    (buff info : List ℕ) → length info ≡ 4 → 4 ≤ length buff → take 4 (write_at buff 0 info) ≡ info
take-info buff info n h =
    ap (λ k. take k (write_at buff 0 info)) (sym n)
    ∙ take-drop-write_at buff info 0 (omega (arith, n, h))

-- One round of the info loop.
info-saved :
    (left : ℕ) (p q : Port) (buff buff' info out : List ℕ)
    → getdbinfo p buff 4 ≡ (pos 4, buff', q)
    → take 4 buff' ≡ info
    → read_dbinfos (suc left) (λ _. true) p buff out
      ≡ read_dbinfos left (λ _. true) q buff' (out ++ info)
unfolding read_dbinfos
info-saved left p q buff buff' info out e e' = rw (e, e') refl

infos-saved :
    (p : Port) (buff out info1 info2 rest : List ℕ)
    → 4 ≤ length buff
    → length info1 ≡ 4
    → length info2 ≡ 4
    → Line p (mrsp_gotcmd ∷ (info1 ++ mrsp_gotcmd ∷ (info2 ++ rest)))
    → (q : Port) × (buff' : List ℕ) × (read_dbinfos 2 (λ _. true) p buff out
        ≡ record { rval = ok; out = (out ++ info1) ++ info2; buff = buff'; port = q })
      × (q.tmo ≡ p.tmo)
      × Goes p q ((mcmd_info ∷ []) ∷ (mcmd_info ∷ []) ∷ []) rest
infos-saved p buff out info1 info2 rest h n1 n2 on =
    let second : List ℕ = mrsp_gotcmd ∷ (info2 ++ rest) in
    let (q, got, tmo, (line, sent)) = dbinfo-got p buff info1 second n1 h on in
    let b1 : List ℕ = write_at buff 0 info1 in
    let h2 : 4 ≤ length b1 = omega (arith, h, length-write_at buff 0 info1) in
    let (r, got', tmo', (line', sent')) = dbinfo-got q b1 info2 rest n2 h2 line in
    let b2 : List ℕ = write_at b1 0 info2 in
    (
      r,
      b2,
      info-saved 1 p q buff b1 info1 out got (take-info buff info1 n1 h)
          ∙ info-saved 0 q r b1 b2 info2 (out ++ info1) got' (take-info b1 info2 n2 h2)
          ∙ (unfold read_dbinfos in refl),
      tmo' ∙ tmo,
      (
        line',
        sent' ∙ rw sent (append_assoc p.sent ((mcmd_info ∷ []) ∷ []) ((mcmd_info ∷ []) ∷ [])),
      ),
    )

database-saved :
    (lens : List ℕ) (p q r u : Port) (buff buff1 buff2 out1 out2 : List ℕ)
    → mcmdrsp p mcmd_backup mrsp_gotcmd ≡ (ok, q)
    → read_dbblocks lens (λ _. true) q buff []
      ≡ record { rval = ok; out = out1; buff = buff1; port = r }
    → read_dbinfos 2 (λ _. true) r buff1 out1
      ≡ record { rval = ok; out = out2; buff = buff2; port = u }
    → read_database lens (λ _. true) p buff ≡ (ok, out2, u)
unfolding read_database
database-saved lens p q r u buff buff1 buff2 out1 out2 e e' e'' = rw (e, e', e'') refl

-- When the receive timeout is not 0, every write to the file succeeds, and on an open line the
-- device answers the backup command, sends the blocks of the database, each at least 2 bytes long
-- and within the buffer of at least 4 bytes and intact after at most 5 damaged copies, and answers
-- both requests for an info block with 4 bytes, the backup succeeds; the file holds exactly the
-- intact blocks and the two info blocks in their order, the commands and acknowledgements were sent
-- in theirs, and the receive timeout and what follows on the line are left.
pub read_database-contents :
    (bs : List DbBlock) (p : Port) (buff info1 info2 rest : List ℕ)
    → 0 < p.tmo
    → 4 ≤ length buff
    → All (IsDbBlock (length buff)) bs
    → length info1 ≡ 4
    → length info2 ≡ 4
    → Line p (mrsp_gotcmd ∷ come bs (mrsp_gotcmd ∷ (info1 ++ mrsp_gotcmd ∷ (info2 ++ rest))))
    → (q : Port) × (read_database (lens_of bs) (λ _. true) p buff
        ≡ (ok, contents bs ++ (info1 ++ info2), q))
      × (q.tmo ≡ p.tmo)
      × Goes p q ((mcmd_backup ∷ []) ∷ (acks bs ++ (mcmd_info ∷ []) ∷ (mcmd_info ∷ []) ∷ [])) rest
read_database-contents bs p buff info1 info2 rest t room good n1 n2 on =
    let first : List ℕ = mrsp_gotcmd ∷ (info1 ++ mrsp_gotcmd ∷ (info2 ++ rest)) in
    let (q, run, (line, sent)) = mcmdrsp_answered p mcmd_backup mrsp_gotcmd (come bs first) on in
    let tmo : q.tmo ≡ p.tmo =
      ap (λ (x : ℤ × Port). x.1.tmo) (sym run) ∙ (mcmdrsp-Sends p mcmd_backup mrsp_gotcmd).3 in
    let (r, buff1, saved, room', tmo', (line', sent')) =
      blocks-saved bs q buff [] first (omega (arith, tmo, t)) good line in
    let (u, buff2, infos, tmo'', (line'', sent'')) =
      infos-saved r buff1 (contents bs) info1 info2 rest (omega (arith, room, room')) n1 n2 line' in
    (
      u,
      database-saved (lens_of bs) p q r u buff buff1 buff2 (contents bs)
            ((contents bs ++ info1) ++ info2) run saved infos
          ∙ ap (λ o. (ok, o, u)) (append_assoc (contents bs) info1 info2),
      tmo'' ∙ tmo' ∙ tmo,
      (
        line'',
        sent''
            ∙ ap (λ x. x ++ (mcmd_info ∷ []) ∷ (mcmd_info ∷ []) ∷ [])
                (sent' ∙ ap (λ x. x ++ acks bs) sent)
            ∙ append_assoc (p.sent ++ (mcmd_backup ∷ []) ∷ []) (acks bs)
                ((mcmd_info ∷ []) ∷ (mcmd_info ∷ []) ∷ [])
            ∙ append_assoc p.sent ((mcmd_backup ∷ []) ∷ [])
                (acks bs ++ (mcmd_info ∷ []) ∷ (mcmd_info ∷ []) ∷ []),
      ),
    )
