-- ===== src/Card/Examples.antt =====
-- Files, backups and restores of mgrtrans.c, and the theorems on them at concrete inputs.
use ic35link.Base.{
  ℕ, ◌+◌, ◌*◌, ◌^◌, ◌≡◌, ◌⊎◌, All, map, refl, true, false, some, Bool, List, [], ◌∷◌, ◌++◌, arith,
  replicate,
}
use ic35link.Base.Int.{ℤ, pos, ok}
use ic35link.Com.{Port, arrive}
use ic35link.Com.Chunks.{pending}
use ic35link.Com.Repeats.{line}
use ic35link.Com.Waiting.{Goes}
use ic35link.Pdu.{chksum, chksum_loop, getword, getbyte}
use ic35link.Mgr.{mrsp_gotcmd}
use ic35link.Mmc.{mmcard_text}
use ic35link.Card.Path.{
  upper, ic35mmcpath, after_number, slash_then, put_before, check_path, too_long, bad_dot,
}
use ic35link.Card.Names.{Name, IsName, render}
use ic35link.Card.Paths.{ic35mmcpath_sound}
use ic35link.Card.Dir.{mmctstamptm}
use ic35link.Card.File.{MmcFile, get_loop}
use ic35link.Card.Read.{Part, response}
use ic35link.Card.Copy.{chunks, served, reads_sent, at_end, get_loop-chunks, get_loop_ends}
use ic35link.Card.Backup.{read_database, write_database, mrsp_restdata}
use ic35link.Card.Saving.{DbBlock, come, lens_of}
use ic35link.Card.Restoring.{answers, lens_gone, file_of}
use ic35link.Card.RoundTrip.{
  Both, saved_blocks, gone_blocks, restore_sent, write_database_sends, restore-backup,
}

abbrev iden : List ℕ
iden = replicate 27 1

abbrev file : MmcFile
file = record { fdiden = iden; size = 2; offset = 0 }

-- The device reports 0x41 for the command that reads 2 bytes, and sends them as one part.
abbrev part : Part
part = record {
  answers = record {
    wrong = [];
    right = 0x41 ∷ 0 ∷ [];
    len = 33 ∷ 0 ∷ [];
    bad = [];
    good = record { bytes = response iden (8 ∷ 9 ∷ []); sum = 47 ∷ 0 ∷ [] };
  };
  iden = iden;
  chunk = 8 ∷ 9 ∷ [];
}

abbrev card : Port
card = line 500 [] (arrive (served (part ∷ []) []) ∷ [])

get_loop-chunks_example :
    (q : Port) × (get_loop 2 [] 0 (λ _. true) card file (0 ∷ 0 ∷ 0 ∷ []) 3 (7 ∷ [])
      ≡ some (pos 0, true, (7 ∷ []) ++ chunks (part ∷ []), at_end file (part ∷ []), q))
    × (q.tmo ≡ 500)
    × Goes card q (reads_sent file 3 (part ∷ [])) []
unfolding chksum chksum_loop getword getbyte pending
get_loop-chunks_example =
    get_loop-chunks 2 [] 0 card file (0 ∷ 0 ∷ 0 ∷ []) 3 (7 ∷ []) (part ∷ []) [] (omega arith)
      (omega arith)
      (
        (
          omega arith,
          refl,
          (omega arith, tt, refl, refl, refl, omega arith, omega arith, tt, ((refl, refl), refl)),
          refl,
          refl,
          omega arith,
          omega arith,
          omega arith,
        ),
        omega arith,
      )
      (refl, refl)

get_loop_ends_example :
    (x : ℤ × Bool × List ℕ × MmcFile × Port) × (get_loop 3 [] 0 (λ _. false) card file (0 ∷ []) 1 []
      ≡ some x)
get_loop_ends_example =
    get_loop_ends 3 [] 0 (λ _. false) card file (0 ∷ []) 1 [] (omega arith) (omega arith)

-- A database of one block of 4 bytes, which comes damaged at first.
abbrev block : DbBlock
block = record {
  len = 4;
  bad = record { bytes = 0 ∷ 0 ∷ 0 ∷ 0 ∷ []; sum = 10 ∷ 0 ∷ [] } ∷ [];
  good = record { bytes = 1 ∷ 2 ∷ 3 ∷ 4 ∷ []; sum = 10 ∷ 0 ∷ [] };
}

abbrev both : Both
both = record { saved = block; wrong = (9 ∷ 9 ∷ []) ∷ []; right = 10 ∷ 0 ∷ [] }

abbrev buffer : List ℕ
buffer = replicate 6 0

abbrev info : List ℕ
info = 0x30 ∷ 0x31 ∷ 0x32 ∷ 0x38 ∷ []

-- The info blocks of another device.
abbrev other_info : List ℕ
other_info = 0x30 ∷ 0x30 ∷ 0x36 ∷ 0x34 ∷ []

abbrev saving : Port
saving = line 500 [] (
    arrive (
      mrsp_gotcmd
      ∷ come (saved_blocks (both ∷ [])) (mrsp_gotcmd ∷ (info ++ mrsp_gotcmd ∷ (info ++ []))))
    ∷ [])

abbrev restoring : Port
restoring = line 500 [] (
    arrive (
      mrsp_gotcmd
      ∷ (other_info
          ++ mrsp_gotcmd
            ∷ (other_info ++ mrsp_gotcmd ∷ mrsp_restdata ∷ answers (gone_blocks (both ∷ [])) [])))
    ∷ [])

write_database_sends_example :
    (q : Port) × (write_database
        (lens_gone (gone_blocks (both ∷ [])))
        restoring
        buffer
        (file_of (gone_blocks (both ∷ [])) (info ++ info))
      ≡ (ok, q))
    × (q.tmo ≡ 500)
    × Goes restoring q (restore_sent (gone_blocks (both ∷ []))) []
unfolding chksum chksum_loop getword getbyte pending
write_database_sends_example =
    write_database_sends (gone_blocks (both ∷ [])) restoring buffer (info ++ info) other_info
      other_info [] (omega arith) (omega arith)
      ((omega arith, omega arith, ((refl, λ e. omega (arith, e)), tt), refl, refl), tt)
      (omega arith) refl refl (refl, refl)

restore-backup_example :
    (f : List ℕ) × (q : Port) × (q' : Port) × (read_database
        (lens_of (saved_blocks (both ∷ [])))
        (λ _. true)
        saving
        buffer
      ≡ (ok, f, q))
    × (write_database (lens_of (saved_blocks (both ∷ []))) restoring buffer f ≡ (ok, q'))
    × Goes restoring q' (restore_sent (gone_blocks (both ∷ []))) []
unfolding chksum chksum_loop getword getbyte pending
restore-backup_example =
    restore-backup (both ∷ []) saving restoring buffer info info other_info other_info [] []
      (omega arith) (omega arith) (omega arith)
      (
        (
          omega arith,
          omega arith,
          omega arith,
          (((refl, refl), λ e. omega (arith, e)), tt),
          ((refl, refl), refl),
        ),
        tt,
      )
      ((omega arith, omega arith, ((refl, λ e. omega (arith, e)), tt), refl, refl), tt) refl refl
      refl refl (refl, refl) (refl, refl)

-- 2001-11-20 23:08:34 in the DOS encoding: the month of struct tm counts from 0.
tstamp_fields :
    mmctstamptm (21 * 2 ^ 25 + 11 * 2 ^ 21 + 20 * 2 ^ 16 + 23 * 2 ^ 11 + 8 * 2 ^ 5 + 17)
    ≡ record { tm_year = 101; tm_mon = pos 10; tm_mday = 20; tm_hour = 23; tm_min = 8; tm_sec = 34 }
unfolding mmctstamptm
tstamp_fields = refl

-- "mmcard1/ab.txt" and "MMCard1\AB.TXT"
abbrev typed : List ℕ
typed =
    b'm' ∷ b'm' ∷ b'c' ∷ b'a' ∷ b'r' ∷ b'd' ∷ b'1' ∷ b'/' ∷ b'a' ∷ b'b' ∷ b'.' ∷ b't' ∷ b'x' ∷ b't'
    ∷ []

abbrev canonical : List ℕ
canonical =
    b'M' ∷ b'M' ∷ b'C' ∷ b'a' ∷ b'r' ∷ b'd' ∷ b'1' ∷ b'\\' ∷ b'A' ∷ b'B' ∷ b'.' ∷ b'T' ∷ b'X' ∷ b'T'
    ∷ []

path_accepted : ic35mmcpath typed ≡ (pos 1, canonical)
unfolding ic35mmcpath after_number slash_then put_before check_path too_long bad_dot
path_accepted = refl

ic35mmcpath_sound_example :
    (◌≡◌ {A = ℕ} 1 1 ⊎ ◌≡◌ {A = ℕ} 1 2)
    × ((xs : List Name) × (canonical ≡ mmcard_text ++ map upper ((48 + 1) ∷ render xs))
        × All IsName xs)
ic35mmcpath_sound_example = ic35mmcpath_sound typed canonical 1 path_accepted
