-- ===== src/Level4/Commands.antt =====
-- The encoding of each command of sendcmd() (synproto.c) is its message.
use ic35link.Base.{
  ℕ, ◌+◌, ◌-◌, ◌/◌, ◌%◌, ◌^◌, ◌≤◌, ◌<◌, ◌≡◌, ◌≢◌, refl, sym, ◌∙◌, Bool, true, false, some, List, [],
  ◌∷◌, ◌++◌, arith, length, replicate, u8, u16,
}
use ic35link.Base.CString.{c_str, strlen}
use ic35link.Pdu.{putbyte, putword, putdword, putbtxt, puttext}
use ic35link.Level1.{puthdr}
use ic35link.Level4.{Cmd, Encoded, encode, enc, putcmd, put_heads, cmd_id, power_text}
use ic35link.Level4.Layout.{at_cmd}
use ic35link.Level4.Heads.{
  word_bytes, dword_bytes, level, zeros, wire, Laid, low, high, Room, wire_lem,
}
use ic35link.Level4.Message.{field, message, FitsCmd}
use ic35link.Level4.Fields.{puttext-Laid, putbtxt-Laid, more-Laid, name-Laid}

-- `dword` put as two words.
d0 : (n : ℕ) → u8 (n % 2 ^ 16 % 2 ^ 8) ≡ n % 2 ^ 8
d0 n = omega arith

d1 : (n : ℕ) → u8 (n % 2 ^ 16 / 2 ^ 8 % 2 ^ 8) ≡ n / 2 ^ 8 % 2 ^ 8
d1 n = omega arith

d2 : (n : ℕ) → u8 (n / 2 ^ 16 % 2 ^ 16 % 2 ^ 8) ≡ n / 2 ^ 16 % 2 ^ 8
d2 n = omega arith

d3 : (n : ℕ) → u8 (n / 2 ^ 16 % 2 ^ 16 / 2 ^ 8 % 2 ^ 8) ≡ n / 2 ^ 24 % 2 ^ 8
d3 n = omega arith

-- The encoding of a command, if it is known, is the message, in a buffer with room for it.
abbrev pub Sends : Cmd → Type 0
Sends c =
    (e : Encoded) × (encode c (putcmd zeros at_cmd (cmd_id c)) ≡ some e)
    × (wire e ≡ message c)
    × Room e

-- A command of two levels.
two_levels :
    (c : Cmd) (pdu m : List ℕ) (n l2 l3 : ℕ)
    → encode c (putcmd zeros at_cmd (cmd_id c)) ≡ some (enc pdu n l2 l3)
    → message c ≡ level l2 (level l3 m)
    → Laid pdu n m
    → l3 ≢ 0
    → l2 < 2 ^ 8
    → l3 < 2 ^ 8
    → n ≤ 4000
    → Sends c
two_levels c pdu m n l2 l3 e same laid ne h2 h3 small =
    let (w, r) = wire_lem pdu m n l2 l3 laid ne h2 h3 small in (enc pdu n l2 l3, e, w ∙ sym same, r)

-- Commands with an fd and a record id, or with an fd alone.
pub fd_Sends :
    (c : Cmd) (hi lo fd l2 : ℕ)
    → encode c (putcmd zeros at_cmd (cmd_id c))
      ≡ some (enc (putword (replicate 9 0 ++ (hi ∷ lo ∷ replicate 4085 0)) 11 (u16 fd)) 8 l2 0x49)
    → message c ≡ level l2 (level 0x49 (hi ∷ lo ∷ (word_bytes fd ++ replicate 4 0)))
    → l2 < 2 ^ 8
    → Sends c
unfolding putword putbyte
fd_Sends c hi lo fd l2 e same h2 =
    two_levels c _ (hi ∷ lo ∷ (word_bytes fd ++ replicate 4 0)) 8 l2 0x49 e same
      (_, refl, refl, rw (low fd fd refl, high fd fd refl) refl, omega arith) (omega arith) h2
      (omega arith) (omega arith)

pub rid_Sends :
    (c : Cmd) (hi lo fd rid l2 : ℕ)
    → encode c (putcmd zeros at_cmd (cmd_id c))
      ≡ some (
          enc
            (putdword (putword (replicate 9 0 ++ (hi ∷ lo ∷ replicate 4085 0)) 11 (u16 fd)) 13 rid)
            8
            l2
            0x49)
    → message c ≡ level l2 (level 0x49 (hi ∷ lo ∷ (word_bytes fd ++ dword_bytes rid)))
    → l2 < 2 ^ 8
    → Sends c
unfolding putdword putword putbyte
rid_Sends c hi lo fd rid l2 e same h2 =
    two_levels c _ (hi ∷ lo ∷ (word_bytes fd ++ dword_bytes rid)) 8 l2 0x49 e same
      (
        _,
        refl,
        refl,
        rw (low fd fd refl, high fd fd refl, d0 rid, d1 rid, d2 rid, d3 rid) refl,
        omega arith,
      )
      (omega arith) h2 (omega arith) (omega arith)

pub text_Sends :
    (c : Cmd) (head s : List ℕ) (at k n : ℕ)
    → encode c (putcmd zeros at_cmd (cmd_id c))
      ≡ some (
          enc
            (puttext (replicate 9 0 ++ (head ++ replicate (4087 - length head) 0)) at s)
            n
            0x82
            0x49)
    → message c ≡ level 0x82 (level 0x49 (head ++ field k s))
    → at ≡ length head + 9
    → n ≡ length head + k
    → strlen s ≤ k
    → k + length head ≤ 4000
    → Sends c
text_Sends c head s at k n e same place size h room =
    two_levels c _ (head ++ field k s) n 0x82 0x49 e same
      (puttext-Laid head s at k n (4087 - length head) place size h (omega arith)) (omega arith)
      (omega arith) (omega arith) (omega arith)

pub fixed_Sends : Sends Cmd.ident × Sends Cmd.disconn × Sends Cmd.fgetmore
unfolding encode putcmd putbyte putword putbtxt puttext puthdr put_heads c_str
fixed_Sends = (
  (_, refl, refl, (omega arith, omega arith)),
  (_, refl, refl, (omega arith, omega arith)),
  (_, refl, refl, (omega arith, omega arith)),
)

pub getpower_Sends : Sends Cmd.getpower
unfolding encode putcmd putbyte puttext putbtxt c_str
getpower_Sends =
    two_levels Cmd.getpower _ (3 ∷ 1 ∷ (power_text ++ 0 ∷ 0 ∷ 0 ∷ [])) 10 0x82 0x49 refl refl
      (_, refl, refl, refl, omega arith) (omega arith) (omega arith) (omega arith) (omega arith)

pub getdtime_Sends : Sends Cmd.getdtime
unfolding encode putcmd putbyte
getdtime_Sends =
    two_levels Cmd.getdtime _ (2 ∷ 0 ∷ 0 ∷ []) 3 0x83 0x49 refl refl
      (_, refl, refl, refl, omega arith) (omega arith) (omega arith) (omega arith) (omega arith)

pub fgetrec_Sends : (fd idx : ℕ) → Sends (Cmd.fgetrec fd idx)
unfolding encode putcmd putbyte putword
fgetrec_Sends fd idx =
    two_levels (Cmd.fgetrec fd idx) _ (1 ∷ 6 ∷ (word_bytes fd ++ (word_bytes idx ++ 0 ∷ 0 ∷ []))) 8
      0x83 0x49 refl refl
      (
        _,
        refl,
        refl,
        rw (low fd fd refl, high fd fd refl, low idx idx refl, high idx idx refl) refl,
        omega arith,
      )
      (omega arith) (omega arith) (omega arith) (omega arith)

-- The bytes of a word and of a doubleword as they are put.
abbrev put_word : ℕ → List ℕ
put_word n = u8 (u16 n % 2 ^ 8) ∷ u8 (u16 n / 2 ^ 8 % 2 ^ 8) ∷ []

abbrev put_dword : ℕ → List ℕ
put_dword n =
    u8 (n % 2 ^ 16 % 2 ^ 8)
    ∷ u8 (n % 2 ^ 16 / 2 ^ 8 % 2 ^ 8)
    ∷ u8 (n / 2 ^ 16 % 2 ^ 16 % 2 ^ 8)
    ∷ u8 (n / 2 ^ 16 % 2 ^ 16 / 2 ^ 8 % 2 ^ 8)
    ∷ []

abbrev put_head : ℕ → ℕ → ℕ → ℕ → ℕ → ℕ → ℕ → List ℕ
put_head lo fd rid a b c lr =
    1 ∷ lo ∷ (put_word fd ++ (put_dword rid ++ (a ∷ b ∷ c ∷ 0 ∷ 0 ∷ put_dword lr)))

record_Sends :
    (c : Cmd) (lo fd rid x y z lr l2 l3 : ℕ) (bstr : List ℕ)
    → encode c (putcmd zeros at_cmd (cmd_id c))
      ≡ some (
          enc
            (putbtxt
              (replicate 9 0 ++ (put_head lo fd rid x y z lr ++ replicate 4070 0))
              26
              bstr
              (length bstr))
            (17 + length bstr)
            l2
            l3)
    → message c
      ≡ level l2 (
          level l3 (
            1
            ∷ lo
            ∷ (word_bytes fd
                ++ (dword_bytes rid ++ (x ∷ y ∷ z ∷ 0 ∷ 0 ∷ (dword_bytes lr ++ bstr))))))
    → length bstr ≤ 80
    → l3 ≢ 0
    → l2 < 2 ^ 8
    → l3 < 2 ^ 8
    → Sends c
record_Sends c lo fd rid x y z lr l2 l3 bstr e same h ne h2 h3 =
    two_levels c _ (put_head lo fd rid x y z lr ++ bstr) (17 + length bstr) l2 l3 e
      (same
        ∙ (rw
            (
              ← low fd fd refl,
              ← high fd fd refl,
              ← d0 rid,
              ← d1 rid,
              ← d2 rid,
              ← d3 rid,
              ← d0 lr,
              ← d1 lr,
              ← d2 lr,
              ← d3 lr,
            )
            refl))
      (putbtxt-Laid (put_head lo fd rid x y z lr) bstr 26 (17 + length bstr) 4070 refl (omega arith)
        (omega arith))
      ne h2 h3 (omega arith)

pub fputrec_Sends :
    (last : Bool) (fd rid lr : ℕ) (magic bstr : List ℕ)
    → FitsCmd (Cmd.fputrec last fd rid magic lr bstr)
    → Sends (Cmd.fputrec last fd rid magic lr bstr)
unfolding encode putcmd putbyte putword putdword putbtxt
fputrec_Sends true fd rid lr (x ∷ y ∷ z ∷ []) bstr (n, h) =
    record_Sends (Cmd.fputrec true fd rid (x ∷ y ∷ z ∷ []) lr bstr) 8 fd rid x y z lr 0x82 0x49 bstr
      refl refl h (omega arith) (omega arith) (omega arith)
fputrec_Sends false fd rid lr (x ∷ y ∷ z ∷ []) bstr (n, h) =
    record_Sends (Cmd.fputrec false fd rid (x ∷ y ∷ z ∷ []) lr bstr) 8 fd rid x y z lr 0x02 0x48
      bstr refl refl h (omega arith) (omega arith) (omega arith)
fputrec_Sends last fd rid lr magic bstr (n, h) = absurd (omega arith)

pub fupdrec_Sends :
    (last : Bool) (fd rid lr : ℕ) (magic bstr : List ℕ)
    → FitsCmd (Cmd.fupdrec last fd rid magic lr bstr)
    → Sends (Cmd.fupdrec last fd rid magic lr bstr)
unfolding encode putcmd putbyte putword putdword putbtxt
fupdrec_Sends true fd rid lr (x ∷ y ∷ z ∷ []) bstr (n, h) =
    record_Sends (Cmd.fupdrec true fd rid (x ∷ y ∷ z ∷ []) lr bstr) 9 fd rid x y z lr 0x82 0x49 bstr
      refl refl h (omega arith) (omega arith) (omega arith)
fupdrec_Sends false fd rid lr (x ∷ y ∷ z ∷ []) bstr (n, h) =
    record_Sends (Cmd.fupdrec false fd rid (x ∷ y ∷ z ∷ []) lr bstr) 9 fd rid x y z lr 0x02 0x48
      bstr refl refl h (omega arith) (omega arith) (omega arith)
fupdrec_Sends last fd rid lr magic bstr (n, h) = absurd (omega arith)

pub fputmore_Sends :
    (last : Bool) (bstr : List ℕ) → length bstr ≤ 80 → Sends (Cmd.fputmore last bstr)
unfolding encode putcmd putbyte
fputmore_Sends true bstr h =
    two_levels (Cmd.fputmore true bstr) _ bstr (length bstr) 0x82 0x49 refl refl (more-Laid bstr h)
      (omega arith) (omega arith) (omega arith) (omega arith)
fputmore_Sends false bstr h =
    two_levels (Cmd.fputmore false bstr) _ bstr (length bstr) 0x02 0x48 refl refl (more-Laid bstr h)
      (omega arith) (omega arith) (omega arith) (omega arith)

pub fopen_Sends : (s : List ℕ) → strlen s ≤ 10 → Sends (Cmd.fopen s)
unfolding encode putcmd putbyte putword putdword
fopen_Sends s h =
    let n : ℕ = strlen s in
    let byte : u8 (u8 n) ≡ n % 2 ^ 8 = omega arith in
    two_levels (Cmd.fopen s) _
      (0 ∷ 2 ∷ (replicate 7 0 ++ (put_dword (n + 2) ++ (u8 (u8 n) ∷ (c_str s ++ 2 ∷ []))))) (15 + n)
      0x82 0x49 refl (rw (d0 (n + 2), d1 (n + 2), d2 (n + 2), d3 (n + 2), byte) refl)
      (name-Laid (0 ∷ 2 ∷ (replicate 7 0 ++ (put_dword (n + 2) ++ (u8 (u8 n) ∷ [])))) s 23 (15 + n)
        4073 refl (omega arith) (omega arith))
      (omega arith) (omega arith) (omega arith) (omega arith)
