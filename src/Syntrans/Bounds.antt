-- ===== src/Syntrans/Bounds.antt =====
-- _read_frec() (syntrans.c) stays inside its buffer, whatever arrives.
use ic35link.Base.{
  ℕ, zero, suc, ◌-◌, ◌≤◌, ◌≡◌, Bool, Option, none, some, List, ◌++◌, ◌==◌, arith, length, take,
  drop, length-take, length-drop, length-append, length-replicate, replicate, Bool-cases, inl, inr,
  min,
}
use ic35link.Base.CString.{length-overwrite}
use ic35link.Base.Int.{ℤ, pos, negsuc, is_neg}
use ic35link.Pdu.{getbyte}
use ic35link.Com.{Port}
use ic35link.Level1.{l2recvrsp}
use ic35link.Level4.{Cmd, sendcmd}
use ic35link.Level4.Reply.{Ask, Out, receive, decode, recvrsp, strip_heads}
use ic35link.Level4.Layout.{at_rspfgetrec_data, at_cmd, at_l2head}
use ic35link.Syntrans.Frec.{
  Block, maxrlen, store, is_last, advance, ask_block, read_blocks, blank_block,
}

-- A response fills a buffer of a size.
abbrev Holds : ℕ → Out → Type 0
Holds n (Out.record_start last rid chg bytes) = length bytes ≡ n
Holds n (Out.record_more last bytes) = length bytes ≡ n
Holds n o = Unit

decode_start :
    (buff pdu : List ℕ) (k l2id l3id : ℕ)
    → Holds (length buff) (decode (Ask.fgetrec buff) pdu k l2id l3id).1
unfolding decode
decode_start buff pdu k l2id l3id =
    let got : List ℕ = drop at_rspfgetrec_data pdu in
    length-overwrite buff (take (min (length buff) k) got)
      (omega (arith, length-take (min (length buff) k) got))

decode_more :
    (buff pdu : List ℕ) (k l2id l3id : ℕ)
    → Holds (length buff) (decode (Ask.fgetmore buff) pdu k l2id l3id).1
unfolding decode
decode_more buff pdu k l2id l3id =
    let got : List ℕ = drop at_cmd pdu in
    length-overwrite buff (take (min (length buff) k) got)
      (omega (arith, length-take (min (length buff) k) got))

start-Holds :
    (rval : ℤ) (buff pdu : List ℕ) → Holds (length buff) (receive (Ask.fgetrec buff) rval pdu).1
unfolding receive
start-Holds (negsuc n) buff pdu = tt
start-Holds (pos n) buff pdu =
    decode_start buff pdu (strip_heads pdu n).0 (getbyte pdu at_l2head) (strip_heads pdu n).1

more-Holds :
    (rval : ℤ) (buff pdu : List ℕ) → Holds (length buff) (receive (Ask.fgetmore buff) rval pdu).1
unfolding receive
more-Holds (negsuc n) buff pdu = tt
more-Holds (pos n) buff pdu =
    decode_more buff pdu (strip_heads pdu n).0 (getbyte pdu at_l2head) (strip_heads pdu n).1

-- The buffer has its size, and what is filled fits.
abbrev pub IsBlock : Block → Type 0
IsBlock b = (length b.buff ≡ maxrlen) × (b.filled ≤ maxrlen)

-- What recvrsp() stores for a block.
out-Holds : (p : Port) (b : Block) → Holds (length b.buff - b.filled) (recvrsp p (ask_block b)).1
unfolding recvrsp
out-Holds p b = elim (Bool-cases (b.filled == 0)) [
  | inl t ↦
      let z : b.filled ≡ 0 = ground arith in
      let r : ℤ × List ℕ × Port = l2recvrsp p (replicate 4096 0) in
      let all : length b.buff - 0 ≡ length b.buff = omega arith in
      rw (t, z, all) (start-Holds r.0 b.buff r.1)
  | inr n ↦
      let r : ℤ × List ℕ × Port = l2recvrsp p (replicate 4096 0) in
      rw (n, ← length-drop b.filled b.buff) (more-Holds r.0 (drop b.filled b.buff) r.1)
]

whole :
    (b : Block) (bytes : List ℕ)
    → IsBlock b
    → length bytes ≡ length b.buff - b.filled
    → length (take b.filled b.buff ++ bytes) ≡ maxrlen
whole b bytes w h =
    let (size, fits) = w in
    omega (arith, length-append (take b.filled b.buff) bytes, length-take b.filled b.buff)

store-IsBlock :
    (b : Block) (out : Out)
    → IsBlock b
    → Holds (length b.buff - b.filled) out
    → IsBlock (store b out)
store-IsBlock b (Out.record_start last rid chg bytes) w h = (whole b bytes w h, w.1)
store-IsBlock b (Out.record_more last bytes) w h = (whole b bytes w h, w.1)
store-IsBlock b Out.nothing w h = w
store-IsBlock b (Out.text s at) w h = w
store-IsBlock b (Out.word w') w h = w
store-IsBlock b (Out.recid rid) w h = w

advance-IsBlock : (b : Block) (rlen : ℤ) → IsBlock b → IsBlock (advance b rlen)
advance-IsBlock b (pos n) w = (w.0, ground arith)
advance-IsBlock b (negsuc n) w = w

-- The block in the result of the loop.
abbrev pub block_of : Option (Bool × Block × Port) → Block
block_of none = blank_block
block_of (some (failed, b, q)) = b

pub blank-IsBlock : IsBlock blank_block
blank-IsBlock = (length-replicate {A = ℕ} maxrlen 0, omega arith)

-- When the buffer of _read_frec() has its size and no more of it is filled than there is, that stays
-- so, however many blocks the IC35 sends and however long they are, and when the reading fails: no
-- copy of recvrsp() runs over the end of the buffer, which would leave a longer one.
pub read_blocks-IsBlock :
    (rounds : ℕ) (p : Port) (b : Block) → IsBlock b → IsBlock (block_of (read_blocks rounds p b))
unfolding read_blocks
read_blocks-IsBlock zero p b w = blank-IsBlock
read_blocks-IsBlock (suc n) p b w =
    let r : ℤ × Out × Port = recvrsp p (ask_block b) in
    let b' : Block = advance (store b r.1) r.0 in
    let w' : IsBlock b' =
      advance-IsBlock (store b r.1) r.0 (store-IsBlock b r.1 w (out-Holds p b)) in
    elim (Bool-cases (is_neg r.0)) [
      | inl t ↦ rw t w
      | inr f ↦ elim (Bool-cases (is_last r.1)) [
        | inl u ↦ rw (f, u) w'
        | inr v ↦ rw (f, v) (read_blocks-IsBlock n (sendcmd r.2 Cmd.fgetmore).1 b' w')
      ]
    ]
