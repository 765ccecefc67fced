-- ===== src/Syntrans/Ends.antt =====
-- _read_frec() (syntrans.c) ends: each block that it receives uses up bytes of the line.
use ic35link.Base.{
  ℕ, zero, suc, ◌+◌, ◌-◌, ◌≤◌, ◌<◌, ◌≡◌, ◌≢◌, ◌⊎◌, refl, Bool, true, false, Option, none, some,
  List, [], ◌∷◌, ◌==◌, arith, length, drop, leb, get_or, length-take, length-drop, replicate,
  length-append, Bool-cases, inl, inr, not,
}
use ic35link.Base.Int.{ℤ, pos, negsuc, is_neg}
use ic35link.Com.{
  Port, Event, quiet, arrive, unread, com_recv_loop, com_recv, com_send, com_settimeout,
}
use ic35link.Level1.{
  Got, l1recv, l1recv_data, l1recv_block, l1recv_check, l1send, l1data, l2sendcmd, l2recvrsp,
  l1dsel, l1init, l1dreq, l1exit, below,
}
use ic35link.Level4.Layout.{at_cmd}
use ic35link.Level4.{
  sizeof_xbuff, cmd_id, Cmd, Encoded, encode, putcmd, send_encoded, put_heads, sendcmd,
}
use ic35link.Level4.Reply.{Ask, Out, receive, recvrsp}
use ic35link.Syntrans.Frec.{Block, store, is_last, advance, ask_block, read_blocks}

-- The bytes that will still arrive.
abbrev pub left_over : List Event → ℕ
left_over [] = 0
left_over (quiet ∷ es) = left_over es
left_over (arrive bs ∷ es) = length bs + left_over es

abbrev pub left : Port → ℕ
left p = left_over p.incoming

left-unread : (bs : List ℕ) (es : List Event) → left_over (unread bs es) ≡ length bs + left_over es
left-unread [] es = omega arith
left-unread (b ∷ bs) es = refl

loop_left :
    (es : List Event) (want : ℕ)
    → length (com_recv_loop es want).0 + left_over (com_recv_loop es want).1 ≤ left_over es
unfolding com_recv_loop
loop_left [] want = omega arith
loop_left (quiet ∷ es) want = omega arith
loop_left (arrive [] ∷ es) want = omega arith
loop_left (arrive (b ∷ bs) ∷ es) want =
    let rest : List Event = (com_recv_loop es (want - suc (length bs))).1 in
    let got : List ℕ = (com_recv_loop es (want - suc (length bs))).0 in
    elim (Bool-cases (leb want (suc (length bs)))) [
      | inl t ↦ rw t (
          omega (
            arith,
            left-unread (drop want (b ∷ bs)) es,
            length-take want (b ∷ bs),
            length-drop want (b ∷ bs),
          ))
      | inr f ↦ rw f (omega (arith, loop_left es (want - suc (length bs)), length-append bs got))
    ]

recv_left :
    (p : Port) (want : ℕ) → length (com_recv p want).bytes + left (com_recv p want).port ≤ left p
unfolding com_recv
recv_left p want = ground (arith, loop_left p.incoming want)

send_left : (p : Port) (id len : ℕ) (pdu : Option (List ℕ)) → left (l1send p id pdu len).2 ≡ left p
unfolding l1send com_send
send_left p id len none = ground arith
send_left p id len (some pdu) = ground arith

block_left : (p : Port) (rid : ℕ) (pdu : List ℕ) → left (l1recv_block p rid pdu).port ≤ left p
unfolding l1recv_block l1recv_check
block_left p rid pdu = grind (arith, recv_left)

data_left :
    (p : Port) (rid : ℕ) (pdu : Option (List ℕ)) → left (l1recv_data p rid pdu).port ≤ left p
unfolding l1recv_data
data_left p rid none = omega arith
data_left p rid (some pdu) = grind (arith, recv_left, block_left)

block_id : (p : Port) (rid : ℕ) (pdu : List ℕ) → (l1recv_block p rid pdu).rid ≡ rid
unfolding l1recv_block l1recv_check
block_id p rid pdu = ground arith

data_id : (p : Port) (rid : ℕ) (pdu : Option (List ℕ)) → (l1recv_data p rid pdu).rid ≡ rid
unfolding l1recv_data
data_id p rid none = refl
data_id p rid (some pdu) = grind (arith, block_id)

some_byte : (bs : List ℕ) → get_or bs 0 0 ≡ l1data → 0 < length bs
some_byte [] e = absurd (omega arith)
some_byte (b ∷ bs) e = omega arith

-- A data response uses up a byte at least, and nothing that is received is put back.
l1recv-left :
    (p : Port) (pdu : Option (List ℕ))
    → (left (l1recv p pdu).port ≤ left p)
      × ((l1recv p pdu).rid ≡ l1data → left (l1recv p pdu).port < left p)
unfolding l1recv
l1recv-left p pdu =
    let bs : List ℕ = (com_recv p 1).bytes in
    let q : Port = (com_recv p 1).port in
    let rid : ℕ = get_or bs 0 0 in
    let used : length bs + left q ≤ left p = recv_left p 1 in
    let there : rid ≡ l1data → 0 < length bs = some_byte bs in
    elim (Bool-cases (below (com_recv p 1).rlen 1)) [
      | inl t ↦ rw t (omega arith, λ e. omega (arith, there e))
      | inr f ↦ elim (Bool-cases (not (rid == l1data))) [
        | inl u ↦ rw (f, u) (omega arith, λ e. omega (arith, there e))
        | inr v ↦
            rw (f, v)
              (
                omega (arith, data_left q rid pdu),
                λ e. omega (arith, data_left q rid pdu, there (ground arith)),
              )
      ]
    ]

-- A command puts nothing back either.
sendcmd_left : (p : Port) (pdu : List ℕ) (len : ℕ) → left (l2sendcmd p pdu len).2 ≤ left p
unfolding l2sendcmd com_settimeout
sendcmd_left p pdu len =
    let p1 : Port = (l1send p l1init none 0).2 in
    let a : Got = l1recv p1 none in
    let p2 : Port = (l1send a.port l1dsel (some pdu) len).2 in
    ground (
      arith,
      send_left p l1init 0 none,
      (l1recv-left p1 none).0,
      send_left a.port l1dsel len (some pdu),
      (l1recv-left (record p2 { tmo = 2000 }) none).0,
    )

encoded_left : (p : Port) (o : Option Encoded) → left (send_encoded p o).1 ≤ left p
unfolding send_encoded
encoded_left p none = omega arith
encoded_left p (some e) = sendcmd_left p (put_heads e).0 (put_heads e).1

-- A response that is no error has used up a byte.
recvrsp_left :
    (p : Port) (rsp : List ℕ)
    → (is_neg (l2recvrsp p rsp).0 ≡ true) ⊎ (left (l2recvrsp p rsp).2 < left p)
unfolding l2recvrsp
recvrsp_left p rsp =
    let p1 : Port = (l1send p l1dreq none 0).2 in
    let d : Got = l1recv p1 (some rsp) in
    let q : Port = (l1send d.port l1exit none 0).2 in
    ground (
      arith,
      send_left p l1dreq 0 none,
      (l1recv-left p1 (some rsp)).1,
      send_left d.port l1exit 0 none,
      (l1recv-left q none).0,
    )

receive-neg :
    (ask : Ask) (rval : ℤ) (pdu : List ℕ)
    → is_neg rval ≡ true
    → is_neg (receive ask rval pdu).0 ≡ true
unfolding receive
receive-neg ask (negsuc n) pdu h = refl
receive-neg ask (pos n) pdu h = absurd (ground arith)

reply_left :
    (p : Port) (ask : Ask) → (is_neg (recvrsp p ask).0 ≡ true) ⊎ (left (recvrsp p ask).2 < left p)
unfolding recvrsp
reply_left p ask =
    let zeros : List ℕ = replicate sizeof_xbuff 0 in
    elim (recvrsp_left p zeros) [
      | inl n ↦ inl (receive-neg ask (l2recvrsp p zeros).0 (l2recvrsp p zeros).1 n)
      | inr l ↦ inr l
    ]

pub cmd_left : (p : Port) (cmd : Cmd) → left (sendcmd p cmd).1 ≤ left p
unfolding sendcmd
cmd_left p cmd = encoded_left p (encode cmd (putcmd (replicate sizeof_xbuff 0) at_cmd (cmd_id cmd)))

some-none : (x : Bool × Block × Port) → some x ≢ none
some-none x e = absurd (ground arith)

-- When there are more rounds than bytes to come, the loop of _read_frec() ends, with a record or
-- an error, whatever arrives.
pub read_blocks_ends :
    (rounds : ℕ) (p : Port) (b : Block) → left p < rounds → read_blocks rounds p b ≢ none
unfolding read_blocks
read_blocks_ends zero p b h = absurd (omega arith)
read_blocks_ends (suc n) p b h =
    let r : ℤ × Out × Port = recvrsp p (ask_block b) in
    let b' : Block = advance (store b r.1) r.0 in
    let q : Port = (sendcmd r.2 Cmd.fgetmore).1 in
    elim (Bool-cases (is_neg r.0)) [
      | inl t ↦ rw t (some-none (true, b, r.2))
      | inr f ↦ elim (Bool-cases (is_last r.1)) [
        | inl u ↦ rw (f, u) (some-none (false, b', r.2))
        | inr v ↦
            let less : left r.2 < left p = ground (arith, reply_left p (ask_block b)) in
            rw (f, v) (read_blocks_ends n q b' (omega (arith, less, cmd_left r.2 Cmd.fgetmore)))
      ]
    ]
