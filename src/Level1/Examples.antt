-- ===== src/Level1/Examples.antt =====
-- Runs of the Level-1 protocol of synproto.c, and its theorems at concrete inputs.
use ic35link.Base.{
  ℕ, ◌+◌, ◌≤◌, ◌≡◌, refl, true, some, List, [], ◌∷◌, ◌++◌, arith, replicate, take, drop,
}
use ic35link.Base.Int.{pos, err}
use ic35link.Pdu.{chksum, chksum_loop, getword, getbyte, putword, putbyte}
use ic35link.Com.{
  Event, arrive, quiet, Port, Keeps, com_recv, com_recv_loop, com_send, com_settimeout,
}
use ic35link.Com.Chunks.{pending, com_recv_exact}
use ic35link.Level1.{
  l1dreq, l1exit, l1ack0, l1ack1, l1data, puthdr, l1send, l1recv, l1recv_data, l1recv_block,
  l1recv_check, l2sendcmd, l2recvrsp,
}
use ic35link.Level1.Frame.{frame, block}
use ic35link.Level1.Receive.{l1recv-frame, l1recv_damaged}
use ic35link.Level1.Sound.{l1recv_sound}
use ic35link.Level1.Exchange.{l2sendcmd-tmo, l2recvrsp-frame}

-- An open line on which the events come.
abbrev line : List Event → Port
line es = record { is_open = true; tmo = 500; sent = []; incoming = es }

abbrev buffer : List ℕ
buffer = replicate 16 0

abbrev body : List ℕ
body = 0x49 ∷ 0x05 ∷ 0xff ∷ []

-- The response frame of that body: id, length 8, body, checksum 0x247.
abbrev bytes : List ℕ
bytes = 0xf2 ∷ 8 ∷ 0 ∷ 0x49 ∷ 0x05 ∷ 0xff ∷ 0x47 ∷ 0x02 ∷ []

bytes-frame : frame l1data body ≡ bytes
bytes-frame = refl

-- The same bytes in three reads, with the first of what follows.
abbrev chunks : List Event
chunks =
    arrive (0xf2 ∷ [])
    ∷ arrive (8 ∷ 0 ∷ 0x49 ∷ [])
    ∷ arrive (0x05 ∷ 0xff ∷ 0x47 ∷ 0x02 ∷ 0xf1 ∷ [])
    ∷ quiet
    ∷ []

arrives : pending chunks ≡ frame l1data body ++ 0xf1 ∷ []
unfolding pending
arrives = refl

-- A frame that is longer than the buffer is refused.
too_long : (l1recv (line chunks) (some (replicate 7 0))).rval ≡ err
unfolding l1recv l1recv_data l1recv_block l1recv_check com_recv com_recv_loop getword getbyte
too_long = refl

no_answer : (l2sendcmd (line (quiet ∷ [])) buffer 3).0 ≡ err
unfolding l2sendcmd l1send puthdr putword putbyte l1recv com_recv com_recv_loop com_send
    com_settimeout
no_answer = refl

com_recv_exact_example :
    ((com_recv (line chunks) 3).rlen ≡ pos 3)
    × ((com_recv (line chunks) 3).bytes ≡ take 3 (pending chunks))
    × (pending (com_recv (line chunks) 3).port.incoming ≡ drop 3 (pending chunks))
    × Keeps (line chunks) (com_recv (line chunks) 3).port
unfolding pending
com_recv_exact_example = com_recv_exact (line chunks) 3 refl (omega arith) (omega arith)

l1recv-frame_example :
    ((l1recv (line chunks) (some buffer)).rval ≡ pos 3)
    × ((l1recv (line chunks) (some buffer)).rid ≡ l1data)
    × (take 3 (drop 3 (l1recv (line chunks) (some buffer)).pdu) ≡ body)
    × (pending (l1recv (line chunks) (some buffer)).port.incoming ≡ 0xf1 ∷ [])
    × Keeps (line chunks) (l1recv (line chunks) (some buffer)).port
l1recv-frame_example =
    l1recv-frame (line chunks) body (0xf1 ∷ []) buffer refl arrives (omega arith) (omega arith)

-- The byte 0x05 has become 0x06.
abbrev damaged : List Event
damaged = arrive (0xf2 ∷ 8 ∷ 0 ∷ 0x49 ∷ 0x06 ∷ 0xff ∷ 0x47 ∷ 0x02 ∷ []) ∷ []

arrives_damaged : pending damaged ≡ block l1data (0x49 ∷ 0x06 ∷ 0xff ∷ []) 0x247 ++ []
unfolding pending
arrives_damaged = refl

l1recv_damaged_example : (l1recv (line damaged) (some buffer)).rval ≡ err
l1recv_damaged_example =
    l1recv_damaged (line damaged) (0x49 ∷ []) (0xff ∷ []) [] buffer 0x05 0x06 refl (omega arith)
      (omega arith) (omega arith) arrives_damaged (omega arith) (omega arith)

accepted : (l1recv (line chunks) (some buffer)).rval ≡ pos 3
unfolding l1recv l1recv_data l1recv_block l1recv_check com_recv com_recv_loop getword getbyte chksum
    chksum_loop
accepted = refl

l1recv_sound_example :
    ((l1recv (line chunks) (some buffer)).rid ≡ l1data)
    × (2 + 6 ≤ 16)
    × (chksum (l1recv (line chunks) (some buffer)).pdu 6
        ≡ getword (l1recv (line chunks) (some buffer)).pdu 6)
l1recv_sound_example = l1recv_sound (line chunks) 2 buffer accepted

l2sendcmd-tmo_example : (l2sendcmd (line chunks) buffer 3).2.tmo ≡ 500
l2sendcmd-tmo_example = l2sendcmd-tmo (line chunks) buffer 3 (omega arith)

abbrev acks : List Event
acks = arrive (0xf0 ∷ []) ∷ arrive (0xf1 ∷ []) ∷ []

arrives_acks : pending acks ≡ l1ack0 ∷ l1ack1 ∷ []
unfolding pending
arrives_acks = refl

arrives_ack1 : pending (arrive (0xf1 ∷ []) ∷ []) ≡ l1ack1 ∷ []
unfolding pending
arrives_ack1 = refl

l2recvrsp-frame_example :
    ((l2recvrsp (line chunks) buffer).0 ≡ pos 3)
    × (take 3 (drop 3 (l2recvrsp (line chunks) buffer).1) ≡ body)
    × ((l2recvrsp (line chunks) buffer).2.sent ≡ (l1dreq ∷ 3 ∷ 0 ∷ []) ∷ (l1exit ∷ 3 ∷ 0 ∷ []) ∷ [])
    × (pending (l2recvrsp (line chunks) buffer).2.incoming ≡ [])
l2recvrsp-frame_example =
    l2recvrsp-frame (line chunks) buffer body [] refl arrives (omega arith) (omega arith)
