-- ===== src/Level4/Examples.antt =====
-- The theorems on sendcmd() and recvrsp() of synproto.c at concrete inputs.
use ic35link.Base.{refl, [], ◌∷◌, true, false, ◌++◌, ◌≡◌, some, arith, replicate}
use ic35link.Base.Int.{pos, ok}
use ic35link.Com.{Port, arrive}
use ic35link.Com.Chunks.{pending}
use ic35link.Level1.{l1init, l1dsel, l1ack0, l1ack1}
use ic35link.Level1.Frame.{frame}
use ic35link.Level4.{Cmd, sendcmd}
use ic35link.Level4.Message.{message}
use ic35link.Level4.Wire.{sendcmd-message}
use ic35link.Level4.Reply.{Ask, receive, nul_at, receive-getdtime_nul}

receive-getdtime_nul_example :
    nul_at (receive (Ask.getdtime (replicate 17 0)) (pos 3) (replicate 60 1)).1 ≡ some 14
receive-getdtime_nul_example =
    receive-getdtime_nul 3 (replicate 17 0) (replicate 60 1) (omega arith)

-- A line on which both acknowledgements have arrived.
abbrev acked : Port
acked = record {
  is_open = true;
  tmo = 500;
  sent = [];
  incoming = arrive (0xf0 ∷ 0xf1 ∷ 9 ∷ []) ∷ [];
}

-- The first of several blocks of a new memo.
abbrev new_memo : Cmd
new_memo = Cmd.fputrec false 3 0 (0x60 ∷ 0x16 ∷ 0x99 ∷ []) 150 (replicate 80 b'x')

acked_bytes : pending acked.incoming ≡ l1ack0 ∷ l1ack1 ∷ 9 ∷ []
unfolding pending
acked_bytes = refl

sendcmd-message_example :
    ((sendcmd acked new_memo).0 ≡ ok)
    × ((sendcmd acked new_memo).1.sent
        ≡ ([] ++ (l1init ∷ 3 ∷ 0 ∷ []) ∷ []) ++ frame l1dsel (message new_memo) ∷ [])
    × (pending (sendcmd acked new_memo).1.incoming ≡ 9 ∷ [])
sendcmd-message_example =
    sendcmd-message acked new_memo (9 ∷ []) (refl, omega arith) refl acked_bytes
