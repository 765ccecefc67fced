-- ===== src/Com.antt =====
-- src/comio.c: the serial line. The operating system's part, select() and read() on the line, is
-- the list of what they will report; write() takes the whole block. Without simulation (NO_LOGSIM).
pub mod Chunks
pub mod Repeats
pub mod Waiting
use ic35link.Base.{
  ℕ, zero, suc, ◌+◌, ◌-◌, ◌≡◌, Bool, true, false, List, [], ◌∷◌, ◌++◌, ltb, leb, ◌==◌,
  if◌then◌else◌, length, take, drop,
}
use ic35link.Base.Int.{ℤ, pos, negsuc, err}

-- One round of select() and read(): bytes that are there, or no byte within the timeout.
pub data Event : Type 0 where
  arrive : List ℕ → Event
  quiet : Event

-- The static state of comio.c, the blocks that were written, and what is still to come.
pub record Port : Type 0 where
  pub is_open : Bool
  pub tmo : ℕ
  pub sent : List (List ℕ)
  pub incoming : List Event

-- Bytes that read() left in the kernel's buffer.
abbrev pub unread : List ℕ → List Event → List Event
unread [] es = es
unread (b ∷ bs) es = arrive (b ∷ bs) ∷ es

-- Receiving changes nothing of the line but what is still to come.
abbrev pub Keeps : Port → Port → Type 0
Keeps p q = (q.is_open ≡ p.is_open) × (q.tmo ≡ p.tmo) × (q.sent ≡ p.sent)

-- The loop of com_recv(): `want` is `rend - rptr`.
unfoldable pub com_recv_loop : List Event → ℕ → List ℕ × List Event
com_recv_loop [] want = ([], [])
com_recv_loop (quiet ∷ es) want = ([], es)
com_recv_loop (arrive [] ∷ es) want = ([], es)
com_recv_loop (arrive (b ∷ bs) ∷ es) want =
    let (got, rest) = com_recv_loop es (want - length (b ∷ bs)) in
    if leb want (length (b ∷ bs))
    then (take want (b ∷ bs), unread (drop want (b ∷ bs)) es)
    else ((b ∷ bs) ++ got, rest)

pub record Received : Type 0 where
  pub rlen : ℤ
  pub bytes : List ℕ
  pub port : Port

unfoldable pub com_recv : Port → ℕ → Received
com_recv p blen =
    let (got, rest) = com_recv_loop p.incoming blen in
    if p.is_open
    then record { rlen = pos (length got); bytes = got; port = record p { incoming = rest } }
    else record { rlen = err; bytes = []; port = p }

unfoldable pub com_send : Port → List ℕ → ℤ × Port
com_send p block =
    if p.is_open then (pos (length block), record p { sent = p.sent ++ block ∷ [] }) else (err, p)

-- The blocks of at most 16 bytes that com_sendw() writes, in at most `rounds` rounds: as many as
-- there are bytes are enough. Its delays and its priority have no part in what is written.
abbrev pub wait_blksize : ℕ
wait_blksize = 16

unfoldable pub wait_blocks : ℕ → List ℕ → List (List ℕ)
wait_blocks zero dptr = []
wait_blocks (suc rounds) [] = []
wait_blocks (suc rounds) (b ∷ dptr) = take 16 (b ∷ dptr) ∷ wait_blocks rounds (drop 16 (b ∷ dptr))

unfoldable pub com_sendw : Port → List ℕ → ℤ × Port
com_sendw p bytes =
    if p.is_open
    then (pos (length bytes), record p { sent = p.sent ++ wait_blocks (length bytes) bytes })
    else (err, p)

-- The previous timeout is returned; a timeout of zero only asks for it.
unfoldable pub com_settimeout : Port → ℕ → ℕ × Port
com_settimeout p msec = (p.tmo, if ltb 0 msec then record p { tmo = msec } else p)
