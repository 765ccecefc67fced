-- ===== src/Com/Waiting.antt =====
-- Blocks that com_sendw() cuts into writes, and lines on which the bytes to come are known (comio.c).
use ic35link.Base.{
  ℕ, zero, suc, ◌≤◌, ◌≡◌, refl, ap, ◌∙◌, true, List, [], ◌∷◌, ◌++◌, arith, length, take, drop, All,
  length-drop, length-take, take-append-drop,
}
use ic35link.Base.Int.{pos}
use ic35link.Com.{Port, com_send, com_sendw, wait_blocks}
use ic35link.Com.Chunks.{pending}

-- The blocks on the wire, one after the other.
abbrev pub wire : List (List ℕ) → List ℕ
wire [] = []
wire (b ∷ bs) = b ++ wire bs

wire-blocks :
    (rounds : ℕ) (bytes : List ℕ)
    → length bytes ≤ rounds
    → (wire (wait_blocks rounds bytes) ≡ bytes)
      × All (λ b. length b ≤ 16) (wait_blocks rounds bytes)
unfolding wait_blocks
wire-blocks zero [] h = (refl, tt)
wire-blocks zero (b ∷ bytes) h = absurd (omega arith)
wire-blocks (suc rounds) [] h = (refl, tt)
wire-blocks (suc rounds) (b ∷ bytes) h =
    let (whole, small) =
      wire-blocks rounds (drop 16 (b ∷ bytes)) (omega (arith, length-drop 16 (b ∷ bytes))) in
    (
      ap (λ t. take 16 (b ∷ bytes) ++ t) whole ∙ take-append-drop 16 (b ∷ bytes),
      (omega (arith, length-take 16 (b ∷ bytes)), small),
    )

-- On an open line com_sendw() writes all bytes in order, in blocks of at most 16, and reports their
-- number.
pub com_sendw-wire :
    (p : Port) (bytes : List ℕ)
    → p.is_open ≡ true
    → (blocks : List (List ℕ)) × (com_sendw p bytes
        ≡ (pos (length bytes), record p { sent = p.sent ++ blocks }))
      × (wire blocks ≡ bytes)
      × All (λ b. length b ≤ 16) blocks
unfolding com_sendw
com_sendw-wire p bytes o =
    let (whole, small) = wire-blocks (length bytes) bytes (omega arith) in
    (wait_blocks (length bytes) bytes, rw o refl, whole, small)

-- An open line, and the bytes that arrive on it with no pause.
abbrev pub Line : Port → List ℕ → Type 0
Line p stream = (p.is_open ≡ true) × (pending p.incoming ≡ stream)

-- The line after some blocks were sent and some bytes came.
abbrev pub Goes : Port → Port → List (List ℕ) → List ℕ → Type 0
Goes p q blocks rest = Line q rest × (q.sent ≡ p.sent ++ blocks)

pub com_send_open :
    (p : Port) (bytes : List ℕ)
    → p.is_open ≡ true
    → com_send p bytes ≡ (pos (length bytes), record p { sent = p.sent ++ bytes ∷ [] })
unfolding com_send
com_send_open p bytes o = rw o refl

pub com_sendw_open :
    (p : Port) (bytes : List ℕ)
    → p.is_open ≡ true
    → com_sendw p bytes
      ≡ (pos (length bytes), record p { sent = p.sent ++ wait_blocks (length bytes) bytes })
unfolding com_sendw
com_sendw_open p bytes o = rw o refl
