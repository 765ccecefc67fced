-- ===== src/Level4/Heads.antt =====
-- The headers that sendcmd() (synproto.c) puts before a message.
use ic35link.Base.{
  ℕ, suc, ◌+◌, ◌/◌, ◌%◌, ◌^◌, ◌≤◌, ◌<◌, ◌≡◌, ◌≢◌, List, [], ◌∷◌, ◌++◌, arith, length, take, drop,
  replicate, u8, u16, ne→==,
}
use ic35link.Pdu.{putbyte, putword}
use ic35link.Level1.{puthdr}
use ic35link.Level4.{Encoded, enc, put_heads, sizeof_xbuff}

abbrev pub word_bytes : ℕ → List ℕ
word_bytes n = n % 2 ^ 8 ∷ n / 2 ^ 8 % 2 ^ 8 ∷ []

abbrev pub dword_bytes : ℕ → List ℕ
dword_bytes n = n % 2 ^ 8 ∷ n / 2 ^ 8 % 2 ^ 8 ∷ n / 2 ^ 16 % 2 ^ 8 ∷ n / 2 ^ 24 % 2 ^ 8 ∷ []

-- A level of the protocol: an id, the length of the whole, and what it carries.
abbrev pub level : ℕ → List ℕ → List ℕ
level id body = id ∷ (word_bytes (length body + 3) ++ body)

abbrev pub zeros : List ℕ
zeros = replicate sizeof_xbuff 0

-- The bytes behind the first header that the levels of a command fill.
abbrev pub wire : Encoded → List ℕ
wire e = take (put_heads e).1 (drop 3 (put_heads e).0)

-- The buffer has room for headers, and behind them a message that the encoding's length cuts out.
abbrev pub Laid : List ℕ → ℕ → List ℕ → Type 0
Laid pdu n m =
    (tail : List ℕ) × (pdu ≡ replicate 9 0 ++ tail)
    × (n ≡ length m)
    × (take n tail ≡ m)
    × (n + 2 ≤ length tail)

pub low : (n m : ℕ) → n ≡ m → u8 (u16 n % 2 ^ 8) ≡ m % 2 ^ 8
low n m e = omega arith

pub high : (n m : ℕ) → n ≡ m → u8 (u16 n / 2 ^ 8 % 2 ^ 8) ≡ m / 2 ^ 8 % 2 ^ 8
high n m e = omega arith

abbrev pub Room : Encoded → Type 0
Room e = ((put_heads e).1 + 5 ≤ length (put_heads e).0) × ((put_heads e).1 + 5 < 2 ^ 16)

pub wire_lem :
    (pdu m : List ℕ) (n l2 l3 : ℕ)
    → Laid pdu n m
    → l3 ≢ 0
    → l2 < 2 ^ 8
    → l3 < 2 ^ 8
    → n ≤ 4000
    → (wire (enc pdu n l2 l3) ≡ level l2 (level l3 m)) × Room (enc pdu n l2 l3)
unfolding put_heads puthdr putword putbyte
wire_lem pdu m n l2 l3 (tail, e, size, cut, room) ne h2 h3 small =
    let six : n + 3 + 3 ≡ suc (suc (suc (suc (suc (suc n))))) = omega arith in
    let b2 : u8 l2 ≡ l2 = omega arith in
    let b3 : u8 l3 ≡ l3 = omega arith in
    rw (e, ne→== l3 0 ne, six)
      (
        λ i.
            b2 i
            ∷ low (suc (suc (suc (suc (suc (suc n)))))) (length (level l3 m) + 3) (omega arith) i
            ∷ high (suc (suc (suc (suc (suc (suc n)))))) (length (level l3 m) + 3) (omega arith) i
            ∷ b3 i
            ∷ low (n + 3) (length m + 3) (omega arith) i
            ∷ high (n + 3) (length m + 3) (omega arith) i
            ∷ cut i,
        (omega arith, omega arith),
      )
