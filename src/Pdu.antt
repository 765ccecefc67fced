-- ===== src/Pdu.antt =====
-- src/genproto.c: data items in the buffer of a protocol data unit, and the block checksum.
-- A pointer into a buffer is the buffer with an offset; a function that writes returns the buffer.
pub mod Codec
pub mod Checksum
mod Examples
use ic35link.Base.{
  ℕ, zero, suc, ◌+◌, ◌*◌, ◌/◌, ◌%◌, ◌^◌, List, [], ◌∷◌, set, get_or, take, drop, u8, u16,
}
use ic35link.Base.CString.{strlen, write_at, c_str}

unfoldable pub putbyte : List ℕ → ℕ → ℕ → List ℕ
putbyte pdu at byte = set pdu at (u8 byte)

-- Least significant byte first.
unfoldable pub putword : List ℕ → ℕ → ℕ → List ℕ
putword pdu at word = putbyte (putbyte pdu (at + 0) (word % 2 ^ 8)) (at + 1) (word / 2 ^ 8 % 2 ^ 8)

unfoldable pub putdword : List ℕ → ℕ → ℕ → List ℕ
putdword pdu at dword =
    putword (putword pdu (at + 0) (dword % 2 ^ 16)) (at + 2) (dword / 2 ^ 16 % 2 ^ 16)

unfoldable pub putbtxt : List ℕ → ℕ → List ℕ → ℕ → List ℕ
putbtxt pdu at text tlen = write_at pdu at (take tlen text)

unfoldable pub puttext : List ℕ → ℕ → List ℕ → List ℕ
puttext pdu at text = putbtxt pdu at text (strlen text)

unfoldable pub puttxt0 : List ℕ → ℕ → List ℕ → List ℕ
puttxt0 pdu at text = set (putbtxt pdu at text (strlen text)) (at + strlen text) 0

unfoldable pub getbyte : List ℕ → ℕ → ℕ
getbyte pdu at = get_or pdu at 0

-- The two bytes do not overlap, so `|` is a sum.
unfoldable pub getword : List ℕ → ℕ → ℕ
getword pdu at = getbyte pdu (at + 1) * 2 ^ 8 + getbyte pdu (at + 0)

unfoldable pub getdword : List ℕ → ℕ → ℕ
getdword pdu at = getword pdu (at + 2) * 2 ^ 16 + getword pdu (at + 0)

unfoldable pub getbtxt : List ℕ → ℕ → List ℕ → ℕ → List ℕ
getbtxt pdu at text tlen = write_at text 0 (take tlen (drop at pdu))

unfoldable pub gettext : List ℕ → ℕ → List ℕ → ℕ → List ℕ
gettext pdu at text tlen = set (getbtxt pdu at text tlen) tlen 0

-- `checksum` is an unsigned short; the loop goes over the first `dlen` bytes.
unfoldable pub chksum_loop : List ℕ → ℕ → ℕ → ℕ
chksum_loop bytes zero checksum = checksum
chksum_loop [] (suc left) checksum = checksum
chksum_loop (b ∷ bytes) (suc left) checksum = chksum_loop bytes left (u16 (checksum + b))

unfoldable pub chksum : List ℕ → ℕ → ℕ
chksum bytes dlen = chksum_loop bytes dlen 0
