-- ===== src/Pdu/Examples.antt =====
-- Runs of the codec of genproto.c, and its theorems at concrete inputs.
use ic35link.Base.{ℕ, ◌≡◌, refl, List, [], ◌∷◌, replicate}
use ic35link.Base.CString.{c_str}
use ic35link.Pdu.{putbyte, putword, putdword, putbtxt, puttxt0, chksum, chksum_loop}

abbrev room : List ℕ
room = replicate 8 0xee

putdword_bytes : putdword room 2 0x05000001 ≡ 0xee ∷ 0xee ∷ 1 ∷ 0 ∷ 0 ∷ 5 ∷ 0xee ∷ 0xee ∷ []
unfolding putdword putword putbyte
putdword_bytes = refl

puttxt0_bytes :
    puttxt0 room 1 (b'I' ∷ b'C' ∷ 0 ∷ 7 ∷ [])
    ≡ 0xee ∷ b'I' ∷ b'C' ∷ 0 ∷ 0xee ∷ 0xee ∷ 0xee ∷ 0xee ∷ []
unfolding puttxt0 putbtxt c_str
puttxt0_bytes = refl

chksum_wraps : chksum (replicate 300 0xff) 300 ≡ 10964
unfolding chksum chksum_loop
chksum_wraps = refl
