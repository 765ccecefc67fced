-- ===== src/Pdu/Codec.antt =====
-- What is put into a buffer is what is got from it (genproto.c).
use ic35link.Base.{
  ℕ, ◌≤◌, ◌+◌, ◌/◌, ◌%◌, ◌^◌, ◌<◌, ◌≡◌, ◌⊎◌, ◌∙◌, List, arith, length, set, length-set,
  get_or-set_self, get_or-set_ne, u8, u16, u32,
}
use ic35link.Base.CString.{c_str, strlen, c_str-write_at, take-drop-write_at, take-strlen}
use ic35link.Pdu.{
  putbtxt, puttext, putbyte, putword, putdword, getbyte, getword, getdword, getbtxt, gettext,
}

length-putword : (pdu : List ℕ) (at word : ℕ) → length (putword pdu at word) ≡ length pdu
unfolding putword putbyte
length-putword pdu at word = length-set _ _ _ ∙ length-set _ _ _

-- A word written within the buffer is read back, cut to sixteen bits.
getword-putword :
    (pdu : List ℕ) (at word : ℕ) → at + 1 < length pdu → getword (putword pdu at word) at ≡ u16 word
unfolding putword getword putbyte getbyte
getword-putword pdu at word h = omega (
  arith,
  get_or-set_self (set pdu (at + 0) (u8 (word % 2 ^ 8))) (at + 1) (u8 (word / 2 ^ 8 % 2 ^ 8)) 0
      (omega (arith, length-set pdu (at + 0) (u8 (word % 2 ^ 8)))),
  get_or-set_ne (set pdu (at + 0) (u8 (word % 2 ^ 8))) (at + 1) (at + 0) (u8 (word / 2 ^ 8 % 2 ^ 8))
      0 (omega arith),
  get_or-set_self pdu (at + 0) (u8 (word % 2 ^ 8)) 0 (omega arith),
)

-- It leaves every other byte as it was.
getbyte-putword_ne :
    (pdu : List ℕ) (at j word : ℕ)
    → (j < at) ⊎ (at + 1 < j)
    → getbyte (putword pdu at word) j ≡ getbyte pdu j
unfolding putword putbyte getbyte
getbyte-putword_ne pdu at j word h =
    get_or-set_ne _ (at + 1) j _ 0 (omega arith) ∙ get_or-set_ne pdu (at + 0) j _ 0 (omega arith)

-- Two words two bytes apart do not disturb one another.
getword-putword_ne :
    (pdu : List ℕ) (at j word : ℕ)
    → (j + 1 < at) ⊎ (at + 1 < j)
    → getword (putword pdu at word) j ≡ getword pdu j
unfolding getword
getword-putword_ne pdu at j word h =
    unfold getbyte in
    omega (
      arith,
      getbyte-putword_ne pdu at (j + 0) word (ground arith),
      getbyte-putword_ne pdu at (j + 1) word (ground arith),
    )

-- A doubleword that is put within the buffer is got back, cut to 32 bits; the buffer keeps its
-- length, and every byte outside the four keeps its value.
getdword-putdword :
    (pdu : List ℕ) (at dword : ℕ)
    → at + 3 < length pdu
    → (getdword (putdword pdu at dword) at ≡ u32 dword)
      × (length (putdword pdu at dword) ≡ length pdu)
      × ((j : ℕ) → (j < at) ⊎ (at + 3 < j) → getbyte (putdword pdu at dword) j ≡ getbyte pdu j)
unfolding putdword getdword
getdword-putdword pdu at dword h = (value, kept, others)
  where
    low : List ℕ
    low = putword pdu (at + 0) (dword % 2 ^ 16)

    kept : length (putdword pdu at dword) ≡ length pdu
    kept = length-putword low (at + 2) _ ∙ length-putword pdu (at + 0) _

    value : getdword (putdword pdu at dword) at ≡ u32 dword
    value = omega (
      arith,
      getword-putword low (at + 2) (dword / 2 ^ 16 % 2 ^ 16)
          (omega (arith, length-putword pdu (at + 0) (dword % 2 ^ 16))),
      getword-putword_ne low (at + 2) (at + 0) (dword / 2 ^ 16 % 2 ^ 16) (omega arith),
      getword-putword pdu (at + 0) (dword % 2 ^ 16) (omega arith),
    )

    others : (j : ℕ) → (j < at) ⊎ (at + 3 < j) → getbyte (putdword pdu at dword) j ≡ getbyte pdu j
    others j o =
        getbyte-putword_ne low (at + 2) j _ (omega arith)
        ∙ getbyte-putword_ne pdu (at + 0) j _ (omega arith)

-- A C string that is put into the buffer is got back as a string by its length, into a text buffer
-- with room for it and its NUL.
gettext-puttext :
    (pdu text dst : List ℕ) (at : ℕ)
    → at + strlen text ≤ length pdu
    → strlen text < length dst
    → c_str (gettext (puttext pdu at text) at dst (strlen text)) ≡ c_str text
unfolding gettext getbtxt puttext putbtxt
gettext-puttext pdu text dst at h room =
    rw (take-strlen text)
      (rw (take-drop-write_at pdu (c_str text) at h) (c_str-write_at dst text room))
