-- ===== src/Level1/Frame.antt =====
-- The block that L1send() (synproto.c) puts on the line, described byte by byte.
use ic35link.Base.{
  ℕ, zero, suc, ◌+◌, ◌-◌, ◌/◌, ◌%◌, ◌^◌, ◌≤◌, ◌<◌, ◌≡◌, refl, sym, ap, ap₂, ◌∙◌, true, none, some,
  List, [], ◌∷◌, ◌++◌, arith, length, length-append, take, drop, set, u8, u16, append_assoc,
  take-append-drop, length-take, take-length, IsByte,
}
use ic35link.Base.CString.{set-append, append-cons}
use ic35link.Base.Int.{pos}
use ic35link.Pdu.{putbyte, putword, chksum}
use ic35link.Pdu.Checksum.{sum, chksum-sum}
use ic35link.Com.{Port, com_send}
use ic35link.Level1.{puthdr, l1send}

-- A long PDU: id, total length (least significant byte first), data, and a checksum of two bytes.
abbrev pub head : ℕ → List ℕ → List ℕ
head id body = id ∷ (length body + 5) % 2 ^ 8 ∷ (length body + 5) / 2 ^ 8 % 2 ^ 8 ∷ body

abbrev pub block : ℕ → List ℕ → ℕ → List ℕ
block id body ck = head id body ++ ck % 2 ^ 8 ∷ ck / 2 ^ 8 % 2 ^ 8 ∷ []

-- The PDU whose checksum is that of its own header and data.
abbrev pub frame : ℕ → List ℕ → List ℕ
frame id body = block id body (u16 (sum (head id body)))

putword-append :
    (pre post : List ℕ) (x y w at : ℕ)
    → at ≡ length pre
    → putword (pre ++ (x ∷ y ∷ post)) at w ≡ pre ++ (w % 2 ^ 8 ∷ w / 2 ^ 8 % 2 ^ 8 ∷ post)
unfolding putword putbyte
putword-append pre post x y w at e =
    ap (λ b. set b (at + 1) (u8 (w / 2 ^ 8 % 2 ^ 8)))
      (set-append pre (y ∷ post) x (u8 (w % 2 ^ 8)) (at + 0) (omega arith))
    ∙ ap (λ b. set b (at + 1) (u8 (w / 2 ^ 8 % 2 ^ 8)))
        (sym (append-cons pre (y ∷ post) (u8 (w % 2 ^ 8))))
    ∙ set-append (pre ++ u8 (w % 2 ^ 8) ∷ []) post y (u8 (w / 2 ^ 8 % 2 ^ 8)) (at + 1)
        (omega (arith, length-append pre (u8 (w % 2 ^ 8) ∷ [])))
    ∙ append-cons pre (u8 (w / 2 ^ 8 % 2 ^ 8) ∷ post) (u8 (w % 2 ^ 8))
    ∙ ap₂ (λ k l. pre ++ k ∷ l ∷ post) (omega arith) (omega arith)

puthdr_lem :
    (a b c id len : ℕ) (rest : List ℕ)
    → IsByte id
    → len + 3 < 2 ^ 16
    → puthdr (a ∷ b ∷ c ∷ rest) 0 id len
      ≡ (id ∷ (len + 3) % 2 ^ 8 ∷ (len + 3) / 2 ^ 8 % 2 ^ 8 ∷ rest, len + 3)
unfolding puthdr putword putbyte
puthdr_lem a b c id len rest hid h = ground arith

com_send_open :
    (p : Port) (block : List ℕ)
    → p.is_open ≡ true
    → com_send p block ≡ (pos (length block), record p { sent = p.sent ++ block ∷ [] })
unfolding com_send
com_send_open p block o = ground arith

-- A short PDU is three bytes, and no buffer is touched.
pub l1send_short :
    (p : Port) (id : ℕ)
    → p.is_open ≡ true
    → IsByte id
    → l1send p id none 0 ≡ ([], pos 3, record p { sent = p.sent ++ (id ∷ 3 ∷ 0 ∷ []) ∷ [] })
unfolding l1send
l1send_short p id o h =
    rw (puthdr_lem 0 0 0 id 0 [] h (omega arith), com_send_open p (id ∷ 3 ∷ 0 ∷ []) o)

pub number : (m n : ℕ) → m ≡ n → m ≡ n
number m n e = e

length-frame : (id : ℕ) (body : List ℕ) → length body + 5 ≡ length (frame id body)
length-frame id body = omega (
  arith,
  length-append body (0 ∷ 0 ∷ []),
  length-append (head id body)
      (u16 (sum (head id body)) % 2 ^ 8 ∷ u16 (sum (head id body)) / 2 ^ 8 % 2 ^ 8 ∷ []),
)

-- The checksum goes behind the body, over header and body.
close_frame :
    (id x y : ℕ) (body rest : List ℕ)
    → putword
        (head id body ++ (x ∷ y ∷ rest))
        (length body + 3)
        (chksum (head id body ++ (x ∷ y ∷ rest)) (length body + 3))
      ≡ frame id body ++ rest
close_frame id x y body rest =
    ap (putword (head id body ++ (x ∷ y ∷ rest)) (length body + 3)) (
      chksum-sum (head id body ++ (x ∷ y ∷ rest)) (length body + 3)
      ∙ ap (λ t. u16 (sum t))
          (take-length (head id body) (x ∷ y ∷ rest) (length body + 3) (omega arith)))
    ∙ putword-append (head id body) rest x y (u16 (sum (head id body))) (length body + 3)
        (omega arith)
    ∙ sym (
        append_assoc (head id body)
          (u16 (sum (head id body)) % 2 ^ 8 ∷ u16 (sum (head id body)) / 2 ^ 8 % 2 ^ 8 ∷ []) rest)

l1send_split :
    (p : Port) (id a b c x y : ℕ) (body rest : List ℕ)
    → p.is_open ≡ true
    → IsByte id
    → length body + 5 < 2 ^ 16
    → l1send p id (some (a ∷ b ∷ c ∷ (body ++ (x ∷ y ∷ rest)))) (length body) ≡ (
      frame id body ++ rest,
      pos (length body + 5),
      record p { sent = p.sent ++ frame id body ∷ [] },
    )
unfolding l1send
l1send_split p id a b c x y body rest o hid h =
    rw
      (
        puthdr_lem a b c id (length body + 2) (body ++ (x ∷ y ∷ rest)) hid (omega arith),
        number (length body + 2 + 3) (length body + 5) (omega arith),
        number (length body + 5 - 2) (length body + 3) (omega arith),
        close_frame id x y body rest,
        take-length (frame id body) rest (length body + 5) (length-frame id body),
        com_send_open p (frame id body) o,
      )
      (ap (λ k. (frame id body ++ rest, pos k, record p { sent = p.sent ++ frame id body ∷ [] }))
        (sym (length-frame id body)))

split_two :
    (n : ℕ) (xs : List ℕ)
    → n + 2 ≤ length xs
    → (x : ℕ) × (y : ℕ) × (rest : List ℕ) × (drop n xs ≡ x ∷ y ∷ rest)
split_two n [] h = absurd (omega arith)
split_two zero (x ∷ []) h = absurd (omega arith)
split_two zero (x ∷ y ∷ rest) h = (x, y, rest, refl)
split_two (suc n) (x ∷ xs) h = split_two n xs (omega arith)

-- The body of the PDU stands in the buffer behind the room for the header. On an open line
-- L1send() puts the frame of that body on the line as one block, and reports its length; the
-- buffer must have room for header, body and checksum, and the length must fit its two bytes.
pub l1send-frame :
    (p : Port) (id l2len : ℕ) (pdu : List ℕ)
    → p.is_open ≡ true
    → IsByte id
    → l2len + 5 ≤ length pdu
    → l2len + 5 < 2 ^ 16
    → (l1send p id (some pdu) l2len).1 ≡ pos (l2len + 5)
      × ((l1send p id (some pdu) l2len).2
          ≡ record p { sent = p.sent ++ frame id (take l2len (drop 3 pdu)) ∷ [] })
l1send-frame p id l2len (a ∷ b ∷ c ∷ pdu) o hid h fits =
    let (x, y, rest, e) = split_two l2len pdu (omega arith) in
    let body : List ℕ = take l2len pdu in
    let same : l2len ≡ length body = omega (arith, length-take l2len pdu) in
    let whole : pdu ≡ body ++ (x ∷ y ∷ rest) =
      sym (take-append-drop l2len pdu) ∙ ap (λ t. body ++ t) e in
    let done =
      ap₂ (λ t n. l1send p id (some (a ∷ b ∷ c ∷ t)) n) whole same
      ∙ l1send_split p id a b c x y body rest o hid (omega arith) in
    (ap (λ t. t.1) done ∙ ap (λ n. pos (n + 5)) (sym same), ap (λ t. t.2) done)
l1send-frame p id l2len (a ∷ b ∷ []) o hid h fits = absurd (omega arith)
l1send-frame p id l2len (a ∷ []) o hid h fits = absurd (omega arith)
l1send-frame p id l2len [] o hid h fits = absurd (omega arith)
