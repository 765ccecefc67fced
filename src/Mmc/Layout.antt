-- ===== src/Mmc/Layout.antt =====
-- The bytes of each memory card command of src/mgrproto.c.
use ic35link.Base.{
  ℕ, zero, suc, ◌+◌, ◌/◌, ◌%◌, ◌^◌, ◌≤◌, ◌≡◌, refl, sym, ap, ◌∙◌, Option, none, some, List, [], ◌∷◌,
  ◌++◌, arith, length, take, set, replicate, u8, length-take, length-append, length-replicate,
  append_assoc, append-nil, take-length,
}
use ic35link.Base.CString.{c_str, strlen, write_at, write_at-append, set-append, take-strlen}
use ic35link.Pdu.{putbyte, putword, putbtxt, puttext, puttxt0, getbyte}
use ic35link.Mmc.{
  PduDesc, desc, noffs, mmcpdutab, Mcmd, getstatus, getlabel, diropen, dircreate, dirgetlen,
  dirread, dirclose, filedel, fileopen, filestat, fileread, filewrite, fileclose, code, varlen,
  encode, initvpdu, find_desc, put_iden, mmcard_text,
}

-- Least significant byte first.
abbrev pub word : ℕ → List ℕ
word w = u8 (w % 2 ^ 8) ∷ u8 (w / 2 ^ 8 % 2 ^ 8) ∷ []

-- The commands as the comments of the functions show them, with the identifier where they have one.
abbrev pub layout : Mcmd → List ℕ → List ℕ
layout (getstatus mmcnum) iden = 0x20 ∷ (mmcard_text ++ u8 (b'0' + mmcnum) ∷ 0 ∷ [])
layout (getlabel mmcnum) iden = 0x34 ∷ (mmcard_text ++ u8 (b'0' + mmcnum) ∷ 0 ∷ [])
layout (diropen dirpath) iden = 0x2A ∷ 1 ∷ 0 ∷ (c_str dirpath ++ 0 ∷ [])
layout (dircreate dirpath) iden = 0x2A ∷ 0 ∷ 0 ∷ (c_str dirpath ++ 0 ∷ [])
layout dirgetlen iden = 0x2B ∷ (iden ++ 0 ∷ [])
layout (dirread index) iden = 0x2C ∷ (iden ++ (word index ++ 0 ∷ []))
layout dirclose iden = 0x2E ∷ (iden ++ 0 ∷ [])
layout (filedel filepath) iden = 0x28 ∷ (c_str filepath ++ 0 ∷ [])
layout (fileopen filepath mode) iden = 0x22 ∷ (word mode ++ (c_str filepath ++ 0 ∷ []))
layout filestat iden = 0x26 ∷ (iden ++ 0 ∷ [])
layout (fileread blen) iden = 0x24 ∷ (iden ++ (word blen ++ 0 ∷ []))
layout (filewrite wdata dlen) iden = 0x23 ∷ (iden ++ (word dlen ++ (take dlen wdata ++ 0 ∷ [])))
layout fileclose iden = 0x27 ∷ (iden ++ 0 ∷ [])

-- Where status and identifier stand in the response.
abbrev pub desc_of : Mcmd → PduDesc
desc_of (getstatus mmcnum) = desc 0x20 9 noffs 0 noffs
desc_of (getlabel mmcnum) = desc 0x34 9 noffs 0 noffs
desc_of (diropen dirpath) = desc 0x2A 4 noffs 0 2
desc_of (dircreate dirpath) = desc 0x2A 4 noffs 0 2
desc_of dirgetlen = desc 0x2B 29 1 27 0
desc_of (dirread index) = desc 0x2C 31 1 27 0
desc_of dirclose = desc 0x2E 29 1 noffs 0
desc_of (filedel filepath) = desc 0x28 2 noffs 0 noffs
desc_of (fileopen filepath mode) = desc 0x22 4 noffs 0 2
desc_of filestat = desc 0x26 29 1 27 0
desc_of (fileread blen) = desc 0x24 31 1 27 0
desc_of (filewrite wdata dlen) = desc 0x23 31 1 27 0
desc_of fileclose = desc 0x27 29 1 noffs 0

abbrev pub Fits : Mcmd → Type 0
Fits (filewrite wdata dlen) = dlen ≤ length wdata
Fits c = Unit {0}

zeros-add : (m k n : ℕ) → k ≡ n + m → replicate {A = ℕ} k 0 ≡ replicate n 0 ++ replicate m 0
zeros-add m k zero e = ap (λ t. replicate {A = ℕ} t 0) (omega arith)
zeros-add m zero (suc n) e = absurd (omega arith)
zeros-add m (suc k) (suc n) e = ap (◌∷◌ 0) (zeros-add m k n (omega arith))

-- Room for n bytes and a zero behind k bytes.
room :
    (t k n : ℕ)
    → t ≡ k + (n + 1)
    → replicate {A = ℕ} t 0 ≡ replicate k 0 ++ (replicate n 0 ++ 0 ∷ [])
room t k n e = zeros-add (n + 1) t k e ∙ ap (λ r. replicate k 0 ++ r) (zeros-add 1 (n + 1) n refl)

puttxt0_lem :
    (pre old post text : List ℕ) (x at : ℕ)
    → at ≡ length pre
    → length old ≡ strlen text
    → puttxt0 (pre ++ (old ++ x ∷ post)) at text ≡ pre ++ (c_str text ++ 0 ∷ post)
unfolding puttxt0 putbtxt
puttxt0_lem pre old post text x at e n =
    rw (take-strlen text, write_at-append pre old (x ∷ post) (c_str text) at e n)
      (ap (λ b. set b (at + strlen text) 0) (sym (append_assoc pre (c_str text) (x ∷ post)))
        ∙ set-append (pre ++ c_str text) post x 0 (at + strlen text)
            (omega (arith, length-append pre (c_str text)))
        ∙ append_assoc pre (c_str text) (0 ∷ post))

put-iden_lem :
    (x : ℕ) (iden post : List ℕ)
    → length iden ≡ 27
    → put_iden 1 (x ∷ (replicate 27 0 ++ post)) (some iden) ≡ x ∷ (iden ++ post)
unfolding put_iden putbtxt
put-iden_lem x iden post e =
    ap (λ t. write_at (x ∷ (replicate 27 0 ++ post)) 1 t)
      (ap (take 27) (sym (append-nil iden)) ∙ take-length iden [] 27 (sym e))
    ∙ write_at-append (x ∷ []) (replicate 27 0) post iden 1 refl (omega (arith, e))

-- The identifier of a command that has one.
abbrev pub Given : Mcmd → Option (List ℕ) → List ℕ → Type 0
Given (getstatus mmcnum) fdstat iden = Unit {0}
Given (getlabel mmcnum) fdstat iden = Unit {0}
Given (diropen dirpath) fdstat iden = Unit {0}
Given (dircreate dirpath) fdstat iden = Unit {0}
Given (filedel filepath) fdstat iden = Unit {0}
Given (fileopen filepath mode) fdstat iden = Unit {0}
Given c fdstat iden = (fdstat ≡ some iden) × (length iden ≡ 27)

-- A buffer is found for the command, and what is encoded into it is the layout.
abbrev pub Encodes : Mcmd → Option (List ℕ) → List ℕ → Type 0
Encodes c fdstat iden =
    (pdu : List ℕ) × (initvpdu mmcpdutab (code c) (varlen c) ≡ some pdu)
    × (find_desc mmcpdutab (getbyte (encode c pdu) 0) ≡ some (desc_of c))
    × (put_iden (desc_of c).sidenoffs (encode c pdu) fdstat ≡ layout c iden)
    × (length (encode c pdu) ≡ length (layout c iden))

put-none_lem : (pdu : List ℕ) (fdstat : Option (List ℕ)) → put_iden noffs pdu fdstat ≡ pdu
unfolding put_iden
put-none_lem pdu none = refl
put-none_lem pdu (some fdstat) = refl

with_text :
    (pre text : List ℕ) (at : ℕ)
    → at ≡ length pre
    → puttxt0 (pre ++ (replicate (strlen text) 0 ++ 0 ∷ [])) at text ≡ pre ++ (c_str text ++ 0 ∷ [])
with_text pre text at e =
    puttxt0_lem pre (replicate (strlen text) 0) [] text 0 at e (length-replicate (strlen text) 0)

encode_with :
    (c : Mcmd) (fdstat : Option (List ℕ)) (iden pdu full : List ℕ)
    → initvpdu mmcpdutab (code c) (varlen c) ≡ some pdu
    → encode c pdu ≡ full
    → find_desc mmcpdutab (getbyte full 0) ≡ some (desc_of c)
    → put_iden (desc_of c).sidenoffs full fdstat ≡ layout c iden
    → length full ≡ length (layout c iden)
    → Encodes c fdstat iden
encode_with c fdstat iden pdu full start e found laid n = (
  pdu,
  start,
  ap (λ b. find_desc mmcpdutab (getbyte b 0)) e ∙ found,
  ap (λ b. put_iden (desc_of c).sidenoffs b fdstat) e ∙ laid,
  ap length e ∙ n,
)

-- A command that puts a path behind `pre`.
path_command :
    (c : Mcmd) (fdstat : Option (List ℕ)) (iden path pre : List ℕ) (t at : ℕ)
    → (desc_of c).sidenoffs ≡ noffs
    → layout c iden ≡ pre ++ (c_str path ++ 0 ∷ [])
    → t ≡ at + (strlen path + 1)
    → at ≡ length pre
    → initvpdu mmcpdutab (code c) (varlen c) ≡ some (set (replicate t 0) 0 (code c))
    → encode c (set (replicate at 0 ++ (replicate (strlen path) 0 ++ 0 ∷ [])) 0 (code c))
      ≡ puttxt0 (pre ++ (replicate (strlen path) 0 ++ 0 ∷ [])) at path
    → find_desc mmcpdutab (getbyte (pre ++ (c_str path ++ 0 ∷ [])) 0) ≡ some (desc_of c)
    → Encodes c fdstat iden
path_command c fdstat iden path pre t at none_ laid et e start enc found =
    let full : List ℕ = pre ++ (c_str path ++ 0 ∷ []) in
    encode_with c fdstat iden (set (replicate t 0) 0 (code c)) full start
      (ap (λ r. encode c (set r 0 (code c))) (room t at (strlen path) et)
        ∙ enc
        ∙ with_text pre path at e)
      found (ap (λ o. put_iden o full fdstat) none_ ∙ put-none_lem full fdstat ∙ sym laid)
      (ap length (sym laid))

-- A command that puts its fields behind the identifier.
iden_command :
    (c : Mcmd) (fdstat : Option (List ℕ)) (iden pdu post : List ℕ)
    → (fdstat ≡ some iden) × (length iden ≡ 27)
    → (desc_of c).sidenoffs ≡ 1
    → layout c iden ≡ code c ∷ (iden ++ post)
    → initvpdu mmcpdutab (code c) (varlen c) ≡ some pdu
    → encode c pdu ≡ code c ∷ (replicate 27 0 ++ post)
    → find_desc mmcpdutab (getbyte (code c ∷ (replicate 27 0 ++ post)) 0) ≡ some (desc_of c)
    → Encodes c fdstat iden
iden_command c fdstat iden pdu post (given, n) one laid start enc found =
    encode_with c fdstat iden pdu (code c ∷ (replicate 27 0 ++ post)) start enc found
      (ap (λ f. put_iden (desc_of c).sidenoffs (code c ∷ (replicate 27 0 ++ post)) f) given
        ∙ ap (λ o. put_iden o (code c ∷ (replicate 27 0 ++ post)) (some iden)) one
        ∙ put-iden_lem (code c) iden post n
        ∙ sym laid)
      (omega (arith, length-append iden post, n, ap (λ (t : List ℕ). length t) laid))

write-room :
    (wdata : List ℕ) (dlen : ℕ)
    → dlen ≤ length wdata
    → encode (filewrite wdata dlen) (set (replicate (31 + dlen) 0) 0 0x23)
      ≡ 0x23 ∷ (replicate 27 0 ++ (word dlen ++ (take dlen wdata ++ 0 ∷ [])))
unfolding encode putbtxt putword putbyte
write-room wdata dlen h =
    let pre : List ℕ = 0x23 ∷ (replicate 27 0 ++ word dlen) in
    let n : length (take dlen wdata) ≡ dlen = omega (arith, length-take dlen wdata) in
    ap (λ r. encode (filewrite wdata dlen) (set r 0 0x23)) (room (31 + dlen) 30 dlen (omega arith))
    ∙ ap (λ b. set b (30 + dlen) 0)
        (write_at-append pre (replicate dlen 0) (0 ∷ []) (take dlen wdata) 30 refl
            (omega (arith, n, length-replicate {A = ℕ} dlen 0))
          ∙ sym (append_assoc pre (take dlen wdata) (0 ∷ [])))
    ∙ set-append (pre ++ take dlen wdata) [] 0 0 (30 + dlen)
        (omega (arith, n, length-append pre (take dlen wdata)))
    ∙ append_assoc pre (take dlen wdata) (0 ∷ [])

-- Every memory card command finds a buffer in the table, and its PDU as it is sent has exactly the
-- bytes that the comments of the code show, when a file write has as many bytes as it says and the
-- commands on open files and directories have an identifier of 27 bytes.
pub encode-layout :
    (c : Mcmd) (fdstat : Option (List ℕ)) (iden : List ℕ)
    → Fits c
    → Given c fdstat iden
    → Encodes c fdstat iden
unfolding initvpdu find_desc encode getbyte putword putbyte puttext putbtxt
encode-layout (getstatus mmcnum) fdstat iden f g =
    unfold c_str in (0x20 ∷ replicate 8 0, refl, refl, put-none_lem _ fdstat, refl)
encode-layout (getlabel mmcnum) fdstat iden f g =
    unfold c_str in (0x34 ∷ replicate 8 0, refl, refl, put-none_lem _ fdstat, refl)
encode-layout (diropen dirpath) fdstat iden f g =
    path_command (diropen dirpath) fdstat iden dirpath (0x2A ∷ 1 ∷ 0 ∷ []) (4 + strlen dirpath) 3
      refl refl (omega arith) refl refl refl refl
encode-layout (dircreate dirpath) fdstat iden f g =
    path_command (dircreate dirpath) fdstat iden dirpath (0x2A ∷ 0 ∷ 0 ∷ []) (4 + strlen dirpath) 3
      refl refl (omega arith) refl refl refl refl
encode-layout dirgetlen fdstat iden f g =
    iden_command dirgetlen fdstat iden (0x2B ∷ replicate 28 0) (0 ∷ []) g refl refl refl refl refl
encode-layout (dirread index) fdstat iden f g =
    iden_command (dirread index) fdstat iden (0x2C ∷ replicate 30 0) (word index ++ 0 ∷ []) g refl
      refl refl refl refl
encode-layout dirclose fdstat iden f g =
    iden_command dirclose fdstat iden (0x2E ∷ replicate 28 0) (0 ∷ []) g refl refl refl refl refl
encode-layout (filedel filepath) fdstat iden f g =
    path_command (filedel filepath) fdstat iden filepath (0x28 ∷ []) (2 + strlen filepath) 1 refl
      refl (omega arith) refl refl refl refl
encode-layout (fileopen filepath mode) fdstat iden f g =
    path_command (fileopen filepath mode) fdstat iden filepath (0x22 ∷ word mode)
      (4 + strlen filepath) 3 refl refl (omega arith) refl refl refl refl
encode-layout filestat fdstat iden f g =
    iden_command filestat fdstat iden (0x26 ∷ replicate 28 0) (0 ∷ []) g refl refl refl refl refl
encode-layout (fileread blen) fdstat iden f g =
    iden_command (fileread blen) fdstat iden (0x24 ∷ replicate 30 0) (word blen ++ 0 ∷ []) g refl
      refl refl refl refl
encode-layout (filewrite wdata dlen) fdstat iden f g =
    iden_command (filewrite wdata dlen) fdstat iden (set (replicate (31 + dlen) 0) 0 0x23)
      (word dlen ++ (take dlen wdata ++ 0 ∷ [])) g refl refl refl (write-room wdata dlen f) refl
encode-layout fileclose fdstat iden f g =
    iden_command fileclose fdstat iden (0x27 ∷ replicate 28 0) (0 ∷ []) g refl refl refl refl refl
