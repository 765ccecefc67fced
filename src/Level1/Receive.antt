-- ===== src/Level1/Receive.antt =====
-- What L1recv() (synproto.c) accepts and what it refuses.
use ic35link.Base.{
  ℕ, suc, ◌+◌, ◌-◌, ◌*◌, ◌/◌, ◌%◌, ◌^◌, ◌≤◌, ◌<◌, ◌≡◌, ◌≢◌, refl, ap, ap₂, ◌∙◌, true, some, List,
  [], ◌∷◌, ◌++◌, arith, length, length-append, take, drop, u16, append_assoc, if◌then◌else◌, ◌==◌,
  min, IsByte, take-length, get_or-append_right, lt→leb, le→ltb, drop-length,
}
use ic35link.Base.CString.{write_at, write_at_lem}
use ic35link.Base.Int.{ℤ, pos, err}
use ic35link.Pdu.{getword, getbyte}
use ic35link.Pdu.Checksum.{sum, sum-append, chksum-sum}
use ic35link.Com.{Port, Keeps}
use ic35link.Com.Chunks.{pending, com_recv_step}
use ic35link.Level1.{l1data, l1recv, l1recv_data, l1recv_block, l1recv_check}
use ic35link.Level1.Frame.{head, block, frame, number}

-- What the checksum test decides on a block that has arrived whole.
abbrev verdict : List ℕ → ℕ → ℕ → ℤ
verdict body c0 c1 =
    if u16 (sum (head l1data body)) == c1 * 2 ^ 8 + c0 then pos (length body) else err

length_word :
    (n : ℕ) (tail : List ℕ)
    → n < 2 ^ 16
    → getword (l1data ∷ n % 2 ^ 8 ∷ n / 2 ^ 8 % 2 ^ 8 ∷ tail) 1 ≡ n
unfolding getword getbyte
length_word n tail h = omega arith

checksum_word :
    (body rest : List ℕ) (c0 c1 : ℕ)
    → getword (head l1data body ++ (c0 ∷ c1 ∷ rest)) (length body + 3) ≡ c1 * 2 ^ 8 + c0
unfolding getword getbyte
checksum_word body rest c0 c1 = omega (
  arith,
  get_or-append_right (head l1data body) (c0 ∷ c1 ∷ rest) 0 (length body + 3 + 0) 0 (omega arith),
  get_or-append_right (head l1data body) (c0 ∷ c1 ∷ rest) 1 (length body + 3 + 1) 0 (omega arith),
)

check_lem :
    (body rest : List ℕ) (c0 c1 : ℕ) (q : Port)
    → l1recv_check l1data (head l1data body ++ (c0 ∷ c1 ∷ rest)) (length body + 5) q ≡ record {
      rval = verdict body c0 c1;
      rid = l1data;
      pdu = head l1data body ++ (c0 ∷ c1 ∷ rest);
      port = q;
    }
unfolding l1recv_check
check_lem body rest c0 c1 q =
    rw
      (
        number (length body + 5 - 2) (length body + 3) (omega arith),
        checksum_word body rest c0 c1,
        chksum-sum (head l1data body ++ (c0 ∷ c1 ∷ rest)) (length body + 3),
        take-length (head l1data body) (c0 ∷ c1 ∷ rest) (length body + 3) (omega arith),
      )
      (ground arith)

written :
    (front body tail : List ℕ) (c0 c1 : ℕ)
    → 3 ≡ length front
    → length body + 2 ≤ length tail
    → write_at (front ++ tail) 3 (body ++ (c0 ∷ c1 ∷ []))
      ≡ front ++ (body ++ (c0 ∷ c1 ∷ drop (length body + 2) tail))
written front body tail c0 c1 e room =
    let more : List ℕ = body ++ (c0 ∷ c1 ∷ []) in
    let size : length more ≡ length body + 2 = length-append body (c0 ∷ c1 ∷ []) in
    write_at_lem (front ++ tail) more 3 (omega (arith, length-append front tail))
    ∙ ap₂ (λ u v. u ++ (more ++ drop (length more) v)) (take-length front tail 3 e)
        (drop-length front tail 3 e)
    ∙ ap (λ k. front ++ (more ++ drop k tail)) size
    ∙ ap (λ t. front ++ t) (append_assoc body (c0 ∷ c1 ∷ []) (drop (length body + 2) tail))

block_lem :
    (p : Port) (body rest tail : List ℕ) (c0 c1 : ℕ)
    → p.is_open ≡ true
    → pending p.incoming ≡ (body ++ (c0 ∷ c1 ∷ [])) ++ rest
    → length body + 2 ≤ length tail
    → length body + 5 < 2 ^ 16
    → (q : Port) × (l1recv_block p l1data
          (l1data ∷ (length body + 5) % 2 ^ 8 ∷ (length body + 5) / 2 ^ 8 % 2 ^ 8 ∷ tail)
        ≡ record {
          rval = verdict body c0 c1;
          rid = l1data;
          pdu = head l1data body ++ (c0 ∷ c1 ∷ drop (length body + 2) tail);
          port = q;
        })
      × (pending q.incoming ≡ rest)
      × Keeps p q
unfolding l1recv_block
block_lem p body rest tail c0 c1 o e room fits =
    let n : ℕ = length body + 5 in
    let more : List ℕ = body ++ (c0 ∷ c1 ∷ []) in
    let (q, r, left, open_still, kept) =
      com_recv_step p (length body + 2) more rest o e
        (omega (arith, length-append body (c0 ∷ c1 ∷ []))) (omega arith) in
    (
      q,
      rw
          (
            length_word n tail fits,
            number (min n (suc (suc (suc (length tail)))) - 3) (length body + 2) (omega arith),
            r,
            lt→leb n 3 (omega arith),
            le→ltb (length body + 2) (n - 3) (omega arith),
            written (l1data ∷ n % 2 ^ 8 ∷ n / 2 ^ 8 % 2 ^ 8 ∷ []) body tail c0 c1 refl room,
          )
          (check_lem body (drop (length body + 2) tail) c0 c1 q),
      left,
      kept,
    )

-- A block that arrives whole, with no pause, and fits the buffer.
pub wire_lem :
    (p : Port) (body rest buf : List ℕ) (c0 c1 : ℕ)
    → p.is_open ≡ true
    → pending p.incoming ≡ (head l1data body ++ (c0 ∷ c1 ∷ [])) ++ rest
    → length body + 5 ≤ length buf
    → length body + 5 < 2 ^ 16
    → (q : Port) × (l1recv p (some buf) ≡ record {
      rval = verdict body c0 c1;
      rid = l1data;
      pdu = head l1data body ++ (c0 ∷ c1 ∷ drop (length body + 5) buf);
      port = q;
    })
      × (pending q.incoming ≡ rest)
      × Keeps p q
unfolding l1recv l1recv_data
wire_lem p body rest (x ∷ y ∷ z ∷ tail) c0 c1 o e room fits =
    let n : ℕ = length body + 5 in
    let body_on : List ℕ = (body ++ (c0 ∷ c1 ∷ [])) ++ rest in
    let lo : ℕ = n % 2 ^ 8 in
    let hi : ℕ = n / 2 ^ 8 % 2 ^ 8 in
    let (q, r, left, on, kept) =
      com_recv_step p 1 (l1data ∷ []) (lo ∷ hi ∷ body_on) o e refl (omega arith) in
    let (q', r', left', on', kept') =
      com_recv_step q 2 (lo ∷ hi ∷ []) body_on on left refl (omega arith) in
    let (q'', r'', left'', kept'') =
      block_lem q' body rest tail c0 c1 on' left' (omega arith) fits in
    (
      q'',
      rw (r, r', r'')
          (λ i. record {
            rval = verdict body c0 c1;
            rid = l1data;
            pdu =
                head l1data body
                ++ (c0
                    ∷ c1
                    ∷ drop
                        (number (suc (suc (suc (length body + 2)))) (length body + 5) (omega arith)
                          i)
                        (x ∷ y ∷ z ∷ tail));
            port = q'';
          }),
      left'',
      (kept''.0 ∙ kept'.0 ∙ kept.0, kept''.1 ∙ kept'.1 ∙ kept.1, kept''.2 ∙ kept'.2 ∙ kept.2),
    )
wire_lem p body rest (x ∷ y ∷ []) c0 c1 o e room fits = absurd (omega arith)
wire_lem p body rest (x ∷ []) c0 c1 o e room fits = absurd (omega arith)
wire_lem p body rest [] c0 c1 o e room fits = absurd (omega arith)

-- When a data frame arrives with no pause on an open line, and the buffer has room for it, then
-- L1recv() returns the length of its body and the id of a data response, the body stands in the
-- buffer behind the header, and what arrived behind the frame stays for the next call.
pub l1recv-frame :
    (p : Port) (body rest buf : List ℕ)
    → p.is_open ≡ true
    → pending p.incoming ≡ frame l1data body ++ rest
    → length body + 5 ≤ length buf
    → length body + 5 < 2 ^ 16
    → ((l1recv p (some buf)).rval ≡ pos (length body))
      × ((l1recv p (some buf)).rid ≡ l1data)
      × (take (length body) (drop 3 (l1recv p (some buf)).pdu) ≡ body)
      × (pending (l1recv p (some buf)).port.incoming ≡ rest)
      × Keeps p (l1recv p (some buf)).port
l1recv-frame p body rest buf o e room fits =
    let ck : ℕ = u16 (sum (head l1data body)) in
    let c0 : ℕ = ck % 2 ^ 8 in
    let c1 : ℕ = ck / 2 ^ 8 % 2 ^ 8 in
    let (q, r, left, kept) = wire_lem p body rest buf c0 c1 o e room fits in
    rw r (
      ground arith,
      refl,
      take-length body (c0 ∷ c1 ∷ drop (length body + 5) buf) (length body) refl,
      left,
      kept,
    )

-- When one byte of the body is changed on the way to another byte, L1recv() returns an error.
pub l1recv_damaged :
    (p : Port) (pre post rest buf : List ℕ) (a b : ℕ)
    → p.is_open ≡ true
    → IsByte a
    → IsByte b
    → a ≢ b
    → pending p.incoming
      ≡ block l1data (pre ++ (b ∷ post)) (u16 (sum (head l1data (pre ++ (a ∷ post))))) ++ rest
    → length (pre ++ (b ∷ post)) + 5 ≤ length buf
    → length (pre ++ (b ∷ post)) + 5 < 2 ^ 16
    → (l1recv p (some buf)).rval ≡ err
l1recv_damaged p pre post rest buf a b o ha hb ne e room fits =
    let ck : ℕ = u16 (sum (head l1data (pre ++ (a ∷ post)))) in
    let (q, r, left, kept) =
      wire_lem p (pre ++ (b ∷ post)) rest buf (ck % 2 ^ 8) (ck / 2 ^ 8 % 2 ^ 8) o e room fits in
    rw r (
      ground (
        arith,
        sum-append pre (a ∷ post),
        sum-append pre (b ∷ post),
        length-append pre (a ∷ post),
        length-append pre (b ∷ post),
      ))
