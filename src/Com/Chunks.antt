-- ===== src/Com/Chunks.antt =====
-- com_recv() does not depend on how the bytes are cut into reads (comio.c).
use ic35link.Base.{
  ℕ, zero, suc, ◌-◌, ◌≤◌, ◌<◌, ◌≡◌, refl, ap, ◌∙◌, sym, List, [], ◌∷◌, ◌++◌, arith, length, leb,
  Bool-cases, inl, inr, take, drop, length-append, take-append_left, take-append_right,
  drop-append_left, drop-append_right,
}
use ic35link.Base.{true, length-take, take-length, drop-length}
use ic35link.Base.Int.{pos}
use ic35link.Com.{Port, Keeps, Received, com_recv, Event, arrive, quiet, unread, com_recv_loop}

-- The bytes that arrive with no pause before them.
unfoldable pub pending : List Event → List ℕ
pending [] = []
pending (quiet ∷ es) = []
pending (arrive [] ∷ es) = []
pending (arrive (b ∷ bs) ∷ es) = (b ∷ bs) ++ pending es

take-nil : (n : ℕ) → take {A = ℕ} n [] ≡ []
take-nil zero = refl
take-nil (suc n) = refl

pending-unread : (bs : List ℕ) (es : List Event) → pending (unread bs es) ≡ bs ++ pending es
unfolding pending
pending-unread [] es = refl
pending-unread (b ∷ bs) es = refl

-- The bytes that com_recv() returns are the first `want` of those that arrive with no pause.
pub com_recv_loop-take :
    (es : List Event) (want : ℕ) → (com_recv_loop es want).0 ≡ take want (pending es)
unfolding com_recv_loop pending
com_recv_loop-take [] want = sym (take-nil want)
com_recv_loop-take (quiet ∷ es) want = sym (take-nil want)
com_recv_loop-take (arrive [] ∷ es) want = sym (take-nil want)
com_recv_loop-take (arrive (b ∷ bs) ∷ es) want = elim (Bool-cases (leb want (suc (length bs)))) [
  | inl e ↦ rw e (sym (take-append_left want (b ∷ bs) (pending es) (ground arith)))
  | inr e ↦ rw e (
      ap (λ t. (b ∷ bs) ++ t) (com_recv_loop-take es (want - suc (length bs)))
      ∙ sym (take-append_right want (b ∷ bs) (pending es) (ground arith)))
]

-- If that many arrive, the others stay for the next call.
com_recv_loop-drop :
    (es : List Event) (want : ℕ)
    → 0 < want
    → want ≤ length (pending es)
    → pending (com_recv_loop es want).1 ≡ drop want (pending es)
unfolding com_recv_loop pending
com_recv_loop-drop [] want p h = absurd (omega arith)
com_recv_loop-drop (quiet ∷ es) want p h = absurd (omega arith)
com_recv_loop-drop (arrive [] ∷ es) want p h = absurd (omega arith)
com_recv_loop-drop (arrive (b ∷ bs) ∷ es) want p h =
    elim (Bool-cases (leb want (suc (length bs)))) [
      | inl e ↦
          rw e
            (pending-unread _ es ∙ sym (drop-append_left want (b ∷ bs) (pending es) (ground arith)))
      | inr e ↦ rw e (
          com_recv_loop-drop es (want - suc (length bs)) (ground arith)
            (ground (arith, length-append (b ∷ bs) (pending es)))
          ∙ sym (drop-append_right want (b ∷ bs) (pending es) (ground arith)))
    ]

-- On an open line, when at least `want` bytes (and `want` is not 0) arrive with no pause, com_recv()
-- returns exactly the first `want` of them however they are cut into reads; the others arrive at
-- the next call, and nothing else of the state changes.
pub com_recv_exact :
    (p : Port) (want : ℕ)
    → p.is_open ≡ true
    → 0 < want
    → want ≤ length (pending p.incoming)
    → ((com_recv p want).rlen ≡ pos want)
      × ((com_recv p want).bytes ≡ take want (pending p.incoming))
      × (pending (com_recv p want).port.incoming ≡ drop want (pending p.incoming))
      × Keeps p (com_recv p want).port
unfolding com_recv
com_recv_exact p want o pw h = rw o (
  ap pos (
      ap length (com_recv_loop-take p.incoming want)
      ∙ omega (arith, length-take want (pending p.incoming))),
  com_recv_loop-take p.incoming want,
  com_recv_loop-drop p.incoming want pw h,
  (refl, refl, refl),
)

-- The same for bytes that are known.
pub com_recv_step :
    (p : Port) (want : ℕ) (got rest : List ℕ)
    → p.is_open ≡ true
    → pending p.incoming ≡ got ++ rest
    → want ≡ length got
    → 0 < want
    → (q : Port) × (com_recv p want ≡ record { rlen = pos want; bytes = got; port = q })
      × (pending q.incoming ≡ rest)
      × (q.is_open ≡ true)
      × Keeps p q
com_recv_step p want got rest o e n pw =
    let enough : want ≤ length (pending p.incoming) =
      omega (arith, ap (λ (t : List ℕ). length t) e, length-append got rest) in
    let (len, bytes, left, kept) = com_recv_exact p want o pw enough in
    let r : Received = com_recv p want in
    (
      r.port,
      λ i. record {
        rlen = len i;
        bytes = (bytes ∙ ap (take want) e ∙ take-length got rest want n) i;
        port = r.port;
      },
      left ∙ ap (drop want) e ∙ drop-length got rest want n,
      kept.0 ∙ o,
      kept,
    )

-- Whatever arrives.
pub com_recv-Keeps : (p : Port) (want : ℕ) → Keeps p (com_recv p want).port
unfolding com_recv
com_recv-Keeps p want = ground arith
