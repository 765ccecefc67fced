-- ===== src/Session/Deletes.antt =====
-- Phase 3 of syncfile() in src/ic35sync.c: which records are deleted on the IC35.
use ic35link.Base.{
  ℕ, suc, ◌+◌, ◌<◌, ◌≡◌, refl, sym, ap, ◌∙◌, true, false, Option, some, List, [], ◌∷◌, ◌++◌, arith,
  length, append_assoc, append-nil, if◌then◌else◌, Bool-cases, inl, inr, ltb,
}
use ic35link.Base.Int.{pos, ok}
use ic35link.Record.{Ic35Rec, new_ic35rec}
use ic35link.Rectab.{Ic35Op, Table, put_ic35recs}
use ic35link.Rectab.Order.{entries}
use ic35link.Session.{Device, PimOper}
use ic35link.Session.Sync.{Sess, entry, act_loop, is_delete, is_known, check_all}
use ic35link.Session.Syncfile.{phase3, closed, end_deletes}
use ic35link.Session.Noted.{
  Acts, Noted, Noted-longer, Noted-more, Noted-cong, ids_of, ids_count, entries-Filled,
  act_loop-entries,
}
use ic35link.Session.View.{Entry, Reads}

-- The entries that the PC does not have by their ids.
abbrev pub unknown : (ℕ → Option ℕ) → List Entry → List ℕ
unknown byid [] = []
unknown byid (e ∷ es) = if is_known (byid e.id) then unknown byid es else e.id ∷ unknown byid es

module _ {D S : Type 0} (dev : Device D) (pim : PimOper S) where
  -- The device gives some entries from an index on, and is then in another state.
  abbrev pub Lists : ℕ → ℕ → D → List Entry → D → Type 0
  Lists fd irec d [] d' = d ≡ d'
  Lists fd irec d (e ∷ es) d' = (d1 : D) × Reads dev fd irec d e d1 × Lists fd (suc irec) d1 es d'

  check_step :
      (left irec fd n len : ℕ) (d1 : D) (r : Ic35Rec) (x : Sess D S)
      → dev.read_frec x.dev fd irec new_ic35rec ≡ (pos len, r, d1)
      → check_all dev pim (suc left) irec fd n x ≡ (
          if is_known (pim.getrec_byid x.pim r.id)
          then check_all dev pim left
              (suc irec)
              fd
              n
              (record { dev = d1; pim = x.pim; heap = x.heap ++ r ∷ []; table = x.table })
          else check_all dev pim left (suc irec) fd (suc n) (record {
            dev = d1;
            pim = x.pim;
            heap = x.heap ++ r ∷ [];
            table = put_ic35recs x.table (entry (length x.heap) Ic35Op.delete);
          }))
  unfolding check_all
  check_step left irec fd n len d1 r x e = rw e refl

  check_all-unknown :
      (es : List Entry) (irec fd n : ℕ) (d' : D) (x : Sess D S) (ids : List ℕ)
      → Lists fd irec x.dev es d'
      → Noted x.heap x.table ids
      → (x' : Sess D S) × (check_all dev pim (length es) irec fd n x
          ≡ (ok, n + length (unknown (pim.getrec_byid x.pim) es), x'))
        × (x'.dev ≡ d')
        × (x'.pim ≡ x.pim)
        × Noted x'.heap x'.table (ids ++ unknown (pim.getrec_byid x.pim) es)
  check_all-unknown [] irec fd n d' x ids gives noted = (
    x,
    (unfold check_all in ap (λ k. (ok, k, x)) (omega arith)),
    gives,
    refl,
    rw (append-nil ids) noted,
  )
  check_all-unknown (e ∷ es) irec fd n d' x ids (d1, reads, gives) noted =
      let (len, r, read, same, bytes) = reads new_ic35rec in
      let byid : ℕ → Option ℕ = pim.getrec_byid x.pim in
      let step = check_step (length es) irec fd n len d1 r x read in
      elim (Bool-cases (is_known (byid r.id))) [
        | inl t ↦
            let x1 : Sess D S = record {
              dev = d1;
              pim = x.pim;
              heap = x.heap ++ r ∷ [];
              table = x.table;
            } in
            let (x', run, at, kept, noted') =
              check_all-unknown es (suc irec) fd n d' x1 ids gives
                (Noted-longer x.heap r x.table ids noted) in
            let t' : is_known (byid e.id) ≡ true = ap (λ i. is_known (byid i)) (sym same) ∙ t in
            (x', step ∙ rw t (rw t' run), at, kept, rw t' noted')
        | inr f ↦
            let x1 : Sess D S = record {
              dev = d1;
              pim = x.pim;
              heap = x.heap ++ r ∷ [];
              table = put_ic35recs x.table (entry (length x.heap) Ic35Op.delete);
            } in
            let (x', run, at, kept, noted') =
              check_all-unknown es (suc irec) fd (suc n) d' x1 (ids ++ r.id ∷ []) gives
                (Noted-more x.heap r x.table ids noted) in
            let f' : is_known (byid e.id) ≡ false = ap (λ i. is_known (byid i)) (sym same) ∙ f in
            (
              x',
              step ∙ rw f (rw f' (run ∙ ap (λ k. (ok, k, x')) (omega arith))),
              at,
              kept,
              rw f' (
                  Noted-cong x'.heap x'.table ((ids ++ r.id ∷ []) ++ unknown byid es)
                    (ids ++ e.id ∷ unknown byid es)
                    (append_assoc ids (r.id ∷ []) (unknown byid es)
                      ∙ ap (λ i. ids ++ i ∷ unknown byid es) same)
                    noted'),
            )
      ]

  delete_all :
      (rounds fd : ℕ) (heap : List Ic35Rec) (t : Table) (ids : List ℕ) (d d' : D)
      → Noted heap t ids
      → length ids < rounds
      → Acts (λ e recid. dev.delete_frec e fd recid) d ids d'
      → (t' : Table) × (act_loop rounds (λ e recid. dev.delete_frec e fd recid) is_delete heap d t
          ≡ some (ok, d', t'))
  delete_all rounds fd heap t ids d d' (es, (n, filled), ops, below, same) h acts =
      act_loop-entries rounds (λ e recid. dev.delete_frec e fd recid) is_delete heap d d' t es
        (ap entries filled ∙ entries-Filled es n)
        (omega (arith, h, ids_count heap es, ap (λ (l : List ℕ). length l) same)) ops
        (rw (sym same) at acts)

  phase3-noted :
      (rounds stray fileid fd nrec n : ℕ) (d : D) (x x' : Sess D S)
      → check_all dev pim nrec 0 fd 0 (record x { dev = d }) ≡ (ok, n, x')
      → phase3 dev pim rounds stray fileid fd x (pos nrec, d) ≡ (
          if ltb 0 n
          then end_deletes dev pim rounds stray fileid fd x' (
              act_loop rounds
                (λ e recid. dev.delete_frec e fd recid)
                is_delete
                x'.heap
                x'.dev
                x'.table)
          else closed dev pim rounds stray fileid fd ok x')
  unfolding phase3
  phase3-noted rounds stray fileid fd nrec n d x x' e = rw e refl

  -- When the table is empty, the device gives all records that it counts and then deletes one after
  -- the other those whose ids the PC does not have, and there are more rounds than such records,
  -- phase 3 of syncfile() succeeds: it deletes exactly these, in the order in which they were read
  -- and after all were read, closes the file, and leaves the records of the PC.
  pub phase3-unknown :
      (rounds stray fileid fd : ℕ) (es : List Entry) (d d1 d2 : D) (x : Sess D S)
      → x.table ≡ []
      → Lists fd 0 d es d1
      → length (unknown (pim.getrec_byid x.pim) es) < rounds
      → Acts (λ e recid. dev.delete_frec e fd recid) d1 (unknown (pim.getrec_byid x.pim) es) d2
      → (x' : Sess D S) × (phase3 dev pim rounds stray fileid fd x (pos (length es), d)
          ≡ some (ok, x'))
        × (x'.dev ≡ (dev.close_file d2 fd).1)
        × (x'.pim ≡ x.pim)
        × (x'.table ≡ [])
  unfolding ids_of
  phase3-unknown rounds stray fileid fd es d d1 d2 x empty gives enough acts =
      let ids : List ℕ = unknown (pim.getrec_byid x.pim) es in
      let (y, run, at, kept, noted) =
        check_all-unknown es 0 fd 0 d1 (record x { dev = d }) [] gives
          ([], (0, empty), tt, tt, refl) in
      let step = phase3-noted rounds stray fileid fd (length es) (0 + length ids) d x y run in
      let (t', deleted) =
        delete_all rounds fd y.heap y.table ids y.dev d2 noted enough (rw (sym at) at acts) in
      elim (Bool-cases (ltb 0 (0 + length ids))) [
        | inl t ↦ (
          record y { dev = (dev.close_file d2 fd).1; table = [] },
          step ∙ rw t (rw deleted refl),
          refl,
          kept,
          refl,
        )
        | inr f ↦ (
          record y { dev = (dev.close_file y.dev fd).1; table = [] },
          step ∙ rw f refl,
          ap (λ z. (dev.close_file z fd).1) (at ∙ none_left d1 d2 ids fd acts f),
          kept,
          refl,
        )
      ]
    where
      none_left :
          (e e' : D) (l : List ℕ) (n : ℕ)
          → Acts (λ d recid. dev.delete_frec d n recid) e l e'
          → ltb 0 (0 + length l) ≡ false
          → e ≡ e'
      none_left e e' [] n a f = a
      none_left e e' (i ∷ l) n a f = absurd (ground arith)
