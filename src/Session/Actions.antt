-- ===== src/Session/Actions.antt =====
-- The loop of importfile() in src/ic35sync.c over the actions that it noted, and what it returns.
use ic35link.Base.{
  ℕ, zero, suc, ◌+◌, ◌<◌, ◌≡◌, ◌⊎◌, Bool, true, false, if◌then◌else◌, refl, ap, ◌∙◌, inl, inr, none,
  some, List, [], ◌∷◌, arith, length, get_or, set, Option,
}
use ic35link.Base.Int.{ℤ, pos, negsuc, ok, err}
use ic35link.Record.{Ic35Rec, new_ic35rec}
use ic35link.Rectab.{Ic35Op, RecOp, Table, get_ic35recs}
use ic35link.Rectab.Order.{entries}
use ic35link.Session.{Device, PimOper}
use ic35link.Session.Sync.{Sess, id_at}
use ic35link.Session.Ran.{idle_op, idle, Does, Ran}
use ic35link.Session.Noted.{get_first, get_nothing}
use ic35link.Session.Import.{
  mark_clean, import_act, import_done, execute, execute_found, execute_acted, imported,
  import_compared,
}

module _ {D S : Type 0} (dev : Device D) (pim : PimOper S) (rounds : ℕ) where
  execute_end :
      (left fd absent : ℕ) (rval : ℤ) (x : Sess D S)
      → entries x.table ≡ []
      → (x' : Sess D S) × (execute dev pim (suc left) fd rval absent x ≡ some (rval, absent, x'))
        × (x'.dev ≡ x.dev)
        × (x'.pim ≡ x.pim)
        × (x'.heap ≡ x.heap)
  unfolding execute execute_found
  execute_end left fd absent rval x e =
      let nothing = get_nothing (id_at x.heap) x.table e in
      (
        record x { table = (get_ic35recs (id_at x.heap) x.table 0).1 },
        rw nothing refl,
        refl,
        refl,
        refl,
      )

  execute_step :
      (left fd absent : ℕ) (rval : ℤ) (x : Sess D S) (e : RecOp) (es : List RecOp) (t : Table)
      → entries x.table ≡ e ∷ es
      → (get_ic35recs (id_at x.heap) x.table 0).1 ≡ t
      → execute dev pim (suc left) fd rval absent x
        ≡ execute_acted dev pim absent rval e
            (record { dev = x.dev; pim = x.pim; heap = x.heap; table = t })
            (λ v n y. execute dev pim left fd v n y)
            (import_act dev pim fd x.dev (get_or x.heap e.rec new_ic35rec) e.op)
  unfolding execute execute_found
  execute_step left fd absent rval x e es t h h' =
      let (found, others) = get_first (id_at x.heap) x.table e es h in rw (found, h') refl

  act-cases :
      (fd : ℕ) (d : D) (r : Ic35Rec) (op : Ic35Op)
      → ((import_act dev pim fd d r op ≡ none) × (idle_op op ≡ 1))
        ⊎ ((rc : ℤ) × (r' : Ic35Rec) × (d' : D) × (import_act dev pim fd d r op ≡ some (rc, r', d'))
            × Does dev pim fd op d r rc r' d'
            × (idle_op op ≡ 0))
  unfolding import_act
  act-cases fd d r Ic35Op.noact = inl (refl, refl)
  act-cases fd d r Ic35Op.delete = inl (refl, refl)
  act-cases fd d r Ic35Op.write =
      let (rc, r', d') = dev.write_frec d fd r in inr (rc, r', d', refl, refl, refl)
  act-cases fd d r Ic35Op.update =
      let (rc, r', d') = dev.update_frec d fd r in inr (rc, r', d', refl, refl, refl)
  act-cases fd d r Ic35Op.commit =
      let (rc, d') = dev.commit_frec d fd r.id in inr (rc, r, d', refl, (refl, refl), refl)

  -- A run of the loop, told by what its actions did.
  abbrev Executed : ℕ → ℕ → ℤ → List RecOp → Sess D S → Option (ℤ × ℕ × Sess D S) → Type 0
  Executed fd n rval es x run =
      (bad : Bool) × (x' : Sess D S) × Ran dev pim fd es x.dev x.pim x.heap bad x'.dev x'.pim
        x'.heap
      × (run ≡ some (if bad then err else rval, n, x'))

  acted_none :
      (left fd absent : ℕ) (rval : ℤ) (e : RecOp) (y : Sess D S)
      → import_act dev pim fd y.dev (get_or y.heap e.rec new_ic35rec) e.op ≡ none
      → execute_acted dev pim absent rval e y
          (λ v m z. execute dev pim left fd v m z)
          (import_act dev pim fd y.dev (get_or y.heap e.rec new_ic35rec) e.op)
        ≡ execute dev pim left fd rval (suc absent) y
  unfolding execute_acted
  acted_none left fd absent rval e y a =
      ap (execute_acted dev pim absent rval e y (λ v m z. execute dev pim left fd v m z)) a

  acted_some :
      (left fd absent : ℕ) (rval : ℤ) (e : RecOp) (y : Sess D S) (out : ℤ × Ic35Rec × D)
      → import_act dev pim fd y.dev (get_or y.heap e.rec new_ic35rec) e.op ≡ some out
      → execute_acted dev pim absent rval e y
          (λ v m z. execute dev pim left fd v m z)
          (import_act dev pim fd y.dev (get_or y.heap e.rec new_ic35rec) e.op)
        ≡ execute dev pim left fd
            (import_done dev pim e rval y out).0
            absent
            (import_done dev pim e rval y out).1
  unfolding execute_acted
  acted_some left fd absent rval e y out a =
      ap (execute_acted dev pim absent rval e y (λ v m z. execute dev pim left fd v m z)) a

  -- The session after an action.
  abbrev acted : RecOp → Sess D S → Ic35Rec → D → S → Sess D S
  acted e y r d s = record { dev = d; pim = s; heap = set y.heap e.rec r; table = y.table }

  done_good :
      (e : RecOp) (rval : ℤ) (y : Sess D S) (n : ℕ) (r : Ic35Rec) (d : D)
      → import_done dev pim e rval y (pos n, r, d)
        ≡ (rval, acted e y r d (mark_clean dev pim y.pim e.pim r.id))
  unfolding import_done
  done_good e rval y n r d = refl

  done_bad :
      (e : RecOp) (rval : ℤ) (y : Sess D S) (n : ℕ) (r : Ic35Rec) (d : D)
      → import_done dev pim e rval y (negsuc n, r, d) ≡ (err, acted e y r d y.pim)
  unfolding import_done
  done_bad e rval y n r d = refl

  -- How the loop goes on after an action.
  abbrev goes_on : ℕ → ℕ → ℕ → ℤ × Sess D S → Option (ℤ × ℕ × Sess D S)
  goes_on left fd absent (v, y) = execute dev pim left fd v absent y

  execute_all :
      (es : List RecOp) (left fd absent n : ℕ) (rval : ℤ) (x : Sess D S)
      → entries x.table ≡ es
      → length es < left
      → n ≡ absent + idle es
      → Executed fd n rval es x (execute dev pim left fd rval absent x)
  execute_all es zero fd absent n rval x e h k = absurd (omega arith)
  execute_all [] (suc left) fd absent n rval x e h k =
      let (x', run, at, kept, mem) = execute_end left fd absent rval x e in
      let same : absent ≡ n = omega arith in
      (
        false,
        x',
        rw (at, kept, mem) (Ran.done x.dev x.pim x.heap),
        run ∙ ap (λ m. some (rval, m, x')) same,
      )
  execute_all (e ∷ es) (suc left) fd absent n rval x h more k =
      let t : Table = (get_ic35recs (id_at x.heap) x.table 0).1 in
      let rest : entries t ≡ es = (get_first (id_at x.heap) x.table e es h).1 in
      let y : Sess D S = record { dev = x.dev; pim = x.pim; heap = x.heap; table = t } in
      let step = execute_step left fd absent rval x e es t h refl in
      elim (act-cases fd x.dev (get_or x.heap e.rec new_ic35rec) e.op) [
        | inl (act, one) ↦
            let (bad, x', ran, run) =
              execute_all es left fd (suc absent) n rval y rest (omega arith)
                (omega (arith, one, k)) in
            (
              bad,
              x',
              Ran.none_to_do e es x.dev x'.dev x.pim x'.pim x.heap x'.heap bad one ran,
              step ∙ acted_none left fd absent rval e y act ∙ run,
            )
        | inr (pos m, r, d, act, does, nothing) ↦
            let y' : Sess D S = acted e y r d (mark_clean dev pim x.pim e.pim r.id) in
            let (bad, x', ran, run) =
              execute_all es left fd absent n rval y' rest (omega arith)
                (omega (arith, nothing, k)) in
            (
              bad,
              x',
              Ran.good e es x.dev d x'.dev x.pim x'.pim x.heap x'.heap bad m r does ran,
              step
                  ∙ acted_some left fd absent rval e y (pos m, r, d) act
                  ∙ ap (goes_on left fd absent) (done_good e rval y m r d)
                  ∙ run,
            )
        | inr (negsuc m, r, d, act, does, nothing) ↦
            let y' : Sess D S = acted e y r d x.pim in
            let (bad, x', ran, run) =
              execute_all es left fd absent n err y' rest (omega arith)
                (omega (arith, nothing, k)) in
            (
              true,
              x',
              Ran.failed e es x.dev d x'.dev x.pim x'.pim x.heap x'.heap bad m r does ran,
              step
                  ∙ acted_some left fd absent rval e y (negsuc m, r, d) act
                  ∙ ap (goes_on left fd absent) (done_bad e rval y m r d)
                  ∙ run
                  ∙ ap (λ v. some (v, n, x')) (either bad),
            )
      ]
    where
      either : (bad : Bool) → (if bad then err else err) ≡ err
      either true = refl
      either false = refl

  -- When there are more rounds than entries in the table, the loop of importfile() over the actions
  -- ends whatever the device answers. It does the commits, updates and writes of the table in its
  -- order, on the device and on the records as the ones before have left them; each that succeeds
  -- gives the record of the PC its id and makes it clean, and one that fails does not end the loop.
  -- The value of importfile() is then ERR exactly when one has failed, else the number of entries
  -- that had no action, the records that are only on the IC35; the file is closed.
  pub import_compared-value :
      (fd : ℕ) (x : Sess D S)
      → length (entries x.table) < rounds
      → (bad : Bool) × (d : D) × (y : Sess D S) × Ran dev pim fd
          (entries x.table)
          x.dev
          x.pim
          x.heap
          bad
          d
          y.pim
          y.heap
        × (import_compared dev pim rounds fd (some x)
            ≡ some (if bad then err else pos (idle (entries x.table)), y))
        × (y.dev ≡ (dev.close_file d fd).1)
  import_compared-value fd x h =
      let n : ℕ = idle (entries x.table) in
      let (bad, x', ran, run) =
        execute_all (entries x.table) rounds fd 0 n ok x refl h (omega arith) in
      let y : Sess D S = record {
        dev = (dev.close_file x'.dev fd).1;
        pim = x'.pim;
        heap = x'.heap;
        table = [];
      } in
      (bad, x'.dev, y, ran, ap (imported dev pim rounds fd) run ∙ value bad n x', refl)
    where
      value :
          (bad : Bool) (n : ℕ) (z : Sess D S)
          → imported dev pim rounds fd (some (if bad then err else ok, n, z))
            ≡ some (
              if bad then err else pos n,
              record { dev = (dev.close_file z.dev fd).1; pim = z.pim; heap = z.heap; table = [] },
            )
      value true n z = refl
      value false n z = refl
