-- ===== src/Session/Noted.antt =====
-- The table of records and actions in the phases of syncfile() of src/ic35sync.c: what is noted there,
-- and the loops that act on all of it.
use ic35link.Base.{
  ℕ, zero, suc, ◌<◌, ◌≡◌, ◌≢◌, refl, ap, ap₂, ◌∙◌, Bool, true, none, some, List, [], ◌∷◌, ◌++◌,
  arith, length, map, replicate, All, All-append, get_or-append_left, get_or-append_right,
  length-append, ne→==,
}
use ic35link.Base.Int.{ℤ, pos, ok}
use ic35link.Record.{Ic35Rec, new_ic35rec}
use ic35link.Rectab.{Ic35Op, RecOp, Table, put_ic35recs, get_ic35recs}
use ic35link.Rectab.Order.{entries}
use ic35link.Session.Sync.{id_at, entry, act_found, act_loop, is_delete}

-- A table that was filled from the start.
abbrev pub Filled : Table → List RecOp → Type 0
Filled t es = (n : ℕ) × (t ≡ map some es ++ replicate n none)

put-Filled :
    (es : List RecOp) (n : ℕ) (e : RecOp)
    → All (λ x. x.rec ≢ e.rec) es
    → Filled (put_ic35recs (map some es ++ replicate n none) e) (es ++ e ∷ [])
unfolding put_ic35recs
put-Filled [] zero e h = (63, refl)
put-Filled [] (suc n) e h = (n, refl)
put-Filled (x ∷ es) n e h =
    let (m, same) = put-Filled es n e h.1 in
    (m, rw (ne→== x.rec e.rec h.0) (ap (◌∷◌ (some x)) same))

pub entries-Filled : (es : List RecOp) (n : ℕ) → entries (map some es ++ replicate n none) ≡ es
entries-Filled [] zero = refl
entries-Filled [] (suc n) = entries-Filled [] n
entries-Filled (x ∷ es) n = ap (◌∷◌ x) (entries-Filled es n)

-- The first entry is taken out, whatever its id.
pub get_first :
    (recid_of : ℕ → ℕ) (t : Table) (e : RecOp) (es : List RecOp)
    → entries t ≡ e ∷ es
    → ((get_ic35recs recid_of t 0).0 ≡ some e) × (entries (get_ic35recs recid_of t 0).1 ≡ es)
unfolding get_ic35recs
get_first recid_of [] e es h = absurd (ground arith)
get_first recid_of (none ∷ t) e es h = get_first recid_of t e es h
get_first recid_of (some x ∷ t) e es h = ground arith

pub get_nothing :
    (recid_of : ℕ → ℕ) (t : Table) → entries t ≡ [] → (get_ic35recs recid_of t 0).0 ≡ none
unfolding get_ic35recs
get_nothing recid_of [] h = refl
get_nothing recid_of (none ∷ t) h = get_nothing recid_of t h
get_nothing recid_of (some x ∷ t) h = absurd (ground arith)

-- The ids on which an operation succeeds one after the other.
abbrev pub Acts : {D : Type 0} → (D → ℕ → ℤ × D) → D → List ℕ → D → Type 0
Acts act d [] d' = d ≡ d'
Acts {D} act d (id ∷ ids) d' = (n : ℕ) × (d1 : D) × (act d id ≡ (pos n, d1)) × Acts act d1 ids d'

unfoldable pub ids_of : List Ic35Rec → List RecOp → List ℕ
ids_of heap [] = []
ids_of heap (e ∷ es) = id_at heap e.rec ∷ ids_of heap es

-- What the loop does with a table of entries that are all acted on.
pub act_loop-entries :
    {D : Type 0} (rounds : ℕ) (act : D → ℕ → ℤ × D) (is_op : Ic35Op → Bool) (heap : List Ic35Rec)
    (d d' : D) (t : Table) (es : List RecOp)
    → entries t ≡ es
    → length es < rounds
    → All (λ e. is_op e.op ≡ true) es
    → Acts act d (ids_of heap es) d'
    → (t' : Table) × (act_loop rounds act is_op heap d t ≡ some (ok, d', t'))
unfolding act_loop act_found ids_of
act_loop-entries zero act is_op heap d d' t es e h ops acts = absurd (omega arith)
act_loop-entries (suc rounds) act is_op heap d d' t [] e h ops acts =
    let nothing = get_nothing (id_at heap) t e in
    (
      (get_ic35recs (id_at heap) t 0).1,
      rw nothing (ap (λ x. some (ok, x, (get_ic35recs (id_at heap) t 0).1)) acts),
    )
act_loop-entries (suc rounds) act is_op heap d d' t (x ∷ es) e h (op, ops) (n, d1, ran, acts) =
    let (first, others) = get_first (id_at heap) t x es e in
    let (t', run) =
      act_loop-entries rounds act is_op heap d1 d' (get_ic35recs (id_at heap) t 0).1 es others
        (omega arith) ops acts in
    (t', rw (first, op, ran) run)

-- The table that phase 3a builds: the records noted, in their order, with their ids.
abbrev pub Noted : List Ic35Rec → Table → List ℕ → Type 0
Noted heap t ids =
    (es : List RecOp) × Filled t es
    × All (λ e. is_delete e.op ≡ true) es
    × All (λ e. e.rec < length heap) es
    × (ids_of heap es ≡ ids)

pub ids-longer :
    (heap : List Ic35Rec) (r : Ic35Rec) (es : List RecOp)
    → All (λ e. e.rec < length heap) es
    → ids_of (heap ++ r ∷ []) es ≡ ids_of heap es
unfolding ids_of
ids-longer heap r [] h = refl
ids-longer heap r (e ∷ es) h =
    ap₂ (◌∷◌) (ap (λ x. x.id) (get_or-append_left heap (r ∷ []) e.rec new_ic35rec h.0))
      (ids-longer heap r es h.1)

pub ids_count : (heap : List Ic35Rec) (es : List RecOp) → length (ids_of heap es) ≡ length es
unfolding ids_of
ids_count heap [] = refl
ids_count heap (e ∷ es) = ap suc (ids_count heap es)

below-longer :
    (heap : List Ic35Rec) (r : Ic35Rec) (es : List RecOp)
    → All (λ e. e.rec < length heap) es
    → All (λ e. e.rec < length (heap ++ r ∷ [])) es
below-longer heap r [] h = tt
below-longer heap r (e ∷ es) h =
    (omega (arith, h.0, length-append heap (r ∷ [])), below-longer heap r es h.1)

pub Noted-longer :
    (heap : List Ic35Rec) (r : Ic35Rec) (t : Table) (ids : List ℕ)
    → Noted heap t ids
    → Noted (heap ++ r ∷ []) t ids
Noted-longer heap r t ids (es, filled, ops, below, same) =
    (es, filled, ops, below-longer heap r es below, ids-longer heap r es below ∙ same)

others : (n : ℕ) (es : List RecOp) → All (λ e. e.rec < n) es → All (λ e. e.rec ≢ n) es
others n [] h = tt
others n (e ∷ es) h = ((λ z. omega (arith, h.0, z)), others n es h.1)

ids-append :
    (heap : List Ic35Rec) (xs ys : List RecOp)
    → ids_of heap (xs ++ ys) ≡ ids_of heap xs ++ ids_of heap ys
unfolding ids_of
ids-append heap [] ys = refl
ids-append heap (x ∷ xs) ys = ap (◌∷◌ (id_at heap x.rec)) (ids-append heap xs ys)

pub Noted-more :
    (heap : List Ic35Rec) (r : Ic35Rec) (t : Table) (ids : List ℕ)
    → Noted heap t ids
    → Noted (heap ++ r ∷ []) (put_ic35recs t (entry (length heap) Ic35Op.delete)) (ids ++ r.id ∷ [])
unfolding ids_of
Noted-more heap r t ids (es, (n, filled), ops, below, same) =
    let e : RecOp = entry (length heap) Ic35Op.delete in
    let (m, put) = put-Filled es n e (others (length heap) es below) in
    (
      es ++ e ∷ [],
      (m, ap (λ x. put_ic35recs x e) filled ∙ put),
      All-append (λ x. is_delete x.op ≡ true) es (e ∷ []) ops (refl, tt),
      All-append (λ x. x.rec < length (heap ++ r ∷ [])) es (e ∷ []) (below-longer heap r es below)
          (omega (arith, length-append heap (r ∷ [])), tt),
      ids-append (heap ++ r ∷ []) es (e ∷ [])
          ∙ ap₂ (◌++◌) (ids-longer heap r es below ∙ same) (
              ap (λ x. x.id ∷ [])
                (get_or-append_right heap (r ∷ []) 0 (length heap) new_ic35rec (omega arith))),
    )

pub Noted-cong :
    (heap : List Ic35Rec) (t : Table) (ids ids' : List ℕ)
    → ids ≡ ids'
    → Noted heap t ids
    → Noted heap t ids'
Noted-cong heap t ids ids' e (es, filled, ops, below, same) = (es, filled, ops, below, same ∙ e)
