-- ===== src/Bin/Places.antt =====
-- The elements of the list of databin.c by their places, under each change of the list.
use ic35link.Base.{
  ℕ, ◌≡◌, ◌≢◌, ◌↔◌, refl, sym, Bool, true, false, Option, none, some, List, [], ◌∷◌, ◌==◌, ◌||◌,
  arith, Bool-cases, inl, inr, ne→==, All, ◌<◌,
}
use ic35link.Record.{Ic35Rec}
use ic35link.Bin.{
  Elmt, Bin, behind, first_in_file, from, look, bin_getrec, unlink, change, insert_in_file,
  has_file,
}
use ic35link.Record.Ids.{file_id}
use ic35link.Bin.Walk.{IsDistinct, Others}

-- Whether an element of the list is at a place.
abbrev here : ℕ → List Elmt → Bool
here at [] = false
here at (e ∷ es) = e.at == at || here at es

abbrev pub reads : Option ℕ → List Elmt → Bool
reads none es = true
reads (some at) es = here at es

-- Every element is at a place of its own that malloc() has given out, and the read position, if
-- there is one, is an element.
abbrev pub IsBin : Bin → Type 0
IsBin s =
    IsDistinct s.binlist × All (λ e. e.at < s.next_at) s.binlist × (reads s.binget s.binlist ≡ true)

behind-none : (at : ℕ) (es : List Elmt) → (behind at es ≡ none) ↔ (here at es ≡ false)
unfolding behind
behind-none at [] = (λ _. refl, λ _. refl)
behind-none at (e ∷ es) = ground (arith, behind-none at es)

from_none : (get : Option ℕ) (es : List Elmt) → (from get es ≡ none) ↔ (reads get es ≡ false)
unfolding from
from_none none es = ground arith
from_none (some at) es = behind-none at es

look-none : (s : Bin) (f : ℕ) (o : Option (List Elmt)) → (look s f o ≡ none) ↔ (o ≡ none)
unfolding look
look-none s f none = (λ _. refl, λ _. refl)
look-none s f (some es) = ground arith

pub getrec_none : (s : Bin) (f : ℕ) → (bin_getrec s f ≡ none) ↔ (reads s.binget s.binlist ≡ false)
unfolding bin_getrec
getrec_none s f =
    ground (arith, look-none s f (from s.binget s.binlist), from_none s.binget s.binlist)

Others-here : (at : ℕ) (es : List Elmt) → Others at es → here at es ≡ false
Others-here at [] h = refl
Others-here at (e ∷ es) h = rw (ne→== e.at at h.0) (Others-here at es h.1)

Others-unlink : (at x : ℕ) (es : List Elmt) → Others x es → Others x (unlink at es)
unfolding unlink
Others-unlink at x [] h = tt
Others-unlink at x (e ∷ es) h = elim (Bool-cases (e.at == at)) [
  | inl t ↦ rw t h.1
  | inr n ↦ rw n (h.0, Others-unlink at x es h.1)
]

pub unlink-IsDistinct : (at : ℕ) (es : List Elmt) → IsDistinct es → IsDistinct (unlink at es)
unfolding unlink
unlink-IsDistinct at [] d = tt
unlink-IsDistinct at (e ∷ es) d = elim (Bool-cases (e.at == at)) [
  | inl t ↦ rw t d.1
  | inr n ↦ rw n (Others-unlink at e.at es d.0, unlink-IsDistinct at es d.1)
]

pub here-unlink_self : (at : ℕ) (es : List Elmt) → IsDistinct es → here at (unlink at es) ≡ false
unfolding unlink
here-unlink_self at [] d = refl
here-unlink_self at (e ∷ es) d = ground (arith, Others-here e.at es d.0, here-unlink_self at es d.1)

pub here-unlink_ne : (at x : ℕ) (es : List Elmt) → x ≢ at → here x (unlink at es) ≡ here x es
unfolding unlink
here-unlink_ne at x [] h = refl
here-unlink_ne at x (e ∷ es) h = ground (arith, here-unlink_ne at x es h)

pub first-here :
    (f : ℕ) (es : List Elmt) (e : Elmt) → first_in_file f es ≡ some e → here e.at es ≡ true
unfolding first_in_file
first-here f [] e h = ground arith
first-here f (x ∷ es) e h = ground (arith, first-here f es e)

behind-here :
    (at x : ℕ) (es rest : List Elmt)
    → behind at es ≡ some rest
    → here x rest ≡ true
    → here x es ≡ true
unfolding behind
behind-here at x [] rest h t = ground arith
behind-here at x (e ∷ es) rest h t = ground (arith, behind-here at x es rest)

pub from-here :
    (get : Option ℕ) (x : ℕ) (es rest : List Elmt)
    → from get es ≡ some rest
    → here x rest ≡ true
    → here x es ≡ true
unfolding from
from-here none x es rest h t = ground arith
from-here (some at) x es rest h t = behind-here at x es rest h t

pub here-change :
    (at x : ℕ) (f : Ic35Rec → Ic35Rec) (es : List Elmt) → here x (change at f es) ≡ here x es
unfolding change
here-change at x f [] = refl
here-change at x f (e ∷ es) = ground (arith, here-change at x f es)

-- A predicate on places is not disturbed by a change of a record.
pub All-change {κ} :
    (P : ℕ → Type κ) (at : ℕ) (f : Ic35Rec → Ic35Rec) (es : List Elmt)
    → All (λ e. P e.at) es
    → All (λ e. P e.at) (change at f es)
unfolding change
All-change P at f [] h = tt
All-change P at f (e ∷ es) h = elim (Bool-cases (e.at == at)) [
  | inl t ↦ rw t (h.0, All-change P at f es h.1)
  | inr n ↦ rw n (h.0, All-change P at f es h.1)
]

pub change-IsDistinct :
    (at : ℕ) (f : Ic35Rec → Ic35Rec) (es : List Elmt) → IsDistinct es → IsDistinct (change at f es)
unfolding change
change-IsDistinct at f [] d = tt
change-IsDistinct at f (e ∷ es) d = elim (Bool-cases (e.at == at)) [
  | inl t ↦ rw t (All-change (λ x. x ≢ e.at) at f es d.0, change-IsDistinct at f es d.1)
  | inr n ↦ rw n (All-change (λ x. x ≢ e.at) at f es d.0, change-IsDistinct at f es d.1)
]

pub All-unlink {κ} :
    (P : ℕ → Type κ) (at : ℕ) (es : List Elmt)
    → All (λ e. P e.at) es
    → All (λ e. P e.at) (unlink at es)
unfolding unlink
All-unlink P at [] h = tt
All-unlink P at (e ∷ es) h = elim (Bool-cases (e.at == at)) [
  | inl t ↦ rw t h.1
  | inr n ↦ rw n (h.0, All-unlink P at es h.1)
]

pub All-insert {κ} :
    (P : ℕ → Type κ) (f : ℕ) (new : Elmt) (es : List Elmt)
    → P new.at
    → All (λ e. P e.at) es
    → All (λ e. P e.at) (insert_in_file f new es)
unfolding insert_in_file
All-insert P f new [] p h = (p, tt)
All-insert P f new (e ∷ es) p h = elim (Bool-cases (file_id e.rec.id == f)) [
  | inl t ↦ elim (Bool-cases (has_file f es)) [
    | inl u ↦ rw (t, u) (h.0, All-insert P f new es p h.1)
    | inr u ↦ rw (t, u) (h.0, (p, h.1))
  ]
  | inr n ↦ rw n (h.0, All-insert P f new es p h.1)
]

pub here-insert :
    (f x : ℕ) (new : Elmt) (es : List Elmt)
    → here x es ≡ true
    → here x (insert_in_file f new es) ≡ true
unfolding insert_in_file
here-insert f x new [] h = ground arith
here-insert f x new (e ∷ es) h = ground (arith, here-insert f x new es)

pub insert-IsDistinct :
    (f : ℕ) (new : Elmt) (es : List Elmt)
    → Others new.at es
    → IsDistinct es
    → IsDistinct (insert_in_file f new es)
unfolding insert_in_file
insert-IsDistinct f new [] o d = (tt, tt)
insert-IsDistinct f new (e ∷ es) o d =
    let away : e.at ≢ new.at = o.0 in
    let back : new.at ≢ e.at = λ q. away (sym q) in
    let on : IsDistinct (insert_in_file f new es) = insert-IsDistinct f new es o.1 d.1 in
    let apart : Others e.at (insert_in_file f new es) =
      All-insert (λ x. x ≢ e.at) f new es back d.0 in
    elim (Bool-cases (file_id e.rec.id == f)) [
      | inl t ↦ elim (Bool-cases (has_file f es)) [
        | inl u ↦ rw (t, u) (apart, on)
        | inr u ↦ rw (t, u) ((back, d.0), (o.1, d.1))
      ]
      | inr n ↦ rw n (apart, on)
    ]
