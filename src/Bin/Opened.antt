-- ===== src/Bin/Opened.antt =====
-- The list of databin.c after bin_open() and bin_close().
use ic35link.Base.{
  ℕ, suc, ◌+◌, ◌≤◌, refl, Bool, true, false, ◌||◌, not, length, get_or, List, [], ◌∷◌, ◌==◌, arith,
  Bool-cases, inl, inr, All, ◌<◌,
}
use ic35link.Record.{Ic35Rec}
use ic35link.Bin.{Bin}
use ic35link.Bin.Disk.{
  read_loop, elmts, Source, bytes, absent, unreadable, read_source, bin_open, wants_file, bin_close,
}
use ic35link.Bin.Walk.{IsDistinct, Others}
use ic35link.Bin.Places.{IsBin}

elmts-Others : (at k : ℕ) (rs : List Ic35Rec) → at < k → Others at (elmts k rs)
unfolding elmts
elmts-Others at k [] h = tt
elmts-Others at k (r ∷ rs) h =
    ((λ e. omega (arith, e, h)), elmts-Others at (suc k) rs (omega arith))

-- Elements that malloc() gives one after the other.
elmts_lem :
    (k n : ℕ) (rs : List Ic35Rec)
    → k + length rs ≤ n
    → IsDistinct (elmts k rs) × All (λ e. e.at < n) (elmts k rs)
unfolding elmts
elmts_lem k n [] h = (tt, tt)
elmts_lem k n (r ∷ rs) h =
    let (d, a) = elmts_lem (suc k) n rs (omega arith) in
    ((elmts-Others k (suc k) rs (omega arith), d), (omega arith, a))

read_source-IsBin : (stray : ℕ) (s : Bin) (source : Source) → IsBin (read_source stray s source).1
unfolding read_source
read_source-IsBin stray s (bytes file) =
    let rs : List Ic35Rec = read_loop stray (length file) file in
    let (d, a) = elmts_lem s.next_at (s.next_at + length rs) rs (omega arith) in (d, a, refl)
read_source-IsBin stray s absent = (tt, tt, refl)
read_source-IsBin stray s unreadable = (tt, tt, refl)

pub open-IsBin :
    (stray : ℕ) (s : Bin) (iomode fname : List ℕ) (source : Source)
    → IsBin (bin_open stray s iomode fname source).1
unfolding bin_open
open-IsBin stray s iomode fname source =
    elim (Bool-cases (length fname == 0 || not (get_or iomode 0 0 == 114))) [
      | inl t ↦ rw t (tt, tt, refl)
      | inr f ↦ rw f (read_source-IsBin stray s source)
    ]

pub close-IsBin :
    (s : Bin) (iomode fname : List ℕ) (can_write : Bool)
    → IsBin s
    → IsBin (bin_close s iomode fname can_write).1
unfolding bin_close
close-IsBin s iomode fname true w = elim (Bool-cases (wants_file iomode fname)) [
  | inl t ↦ rw t (tt, tt, refl)
  | inr f ↦ rw f (tt, tt, refl)
]
close-IsBin s iomode fname false w = elim (Bool-cases (wants_file iomode fname)) [
  | inl t ↦ rw t w
  | inr f ↦ rw f (tt, tt, refl)
]
