-- ===== src/Session.antt =====
-- src/ic35sync.c: sessions between an IC35 and the records of the PC. The transactions of the device
-- and the operations of the record format (struct pim_oper of src/dataio.h, by which src/dataio.c
-- dispatches) are interfaces: Session/Synchro fills the first with Syntrans, Session/Parts the
-- second with Bin.
pub mod Export
pub mod View
pub mod Parts
pub mod Synchro
pub mod Sync
pub mod Syncfile
pub mod Noted
pub mod Deletes
pub mod Import
pub mod Formats
pub mod Importing
pub mod Ran
pub mod Actions
mod Examples
use ic35link.Base.{ℕ, ◌≡◌, ◌≢◌, Option, some, List}
use ic35link.Base.Int.{ℤ}
use ic35link.Record.{Ic35Rec}
use ic35link.Record.Ids.{rec_id}
use ic35link.Bin.Lookup.{raw_data}

-- The transactions with a device whose state is D: a file descriptor, a number of records or a
-- result, which is negative for an error, the record that was read into or written, and the device.
pub record Device (D : Type 0) : Type 0 where
  pub connect : D → ℤ × D
  pub write_sys_info : D → List ℕ → ℤ × D
  pub open_file : D → List ℕ → ℤ × D
  pub get_flen : D → ℕ → ℤ × D
  pub get_mod_flen : D → ℕ → ℤ × D
  pub read_frec : D → ℕ → ℕ → Ic35Rec → ℤ × Ic35Rec × D
  pub read_mod_frec : D → ℕ → Ic35Rec → ℤ × Ic35Rec × D
  pub read_id_frec : D → ℕ → ℕ → Ic35Rec → ℤ × Ic35Rec × D
  pub write_frec : D → ℕ → Ic35Rec → ℤ × Ic35Rec × D
  pub update_frec : D → ℕ → Ic35Rec → ℤ × Ic35Rec × D
  pub commit_frec : D → ℕ → ℕ → ℤ × D
  pub delete_frec : D → ℕ → ℕ → ℤ × D
  pub close_file : D → ℕ → ℤ × D
  pub disconnect : D → ℤ × D

-- The operations on PC records, which are found in the state S by a handle. An IC35 record is
-- returned where its data may be rebuilt or set. getrec() is `none` where C leaves it undefined.
pub record PimOper (S : Type 0) : Type 0 where
  pub rewind : S → S
  pub getrec : S → ℕ → Option (Option ℕ × S)
  pub getrec_byid : S → ℕ → Option ℕ
  pub cmpic35rec : S → Ic35Rec → ℕ → ℤ
  pub updic35rec : S → Ic35Rec → ℕ → S × Ic35Rec
  pub putic35rec : S → Ic35Rec → S × Ic35Rec
  pub delrec : S → ℕ → S
  pub recid : S → ℕ → ℕ
  pub set_recid : S → ℕ → ℕ → S
  pub recstat : S → ℕ → ℕ
  pub set_recstat : S → ℕ → ℕ → S

-- What holds of the records under their ids: `view` gives the raw data under an id, and a put sets
-- it for the id of the record and for no other, in every state that is `Good`.
pub record PimLaws {S : Type 0} (pim : PimOper S) : Type 1 where
  pub Good : S → Type 0
  pub view : S → ℕ → Option (List ℕ)
  pub put-Good : (s : S) (r : Ic35Rec) → Good s → Good (pim.putic35rec s r).0
  pub put-view_self :
      (s : S) (r : Ic35Rec)
      → Good s
      → rec_id r.id ≢ 0
      → view (pim.putic35rec s r).0 r.id ≡ some (raw_data r)
  pub put-view_ne :
      (s : S) (r : Ic35Rec) (k : ℕ)
      → Good s
      → rec_id r.id ≢ 0
      → k ≢ r.id
      → view (pim.putic35rec s r).0 k ≡ view s k
