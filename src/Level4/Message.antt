-- ===== src/Level4/Message.antt =====
-- The messages of the commands of synproto.c, described without the transmit buffer.
use ic35link.Base.{
  ℕ, ◌+◌, ◌-◌, ◌%◌, ◌^◌, ◌≤◌, ◌≡◌, Bool, List, [], ◌∷◌, ◌++◌, length, replicate, if◌then◌else◌,
}
use ic35link.Base.CString.{c_str, strlen}
use ic35link.Level4.{Cmd, inventec, power_text}
use ic35link.Level4.Heads.{word_bytes, dword_bytes, level}

-- Text in a field of n bytes, NUL behind it.
abbrev pub field : ℕ → List ℕ → List ℕ
field n s = c_str s ++ replicate (n - strlen s) 0

abbrev pub last_id : Bool → ℕ → ℕ → ℕ
last_id last a b = if last then a else b

-- What each command carries, level by level.
abbrev pub message : Cmd → List ℕ
message Cmd.ident = level 0x80 (0x10 ∷ 0 ∷ 0x64 ∷ 0 ∷ level 0x4a inventec)
message Cmd.disconn = level 0x81 []
message Cmd.getpower = level 0x82 (level 0x49 (3 ∷ 1 ∷ (power_text ++ 0 ∷ 0 ∷ 0 ∷ [])))
message (Cmd.password s) = level 0x82 (level 0x49 (3 ∷ 0 ∷ field 8 s))
message (Cmd.category s) = level 0x82 (level 0x49 (3 ∷ 2 ∷ field 8 s))
message Cmd.getdtime = level 0x83 (level 0x49 (2 ∷ 0 ∷ 0 ∷ []))
message (Cmd.setdtime s) = level 0x82 (level 0x49 (2 ∷ 1 ∷ 0 ∷ field 16 s))
message (Cmd.fopen s) = level 0x82 (
    level 0x49 (
      0
      ∷ 2
      ∷ (replicate 7 0
          ++ (dword_bytes (strlen s + 2) ++ (strlen s % 2 ^ 8 ∷ (c_str s ++ 2 ∷ []))))))
message (Cmd.fclose fd) = level 0x82 (level 0x49 (0 ∷ 3 ∷ (word_bytes fd ++ replicate 4 0)))
message (Cmd.fgetlen fd) = level 0x83 (level 0x49 (1 ∷ 3 ∷ (word_bytes fd ++ replicate 4 0)))
message (Cmd.fgetmlen fd) = level 0x83 (level 0x49 (1 ∷ 4 ∷ (word_bytes fd ++ replicate 4 0)))
message (Cmd.fgetirec fd rid) = level 0x83 (level 0x49 (1 ∷ 5 ∷ (word_bytes fd ++ dword_bytes rid)))
message (Cmd.fgetrec fd idx) =
    level 0x83 (level 0x49 (1 ∷ 6 ∷ (word_bytes fd ++ (word_bytes idx ++ 0 ∷ 0 ∷ []))))
message (Cmd.fgetmrec fd) = level 0x83 (level 0x49 (1 ∷ 7 ∷ (word_bytes fd ++ replicate 4 0)))
message Cmd.fgetmore = level 0x83 []
message (Cmd.fputrec last fd rid magic lr bstr) = level (last_id last 0x82 2) (
    level (last_id last 0x49 0x48) (
      1
      ∷ 8
      ∷ (word_bytes fd ++ (dword_bytes rid ++ (magic ++ (0 ∷ 0 ∷ (dword_bytes lr ++ bstr)))))))
message (Cmd.fupdrec last fd rid magic lr bstr) = level (last_id last 0x82 2) (
    level (last_id last 0x49 0x48) (
      1
      ∷ 9
      ∷ (word_bytes fd ++ (dword_bytes rid ++ (magic ++ (0 ∷ 0 ∷ (dword_bytes lr ++ bstr)))))))
message (Cmd.fputmore last bstr) = level (last_id last 0x82 2) (level (last_id last 0x49 0x48) bstr)
message (Cmd.fdelrec fd rid) = level 0x82 (level 0x49 (1 ∷ 2 ∷ (word_bytes fd ++ dword_bytes rid)))
message (Cmd.fclrchg fd rid) =
    level 0x82 (level 0x49 (1 ∷ 0x0a ∷ (word_bytes fd ++ dword_bytes rid)))
message (Cmd.invalid id) = []

-- The arguments fit the fields of the command.
abbrev pub FitsCmd : Cmd → Type 0
FitsCmd (Cmd.password s) = strlen s ≤ 8
FitsCmd (Cmd.category s) = strlen s ≤ 8
FitsCmd (Cmd.setdtime s) = strlen s ≤ 14
FitsCmd (Cmd.fopen s) = strlen s ≤ 10
FitsCmd (Cmd.fputrec last fd rid magic lr bstr) = (length magic ≡ 3) × (length bstr ≤ 80)
FitsCmd (Cmd.fupdrec last fd rid magic lr bstr) = (length magic ≡ 3) × (length bstr ≤ 80)
FitsCmd (Cmd.fputmore last bstr) = length bstr ≤ 80
FitsCmd (Cmd.invalid id) = ⊥
FitsCmd c = Unit
