-- ===== src/Level4/Wire.antt =====
-- What sendcmd() (synproto.c) puts on the line for each command.
use ic35link.Base.{ℕ, ◌≡◌, refl, true, List, [], ◌∷◌, ◌++◌, arith}
use ic35link.Pdu.{putbyte}
use ic35link.Base.Int.{ok}
use ic35link.Com.{Port}
use ic35link.Com.Chunks.{pending}
use ic35link.Level1.{l1init, l1dsel, l1ack0, l1ack1}
use ic35link.Level1.Frame.{frame}
use ic35link.Level1.Exchange.{l2sendcmd_acked}
use ic35link.Level4.{sendcmd, send_encoded, Cmd, encode, putcmd, put_heads}
use ic35link.Level4.Message.{message, FitsCmd}
use ic35link.Level4.Commands.{
  Sends, fd_Sends, rid_Sends, text_Sends, fixed_Sends, getpower_Sends, getdtime_Sends,
  fgetrec_Sends, fputrec_Sends, fupdrec_Sends, fputmore_Sends, fopen_Sends,
}

encode-message : (c : Cmd) → FitsCmd c → Sends c
unfolding encode putcmd putbyte
encode-message Cmd.ident h = fixed_Sends.0
encode-message Cmd.disconn h = fixed_Sends.1
encode-message Cmd.getpower h = getpower_Sends
encode-message (Cmd.password s) h =
    text_Sends (Cmd.password s) (3 ∷ 0 ∷ []) s 11 8 10 refl refl refl refl h (omega arith)
encode-message (Cmd.category s) h =
    text_Sends (Cmd.category s) (3 ∷ 2 ∷ []) s 11 8 10 refl refl refl refl h (omega arith)
encode-message Cmd.getdtime h = getdtime_Sends
encode-message (Cmd.setdtime s) h =
    text_Sends (Cmd.setdtime s) (2 ∷ 1 ∷ 0 ∷ []) s 12 16 19 refl refl refl refl (omega arith)
      (omega arith)
encode-message (Cmd.fopen s) h = fopen_Sends s h
encode-message (Cmd.fclose fd) h = fd_Sends (Cmd.fclose fd) 0 3 fd 0x82 refl refl (omega arith)
encode-message (Cmd.fgetlen fd) h = fd_Sends (Cmd.fgetlen fd) 1 3 fd 0x83 refl refl (omega arith)
encode-message (Cmd.fgetmlen fd) h = fd_Sends (Cmd.fgetmlen fd) 1 4 fd 0x83 refl refl (omega arith)
encode-message (Cmd.fgetirec fd rid) h =
    rid_Sends (Cmd.fgetirec fd rid) 1 5 fd rid 0x83 refl refl (omega arith)
encode-message (Cmd.fgetrec fd idx) h = fgetrec_Sends fd idx
encode-message (Cmd.fgetmrec fd) h = fd_Sends (Cmd.fgetmrec fd) 1 7 fd 0x83 refl refl (omega arith)
encode-message Cmd.fgetmore h = fixed_Sends.2
encode-message (Cmd.fputrec last fd rid magic lr bstr) h = fputrec_Sends last fd rid lr magic bstr h
encode-message (Cmd.fupdrec last fd rid magic lr bstr) h = fupdrec_Sends last fd rid lr magic bstr h
encode-message (Cmd.fputmore last bstr) h = fputmore_Sends last bstr h
encode-message (Cmd.fdelrec fd rid) h =
    rid_Sends (Cmd.fdelrec fd rid) 1 2 fd rid 0x82 refl refl (omega arith)
encode-message (Cmd.fclrchg fd rid) h =
    rid_Sends (Cmd.fclrchg fd rid) 1 0x0a fd rid 0x82 refl refl (omega arith)
encode-message (Cmd.invalid id) h = absurd h

-- When both acknowledgements arrive on an open line, sendcmd() succeeds for every command whose
-- arguments fit its fields: it has sent the initialisation and a frame that carries the command's
-- message, byte by byte, and leaves what follows on the line.
pub sendcmd-message :
    (p : Port) (c : Cmd) (rest : List ℕ)
    → FitsCmd c
    → p.is_open ≡ true
    → pending p.incoming ≡ l1ack0 ∷ l1ack1 ∷ rest
    → ((sendcmd p c).0 ≡ ok)
      × ((sendcmd p c).1.sent
          ≡ (p.sent ++ (l1init ∷ 3 ∷ 0 ∷ []) ∷ []) ++ frame l1dsel (message c) ∷ [])
      × (pending (sendcmd p c).1.incoming ≡ rest)
unfolding sendcmd send_encoded
sendcmd-message p c rest h o e =
    let (x, enc_eq, w, room) = encode-message c h in
    let (r, sent, left) =
      l2sendcmd_acked p (put_heads x).0 rest (put_heads x).1 o e room.0 room.1 in
    rw (enc_eq, ← w) (r, sent, left)
