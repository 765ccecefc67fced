-- ===== src/Syntrans/Examples.antt =====
-- The theorems on syntrans.c at concrete inputs.
use ic35link.Base.{◌≡◌, ◌≢◌, refl, true, Option, none, some, [], ◌∷◌, ◌++◌, arith, replicate}
use ic35link.Base.Int.{ℤ, pos}
use ic35link.Pdu.{putbyte, putword, putdword, getbyte, getword, getdword, chksum, chksum_loop}
use ic35link.Com.{Port, quiet, arrive, com_send, com_recv, com_recv_loop, com_settimeout}
use ic35link.Level1.{
  puthdr, l1send, l1recv, l1recv_data, l1recv_block, l1recv_check, l2sendcmd, l2recvrsp,
}
use ic35link.Level4.{encode, send_encoded, put_heads, putcmd, sendcmd}
use ic35link.Level4.Reply.{recvrsp, receive, strip_heads, decode}
use ic35link.Record.Ids.{ic35fnflds}
use ic35link.Level1.Frame.{frame}
use ic35link.Record.{
  Ic35Rec, new_ic35rec, set_ic35recid, set_ic35recchg, set_ic35recdata, del_ic35recbuffs,
  count_loop, fill,
}
use ic35link.Syntrans.Frec.{
  blank_block, blocks, read_blocks, read_id_frec, read_frec_data, filled_record, fill_record,
  check_id,
}
use ic35link.Syntrans.Blocks.{IsBlocks, joined, blocks-IsBlocks}
use ic35link.Syntrans.Bounds.{IsBlock, block_of, blank-IsBlock, read_blocks-IsBlock}
use ic35link.Syntrans.Ends.{read_blocks_ends}

abbrev line : Port
line = record {
  is_open = true;
  tmo = 500;
  sent = [];
  incoming = arrive (0xf0 ∷ 0xf1 ∷ []) ∷ quiet ∷ arrive (0xf2 ∷ 8 ∷ []) ∷ [];
}

blocks-IsBlocks_example :
    IsBlocks (blocks 171 (replicate 170 7))
    × (joined (blocks 171 (replicate 170 7)) ≡ replicate 170 7)
blocks-IsBlocks_example = blocks-IsBlocks 171 (replicate 170 7) (omega arith)

read_blocks-IsBlock_example : IsBlock (block_of (read_blocks 5 line blank_block))
read_blocks-IsBlock_example = read_blocks-IsBlock 5 line blank_block blank-IsBlock

read_blocks_ends_example : read_blocks 5 line blank_block ≢ none
read_blocks_ends_example = read_blocks_ends 5 line blank_block (omega arith)

abbrev memo : Ic35Rec
memo = record new_ic35rec { id = 0x0600_0001 }

-- The IC35 acknowledges the command, and sends a record of the id in one block.
abbrev answer : Port
answer = record {
  is_open = true;
  tmo = 500;
  sent = [];
  incoming =
      arrive (
        0xf0
        ∷ 0xf1
        ∷ (frame 0xf2 (
              0xa0 ∷ 17 ∷ 0 ∷ 0x49 ∷ 14 ∷ 0 ∷ 1 ∷ 0 ∷ 0 ∷ 6 ∷ 0x40 ∷ 1 ∷ 1 ∷ 0 ∷ 0 ∷ b'a' ∷ b'b'
              ∷ [])
            ++ 0xf1 ∷ []))
      ∷ [];
}

abbrev got_rec : Option (ℤ × Ic35Rec × Port) → Ic35Rec
got_rec none = new_ic35rec
got_rec (some (z, r, q)) = r

abbrev got_port : Option (ℤ × Ic35Rec × Port) → Port
got_port none = answer
got_port (some (z, r, q)) = q

abbrev run : Option (ℤ × Ic35Rec × Port)
run = read_id_frec 1 0 answer 3 0x0600_0001 new_ic35rec

run_lem : run ≡ some (pos 6, got_rec run, got_port run)
unfolding read_id_frec sendcmd encode send_encoded put_heads puthdr putcmd putword putbyte putdword
    l2sendcmd l1send com_send com_settimeout l1recv com_recv com_recv_loop chksum chksum_loop
    read_frec_data filled_record read_blocks recvrsp l2recvrsp l1recv_data l1recv_block l1recv_check
    getword getbyte getdword receive strip_heads decode fill_record check_id set_ic35recid
    set_ic35recchg set_ic35recdata del_ic35recbuffs count_loop fill new_ic35rec ic35fnflds
run_lem = refl
