-- ===== src/Session/Examples.antt =====
-- The theorems on sessions of ic35sync.c at concrete inputs: the transactions of syntrans.c with an
-- IC35 of which the bytes that it sends are written out.
use ic35link.Base.{
  ℕ, ◌≡◌, ◌∙◌, refl, Bool, true, none, some, List, [], ◌∷◌, ◌++◌, arith, if◌then◌else◌,
}
use ic35link.Base.Int.{pos, ok, err}
use ic35link.Pdu.{
  putbyte, putword, putdword, puttext, putbtxt, getbyte, getword, getdword, chksum, chksum_loop,
}
use ic35link.Com.{Port, Event, quiet, arrive, com_send, com_recv, com_recv_loop, com_settimeout}
use ic35link.Level1.{
  puthdr, l1send, l1recv, l1recv_data, l1recv_block, l1recv_check, l2sendcmd, l2recvrsp,
}
use ic35link.Level1.Frame.{frame}
use ic35link.Level4.{encode, send_encoded, put_heads, putcmd, sendcmd}
use ic35link.Level4.Reply.{recvrsp, receive, strip_heads, decode}
use ic35link.Record.{Ic35Rec, new_ic35rec, set_ic35recid, set_ic35recchg, set_ic35recdata}
use ic35link.Record.Ids.{fileaddr, ic35fname}
use ic35link.Syntrans.{transact, open_file, get_flen, delete_frec}
use ic35link.Syntrans.Frec.{read_blocks, read_frec_data, filled_record, fill_record, read_frec}
use ic35link.Bin.{Bin, bin_getrec_byid, find_id}
use ic35link.Bin.Lookup.{raw_data-set, set_data-id, set_id-id, set_chg-id}
use ic35link.Session.{Device}
use ic35link.Session.Synchro.{Env, syn_device}
use ic35link.Session.Export.{exportfile}
use ic35link.Session.View.{Entry, Reads, Opens, replay, exportfile-replay, exportfile_fails}
use ic35link.Session.Parts.{bin_oper, bin_laws}
use ic35link.Session.Sync.{Sess, entry}
use ic35link.Session.Import.{importfile, import_compared}
use ic35link.Session.Importing.{importfile_fails}
use ic35link.Session.Ran.{Ran}
use ic35link.Session.Actions.{import_compared-value}
use ic35link.Rectab.{Ic35Op}
use ic35link.Rectab.Order.{entries}
use ic35link.Session.Syncfile.{phase3}
use ic35link.Session.Deletes.{phase3-unknown}

abbrev env : Env
env = record {
  opened = true;
  hadsignal = λ n. 0;
  signal = 0;
  rbuff = [];
  idtext = [];
  rinfo = [];
  passwd = [];
  word = 0;
  recid = 0;
  stray = 0;
}

abbrev dev : Device Port
dev = syn_device env

-- What the IC35 sends for a command and its response: it acknowledges the command, sends the
-- response and ends it.
abbrev response : List ℕ → Event
response body = arrive (0xf0 ∷ 0xf1 ∷ (frame 0xf2 body ++ 0xf1 ∷ []))

-- A response with no data, with a word, and with a record of two bytes.
abbrev done : Event
done = response (0xa0 ∷ 6 ∷ 0 ∷ 0x49 ∷ 3 ∷ 0 ∷ [])

abbrev word : ℕ → Event
word n = response (0xa0 ∷ 8 ∷ 0 ∷ 0x49 ∷ 5 ∷ 0 ∷ n ∷ 0 ∷ [])

abbrev recd : ℕ → ℕ → Event
recd rid b = response (0xa0 ∷ 13 ∷ 0 ∷ 0x49 ∷ 10 ∷ 0 ∷ rid ∷ 0 ∷ 0 ∷ 5 ∷ 0 ∷ 1 ∷ b ∷ [])

abbrev first : Entry
first = record { id = 0x05000001; bytes = 1 ∷ 65 ∷ [] }

abbrev second : Entry
second = record { id = 0x05000002; bytes = 1 ∷ 66 ∷ [] }

-- The file is opened with descriptor 3, counts two records, and the first is sent; then `es`.
abbrev line : List Event → Port
line es = record {
  is_open = true;
  tmo = 500;
  sent = [];
  incoming = word 3 ∷ word 2 ∷ recd 1 65 ∷ es;
}

abbrev addresses : List ℕ
addresses = b'A' ∷ b'd' ∷ b'd' ∷ b'r' ∷ b'e' ∷ b's' ∷ b's' ∷ b'e' ∷ b's' ∷ []

abbrev opened : List Event → Port
opened es = (dev.open_file (line es) addresses).1

abbrev counted : List Event → Port
counted es = (dev.get_flen (opened es) 3).1

abbrev read1 : List Event → Port
read1 es = (dev.read_frec (counted es) 3 0 new_ic35rec).2

-- The second record is sent and two deletes are answered, or the IC35 is silent.
abbrev whole : List Event
whole = recd 2 66 ∷ done ∷ done ∷ []

abbrev broken : List Event
broken = quiet ∷ []

abbrev read2 : Port
read2 = (dev.read_frec (read1 whole) 3 1 new_ic35rec).2

abbrev silent : Port
silent = (dev.read_frec (read1 broken) 3 1 new_ic35rec).2

abbrev deleted1 : Port
deleted1 = (dev.delete_frec read2 3 0x05000001).1

abbrev deleted2 : Port
deleted2 = (dev.delete_frec deleted1 3 0x05000002).1

abbrev received : Ic35Rec → Entry → Ic35Rec
received rec e = set_ic35recdata 0 (set_ic35recchg (set_ic35recid rec e.id) 0) e.bytes

abbrev Receives : ℕ → Port → Entry → Port → Type 0
Receives irec p e q = (rec : Ic35Rec) → dev.read_frec p 3 irec rec ≡ (pos 2, received rec e, q)

-- What the transactions make of these bytes.
answered :
    (es : List Event)
    → (dev.open_file (line es) addresses ≡ (pos 3, opened es))
      × (dev.get_flen (opened es) 3 ≡ (pos 2, counted es))
      × Receives 0 (counted es) first (read1 es)
unfolding syn_device open_file get_flen transact sendcmd encode send_encoded put_heads puthdr putcmd
    putword putbyte putdword puttext putbtxt l2sendcmd l1send com_send com_settimeout l1recv
    com_recv com_recv_loop chksum chksum_loop read_frec_data filled_record read_blocks recvrsp
    l2recvrsp l1recv_data l1recv_block l1recv_check read_frec getword getbyte getdword receive
    strip_heads decode fill_record
answered es = (refl, refl, λ rec. refl)

ends :
    Receives 1 (read1 whole) second read2
    × ((rec : Ic35Rec) → dev.read_frec (read1 broken) 3 1 rec ≡ (err, rec, silent))
    × (dev.delete_frec read2 3 0x05000001 ≡ (ok, deleted1))
    × (dev.delete_frec deleted1 3 0x05000002 ≡ (ok, deleted2))
unfolding syn_device open_file get_flen delete_frec transact sendcmd encode send_encoded put_heads
    puthdr putcmd putword putbyte putdword puttext putbtxt l2sendcmd l1send com_send com_settimeout
    l1recv com_recv com_recv_loop chksum chksum_loop read_frec_data filled_record read_blocks
    recvrsp l2recvrsp l1recv_data l1recv_block l1recv_check read_frec getword getbyte getdword
    receive strip_heads decode fill_record
ends = (λ rec. refl, λ rec. refl, refl, refl)

received-Reads : (irec : ℕ) (p q : Port) (e : Entry) → Receives irec p e q → Reads dev 3 irec p e q
received-Reads irec p q e h rec = (
  2,
  received rec e,
  h rec,
  set_data-id 0 (set_ic35recchg (set_ic35recid rec e.id) 0) e.bytes
      ∙ set_chg-id (set_ic35recid rec e.id) 0
      ∙ set_id-id rec e.id,
  raw_data-set 0 (set_ic35recchg (set_ic35recid rec e.id) 0) e.bytes,
)

first-Reads : (es : List Event) → Reads dev 3 0 (counted es) first (read1 es)
first-Reads es = received-Reads 0 (counted es) (read1 es) first (answered es).2

second-Reads : Reads dev 3 1 (read1 whole) second read2
second-Reads = received-Reads 1 (read1 whole) read2 second ends.0

line-Opens : (es : List Event) → Opens dev fileaddr (line es) 3 2 (counted es)
unfolding ic35fname
line-Opens es = (addresses, opened es, refl, (answered es).0, (answered es).1)

abbrev closed : Port → Port
closed p = (dev.close_file p 3).1

abbrev empty : Bin
empty = record { binlist = []; binget = none; next_at = 1 }

exportfile-replay_example :
    (s' : Bin) × (exportfile dev (bin_oper 0 new_ic35rec) fileaddr (line whole) empty
      ≡ (ok, closed read2, s'))
    × (bin_laws 0 new_ic35rec).Good s'
    × ((k : ℕ)
        → (bin_laws 0 new_ic35rec).view s' k
          ≡ replay (first ∷ second ∷ []) ((bin_laws 0 new_ic35rec).view empty) k)
unfolding bin_laws
exportfile-replay_example =
    exportfile-replay dev (bin_oper 0 new_ic35rec) (bin_laws 0 new_ic35rec) fileaddr 3 (line whole)
      (counted whole) read2 empty (first ∷ second ∷ []) (line-Opens whole)
      (
        read1 whole,
        first-Reads whole,
        (λ e. omega (arith, e)),
        (read2, second-Reads, (λ e. omega (arith, e)), refl),
      )
      (tt, tt, refl)

exportfile_fails_example :
    (s' : Bin) × (exportfile dev (bin_oper 0 new_ic35rec) fileaddr (line broken) empty
      ≡ (err, closed silent, s'))
    × (bin_laws 0 new_ic35rec).Good s'
    × ((k : ℕ)
        → (bin_laws 0 new_ic35rec).view s' k
          ≡ replay (first ∷ []) ((bin_laws 0 new_ic35rec).view empty) k)
unfolding bin_laws
exportfile_fails_example =
    exportfile_fails dev (bin_oper 0 new_ic35rec) (bin_laws 0 new_ic35rec) fileaddr 3 2
      (line broken) (counted broken) (read1 broken) silent empty (first ∷ []) (line-Opens broken)
      (read1 broken, first-Reads broken, (λ e. omega (arith, e)), refl) (omega arith)
      (λ rec. (0, rec, ends.1 rec)) (tt, tt, refl)

abbrev session : Port → Sess Port Bin
session p = record { dev = p; pim = empty; heap = []; table = [] }

-- Both records are unknown to the PC.
phase3-unknown_example :
    (x' : Sess Port Bin) × (phase3 dev
        (bin_oper 0 new_ic35rec)
        3
        0
        fileaddr
        3
        (session (opened whole))
        (pos 2, counted whole)
      ≡ some (ok, x'))
    × (x'.dev ≡ closed deleted2)
    × (x'.pim ≡ empty)
    × (x'.table ≡ [])
unfolding bin_oper bin_getrec_byid find_id
phase3-unknown_example =
    phase3-unknown dev (bin_oper 0 new_ic35rec) 3 0 fileaddr 3 (first ∷ second ∷ []) (counted whole)
      read2 deleted2 (session (opened whole)) refl
      (read1 whole, first-Reads whole, (read2, second-Reads, refl)) (omega arith)
      (0, deleted1, ends.2, (0, deleted2, ends.3, refl))

-- The second record cannot be read.
importfile_fails_example :
    (x' : Sess Port Bin) × (importfile dev
        (bin_oper 0 new_ic35rec)
        3
        fileaddr
        (session (line broken))
      ≡ some (err, x'))
    × (x'.dev ≡ closed silent)
    × (x'.pim ≡ empty)
importfile_fails_example =
    importfile_fails dev (bin_oper 0 new_ic35rec) 3 fileaddr 3 2 (counted broken) (read1 broken)
      silent (session (line broken)) (first ∷ []) (line-Opens broken)
      (read1 broken, first-Reads broken, refl) (omega arith) (λ rec. (0, rec, ends.1 rec))

-- Two records of the IC35 of which one is to be committed.
abbrev noted : Sess Port Bin
noted = record {
  dev = read2;
  pim = empty;
  heap = received new_ic35rec first ∷ received new_ic35rec second ∷ [];
  table = some (entry 0 Ic35Op.noact) ∷ some (entry 1 Ic35Op.commit) ∷ none ∷ [];
}

import_compared-value_example :
    (bad : Bool) × (d : Port) × (y : Sess Port Bin) × Ran dev
      (bin_oper 0 new_ic35rec)
      3
      (entries noted.table)
      read2
      empty
      noted.heap
      bad
      d
      y.pim
      y.heap
    × (import_compared dev (bin_oper 0 new_ic35rec) 3 3 (some noted)
        ≡ some (if bad then err else pos 1, y))
    × (y.dev ≡ closed d)
import_compared-value_example =
    import_compared-value dev (bin_oper 0 new_ic35rec) 3 3 noted (omega arith)
