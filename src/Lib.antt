-- ===== src/Lib.antt =====
-- ic35link talks to the Siemens IC35 organiser over a serial line: ic35sync exchanges address,
-- schedule, todo and memo records with files of a PC, ic35mgr reads and writes the memory card.
--
-- Parts and files:
--   Base       names and lemmas that the modules share: Base/Tests, Base/Lists, Base/Words (uchar,
--              ushort, ulong), Base/Int (the C int, OK and ERR), Base/CString (strlen, memcpy).
--   Pdu        src/genproto.c, the put.. and get.. functions and chksum(). A pointer into a buffer
--              is the buffer with an offset. Pdu/Codec, Pdu/Checksum.
--   Com        src/comio.c, com_recv(), com_send(), com_sendw() and com_settimeout() on a Port, the
--              static state of that file. What select() and read() will report is a list of events, the
--              blocks given to write() are kept. Com/Chunks, Repeats (a command
--              that is sent again), Waiting (what arrives in one piece).
--   Level1     src/synproto.c, puthdr(), L1send(), L1recv(), L2sendcmd() and L2recvrsp(): frames
--              with a checksum, acknowledgements. Level1/Frame, Receive, Sound, Exchange.
--   Welcome    src/genproto.c, welcome(): the handshake. Welcome/Retries.
--   Level4     src/synproto.c, sendcmd() and recvrsp(): commands and responses. Level4/Layout has ids
--              and offsets, Level4/Message what each command carries, Level4/Heads, Fields, Commands
--              and Wire what is sent, Level4/Reply the responses.
--   Record     src/ic35frec.c and src/ic35frec.h: the records, as fields and as raw data, and
--              cmp_ic35rec(). Record/Ids has the ids and the table of files, Record/Wf and
--              Record/Invariant the invariant, Record/Parse, RoundTrip, Fields, Compare the rest.
--   Bin        src/databin.c: the list of binary records with its read position. Bin/Walk the walk
--              over a file, Bin/Places, Opened and Safe freed elements, Bin/Lookup and Order what a put
--              does, Bin/Disk the file, Bin/RoundTrip what is read back from it.
--   Syntrans   src/syntrans.c: the transactions of a session. Syntrans/Frec reads and writes records,
--              Syntrans/Blocks, Bounds, Ends, Results what is proved of them.
--   Rectab     src/ic35sync.c: the table of records and actions. Rectab/Order.
--   Mgr        src/mgrproto.c: command bytes, and blocks that are acknowledged and repeated.
--              Mgr/Command, Loop, Tried, Block (receiving), Sound, Send, Message.
--   Mmc        src/mgrproto.c: the memory card commands. Mmc/Calls the functions MMC..(),
--              Mmc/Layout the PDUs, Mmc/Exchange a command and its response.
--   Card       src/mgrtrans.c: Card/Link the connection, Dir and File the memory card, with the
--              copying loops of src/ic35mgr.c, Backup the database. Card/Read and Copy, Saving,
--              Restoring and RoundTrip what is proved of them. Of src/ic35mgr.c too: Card/Path the
--              check of a path, with Names and Paths, Card/Program, Commands and Trees the rest.
--   Session    src/ic35sync.c: sessions over the interfaces Device and PimOper. Session/Export
--              ic35status() and exportfile(), View what an export does to the records, Synchro
--              the transactions of Syntrans as a Device, Parts the binary records as PimOper, Sync
--              and Syncfile the phases of syncfile(), Noted and Deletes its last phase, Import the
--              import, with Importing, Ran and Actions.
--              Session/Formats is src/dataio.c, the dispatch by record format.
--   Text       src/vcutil.c: substitutions in texts. Text/RoundTrip.
--   Examples   in each part: runs at concrete inputs, and the theorems at them.
--
-- How they interact: Level1 builds its PDUs with Pdu and moves them with Com; Level4 puts commands
-- and responses into them; Syntrans starts a session with Welcome and fetches and stores with Level4
-- the raw data that Record takes apart. Bin keeps records of the PC.
-- A session moves records between a Device and a PimOper, and notes its actions with Rectab: the
-- theorems hold of any, Session/Synchro makes a Device of the transactions of Syntrans over a Port,
-- Session/Parts a PimOper of Bin. Mgr moves blocks over Com, Mmc puts the
-- file operations into them, Card is what the manager program calls.
--
-- Conventions: bytes and words are natural numbers; a mask is a remainder, a shift a quotient or
-- a product. unsigned long and size_t have 32 bits, as on the platform that the program was
-- written for. Functions that change a buffer, a record or the line return the new one. A write
-- into a buffer (write_at) changes nothing behind its end, so the length of a buffer says nothing
-- of it; where recvrsp() copies a part of a record, or MMCfileread() a part of a file, of a
-- length that comes from the device, the copy (overwrite) makes the buffer longer when it does
-- not fit. Loops recur on the list they go over or on the rounds that are left. These have no
-- bound in the code and get rounds: that of _read_frec(), for which the bytes to come and one
-- more are enough; that of bin_open(), as many as the file has bytes; that of mmcget(), one more
-- than the file has bytes; those of syncfile() over the table, one more than its entries, and
-- over the records of the PC, which is `none` where the rounds are not enough; those over the
-- tree of a memory card, its depth.
--
-- Not modelled: the vCard, vCalendar and memo records (src/datavca.c, src/vcaconv.c, but for Text),
-- and printing them (src/datatxt.c, src/util.c); walking local directories and the options of the
-- programs, which are I/O; malloc() never fails; the simulated communication and the
-- log (the program as it is built with NO_LOGSIM); write() takes the whole block. The vCard parser
-- and its objects (src/vcc.y, src/vcc.c, src/vobject.c) are the versit library.
pub mod Base
pub mod Pdu
pub mod Com
pub mod Welcome
pub mod Level1
pub mod Level4
pub mod Record
pub mod Bin
pub mod Syntrans
pub mod Rectab
pub mod Mgr
pub mod Mmc
pub mod Card
pub mod Session
pub mod Text
