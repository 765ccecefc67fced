-- ===== src/Level4/Layout.antt =====
-- src/synproto.c: the ids of the levels and the layout of the PDUs, as offsets into the transmit
-- buffer and lengths; src/synproto.h: the command ids.
use Prim.Native.Nat.{ℕ}

abbrev pub l2init : ℕ
l2init = 0x80

abbrev pub l2exit : ℕ
l2exit = 0x81

abbrev pub l2wmore : ℕ
l2wmore = 0x02

abbrev pub l2wlast : ℕ
l2wlast = 0x82

abbrev pub l2read : ℕ
l2read = 0x83

abbrev l2rmore : ℕ
l2rmore = 0x20

abbrev pub l2rlast : ℕ
l2rlast = 0xa0

abbrev pub l3more : ℕ
l3more = 0x48

abbrev pub l3last : ℕ
l3last = 0x49

abbrev pub l3ident : ℕ
l3ident = 0x4a

abbrev pub head_size : ℕ
head_size = 3

abbrev pub at_l2head : ℕ
at_l2head = 3

abbrev pub at_l3head : ℕ
at_l3head = 6

abbrev pub at_cmd : ℕ
at_cmd = 9

abbrev pub at_ident_magic : ℕ
at_ident_magic = 6

abbrev pub at_ident_l3head : ℕ
at_ident_l3head = 10

abbrev pub at_ident_text : ℕ
at_ident_text = 13

abbrev pub len_ident : ℕ
len_ident = 35

abbrev pub at_rspident_text : ℕ
at_rspident_text = 13

abbrev pub at_getpower_text : ℕ
at_getpower_text = 11

abbrev pub len_getpower : ℕ
len_getpower = 10

abbrev pub at_password_text : ℕ
at_password_text = 11

abbrev pub len_password : ℕ
len_password = 10

abbrev pub at_category_name : ℕ
at_category_name = 11

abbrev pub len_category : ℕ
len_category = 10

abbrev pub len_getdtime : ℕ
len_getdtime = 3

abbrev pub at_rspgetdtime_mdyhms : ℕ
at_rspgetdtime_mdyhms = 9

abbrev pub sizeof_mdyhms : ℕ
sizeof_mdyhms = 14

abbrev pub at_setdtime_mdyhms : ℕ
at_setdtime_mdyhms = 12

abbrev pub len_setdtime : ℕ
len_setdtime = 19

abbrev pub at_fopen_lf2 : ℕ
at_fopen_lf2 = 18

abbrev pub at_fopen_lf : ℕ
at_fopen_lf = 22

abbrev pub at_fopen_fname : ℕ
at_fopen_fname = 23

abbrev pub len_fopen : ℕ
len_fopen = 15

abbrev pub at_rspfopen_fd : ℕ
at_rspfopen_fd = 9

abbrev pub at_fclose_fd : ℕ
at_fclose_fd = 11

abbrev pub len_fclose : ℕ
len_fclose = 8

abbrev pub at_fgetlen_fd : ℕ
at_fgetlen_fd = 11

abbrev pub len_fgetlen : ℕ
len_fgetlen = 8

abbrev pub at_rspfgetlen_n : ℕ
at_rspfgetlen_n = 9

abbrev pub at_fgetrec_fd : ℕ
at_fgetrec_fd = 11

abbrev pub at_fgetrec_index : ℕ
at_fgetrec_index = 13

abbrev pub len_fgetrec : ℕ
len_fgetrec = 8

abbrev pub at_fgetirec_fd : ℕ
at_fgetirec_fd = 11

abbrev pub at_fgetirec_uid : ℕ
at_fgetirec_uid = 13

abbrev pub len_fgetirec : ℕ
len_fgetirec = 8

abbrev pub at_rspfgetrec_uid : ℕ
at_rspfgetrec_uid = 9

abbrev pub at_rspfgetrec_fx : ℕ
at_rspfgetrec_fx = 13

abbrev pub at_rspfgetrec_data : ℕ
at_rspfgetrec_data = 14

abbrev pub at_fputrec_fd : ℕ
at_fputrec_fd = 11

abbrev pub at_fputrec_uid : ℕ
at_fputrec_uid = 13

abbrev pub at_fputrec_magic : ℕ
at_fputrec_magic = 17

abbrev pub at_fputrec_lr : ℕ
at_fputrec_lr = 22

abbrev pub at_fputrec_data : ℕ
at_fputrec_data = 26

abbrev pub len_fputrec : ℕ
len_fputrec = 17

abbrev pub at_rspfputrec_uid : ℕ
at_rspfputrec_uid = 9

abbrev pub at_fclrchg_fd : ℕ
at_fclrchg_fd = 11

abbrev pub at_fclrchg_uid : ℕ
at_fclrchg_uid = 13

abbrev pub len_fclrchg : ℕ
len_fclrchg = 8

abbrev pub cmd_ident : ℕ
cmd_ident = 0x1000

abbrev pub cmd_password : ℕ
cmd_password = 0x0300

abbrev pub cmd_getpower : ℕ
cmd_getpower = 0x0301

abbrev pub cmd_category : ℕ
cmd_category = 0x0302

abbrev pub cmd_getdtime : ℕ
cmd_getdtime = 0x0200

abbrev pub cmd_setdtime : ℕ
cmd_setdtime = 0x0201

abbrev pub cmd_fopen : ℕ
cmd_fopen = 0x0002

abbrev pub cmd_fclose : ℕ
cmd_fclose = 0x0003

abbrev pub cmd_fdelrec : ℕ
cmd_fdelrec = 0x0102

abbrev pub cmd_fgetlen : ℕ
cmd_fgetlen = 0x0103

abbrev pub cmd_fgetmlen : ℕ
cmd_fgetmlen = 0x0104

abbrev pub cmd_fgetirec : ℕ
cmd_fgetirec = 0x0105

abbrev pub cmd_fgetrec : ℕ
cmd_fgetrec = 0x0106

abbrev pub cmd_fgetmrec : ℕ
cmd_fgetmrec = 0x0107

abbrev pub cmd_fgetmore : ℕ
cmd_fgetmore = 0x83

abbrev pub cmd_fputrec : ℕ
cmd_fputrec = 0x0108

abbrev pub cmd_fupdrec : ℕ
cmd_fupdrec = 0x0109

abbrev pub cmd_fputmore : ℕ
cmd_fputmore = 0x90

abbrev pub cmd_fclrchg : ℕ
cmd_fclrchg = 0x010a

abbrev pub cmd_disconn : ℕ
cmd_disconn = 0x81

abbrev pub rsp_power_ok : ℕ
rsp_power_ok = 0x0301

abbrev pub rsp_passwd_ok : ℕ
rsp_passwd_ok = 0x0101
