-- ===== src/Mmc/Examples.antt =====
-- Memory card commands of mgrproto.c, and the theorems on them at concrete inputs.
use ic35link.Base.{ℕ, ◌≡◌, refl, some, List, [], ◌∷◌, ◌++◌, arith, replicate}
use ic35link.Base.Int.{pos}
use ic35link.Com.{Port, arrive}
use ic35link.Com.Chunks.{pending}
use ic35link.Com.Repeats.{line}
use ic35link.Com.Waiting.{Goes}
use ic35link.Pdu.{chksum, chksum_loop, getword, getbyte}
use ic35link.Mmc.{Mcmd, command, get_iden}
use ic35link.Mmc.Layout.{Encodes, layout, desc_of, encode-layout}
use ic35link.Mmc.Exchange.{Answers, answer_stream, writes, status_in, command-answered}

abbrev iden : List ℕ
iden = replicate 27 1

encode-layout_example : Encodes (Mcmd.filewrite (8 ∷ 9 ∷ []) 2) (some iden) iden
encode-layout_example =
    encode-layout (Mcmd.filewrite (8 ∷ 9 ∷ []) 2) (some iden) iden (omega arith) (refl, refl)

-- A directory of 3 entries: the checksum of the command is 0x46, the response has the identifier,
-- the status 1 and the number, and comes damaged at first.
abbrev response : List ℕ
response = iden ++ (1 ∷ 0 ∷ 3 ∷ 0 ∷ [])

abbrev answers : Answers
answers = record {
  wrong = [];
  right = 0x46 ∷ 0 ∷ [];
  len = 31 ∷ 0 ∷ [];
  bad = record { bytes = replicate 31 0; sum = 31 ∷ 0 ∷ [] } ∷ [];
  good = record { bytes = response; sum = 31 ∷ 0 ∷ [] };
}

abbrev card : Port
card = line 500 [] (arrive (answer_stream answers []) ∷ [])

command-answered_example :
    (q : Port) × (command [] card Mcmd.dirgetlen (some iden) ≡ record {
      rval = pos (status_in (desc_of Mcmd.dirgetlen).rstatoffs (response ++ []));
      mem = response ++ [];
      rlen = 31;
      fdstat = get_iden (desc_of Mcmd.dirgetlen).ridenoffs (response ++ []) (some iden);
      port = q;
    })
    × (q.tmo ≡ 500)
    × Goes card q (writes (layout Mcmd.dirgetlen iden) answers) []
unfolding chksum chksum_loop getword getbyte pending
command-answered_example =
    command-answered Mcmd.dirgetlen [] card (some iden) iden answers [] (omega arith) tt
      (refl, refl)
      (
        omega arith,
        tt,
        refl,
        refl,
        refl,
        omega arith,
        omega arith,
        (((refl, refl), λ e. omega (arith, e)), tt),
        ((refl, refl), refl),
      )
      (refl, refl)
