-- ===== src/Welcome/Examples.antt =====
-- Handshakes of genproto.c, and the theorems on them.
use ic35link.Base.{false, ℕ, ◌≡◌, refl, List, [], ◌∷◌, ◌++◌, arith, replicate}
use ic35link.Base.Int.{ok, err}
use ic35link.Com.{quiet, arrive, com_recv}
use ic35link.Welcome.{welcome, switch_state, welcome_text, rsp_ready, got_none, got_welcome}
use ic35link.Com.Repeats.{line}
use ic35link.Welcome.Retries.{welcome_connects, welcome_silent}

abbrev blank : List ℕ
blank = replicate 7 0

welcome_connects_example :
    welcome 0x41
      (λ _. 0)
      0
      blank
      (line 500 []
        (replicate 1 quiet ++ arrive welcome_text ∷ arrive (rsp_ready ∷ []) ∷ arrive (1 ∷ []) ∷ []))
    ≡ (
      ok,
      line 500
          ((([] ++ replicate 1 (0x41 ∷ [])) ++ (0x41 ∷ []) ∷ []) ++ (0x41 ∷ []) ∷ [])
          (arrive (1 ∷ []) ∷ []),
    )
welcome_connects_example =
    welcome_connects 1 0x41 500 [] (arrive (1 ∷ []) ∷ []) blank (omega arith) (omega arith) refl

welcome_silent_example :
    welcome 0x40 (λ _. 0) 0 blank (line 500 [] (replicate 20 quiet ++ []))
    ≡ (err, line 500 ([] ++ replicate 20 (0x40 ∷ [])) [])
welcome_silent_example = welcome_silent 0x40 500 [] [] blank (omega arith)

-- A receive error counts as a large length, so what the buffer on the stack holds is looked at.
stale_buffer :
    (switch_state (record {
      state = got_none;
      rbuff = welcome_text;
      port = record { is_open = false; tmo = 1150; sent = []; incoming = [] };
    })).state
    ≡ got_welcome
unfolding switch_state com_recv
stale_buffer = refl
