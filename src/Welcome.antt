-- ===== src/Welcome.antt =====
-- src/genproto.c, welcome(): the handshake that starts a session. SIGINT's handler sets
-- `hadsignal`; what it reads at each test of the loop, and at the end, is a parameter.
pub mod Retries
mod Examples
use ic35link.Base.{
  ℕ, zero, suc, ◌+◌, ◌-◌, Bool, true, false, List, [], ◌∷◌, ◌==◌, ◌||◌, not, if◌then◌else◌, ltb,
  length, take, get_or, replicate,
}
use ic35link.Base.CString.{write_at}
use ic35link.Base.Int.{ℤ, pos, negsuc, ok, err, err_intr}
use ic35link.Com.{Port, com_send, com_recv, com_settimeout}

abbrev pub welcome_timeout : ℕ
welcome_timeout = 1150

abbrev pub welcome_retry : ℕ
welcome_retry = 20

abbrev pub rsp_ready : ℕ
rsp_ready = 0x80

pub data WelcomeState : Type 0 where
  got_none : WelcomeState
  got_welcome : WelcomeState
  got_ready : WelcomeState

abbrev pub is_ready : WelcomeState → Bool
is_ready got_none = false
is_ready got_welcome = false
is_ready got_ready = true

abbrev pub welcome_text : List ℕ
welcome_text = b'W' ∷ b'E' ∷ b'L' ∷ b'C' ∷ b'O' ∷ b'M' ∷ b'E' ∷ []

-- `rlen < size` where `rlen` is an int and `size` a size_t: a negative int is a large number.
abbrev pub below_size : ℤ → ℕ → Bool
below_size (pos n) size = ltb n size
below_size (negsuc n) size = false

-- `rlen < size` where both are ints.
abbrev pub below_int : ℤ → ℕ → Bool
below_int (pos n) size = ltb n size
below_int (negsuc n) size = true

-- memcmp( a, b, strlen(b) ) == 0
abbrev pub starts_with : List ℕ → List ℕ → Bool
starts_with a [] = true
starts_with [] (c ∷ cs) = false
starts_with (b ∷ bs) (c ∷ cs) = if b == c then starts_with bs cs else false

pub record Handshake : Type 0 where
  pub state : WelcomeState
  pub rbuff : List ℕ
  pub port : Port

-- The switch, after the command was sent.
unfoldable pub switch_state : Handshake → Handshake
switch_state h = elim h.state [
  | got_none ↦
      let r = com_recv h.port 7 in
      let rbuff = write_at h.rbuff 0 r.bytes in
      if below_size r.rlen (length welcome_text) || not (starts_with rbuff welcome_text)
      then record { state = got_none; rbuff = rbuff; port = r.port }
      else record { state = got_welcome; rbuff = rbuff; port = r.port }
  | got_welcome ↦
      let r = com_recv h.port 1 in
      let rbuff = write_at h.rbuff 0 r.bytes in
      if below_int r.rlen 1 || not (get_or rbuff 0 0 == rsp_ready)
      then record { state = got_welcome; rbuff = rbuff; port = r.port }
      else record { state = got_ready; rbuff = rbuff; port = r.port }
  | got_ready ↦ h
]

-- `left` rounds may come; `hadsignal` of the number of rounds that were made.
unfoldable pub welcome_loop : ℕ → (ℕ → ℕ) → ℕ → ℕ → Handshake → Handshake
welcome_loop cmd hadsignal zero retry h = h
welcome_loop cmd hadsignal (suc left) retry h =
    let next = switch_state (record h { port = (com_send h.port (cmd ∷ [])).1 }) in
    let rest = welcome_loop cmd hadsignal left (suc retry) next in
    if is_ready h.state || not (hadsignal retry == 0)
    then h
    else if is_ready next.state
    then next
    else rest

-- `rbuff` is what the buffer on the stack holds, `signal` what `hadsignal` is at the end.
unfoldable pub welcome : ℕ → (ℕ → ℕ) → ℕ → List ℕ → Port → ℤ × Port
welcome cmd hadsignal signal rbuff p =
    let (old_tmo, p) = com_settimeout p welcome_timeout in
    let h =
      welcome_loop cmd hadsignal welcome_retry 0
        (record { state = got_none; rbuff = rbuff; port = p }) in
    let (_, q) = com_settimeout h.port old_tmo in
    if not (signal == 0)
    then (err_intr, q)
    else if not (is_ready h.state)
    then (err, q)
    else (ok, q)
