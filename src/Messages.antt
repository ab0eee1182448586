-- ===== src/Messages.antt =====
-- jsockd_server/src/messages.c: a message from a running query to the client, and the answer.
pub mod Answer
pub mod Arrive
mod Receive
pub mod Format
mod Protocol
mod Tests
use jsockd.Prelude.{
  ℕ, zero, suc, ◌+◌, ◌-◌, ◌*◌, ◌%◌, ◌^◌, List, [], ◌∷◌, ◌++◌, Bool, true, false, not, ◌&&◌, ◌==◌,
  ltb, if◌then◌else◌, Option, some, none, length, get_or, take, splice,
}
use jsockd.Prelude.Int.{ℤ, is_pos, to_uint64}
use jsockd.CmdArgs.CString.{Str, lit}
use jsockd.Time.{Timespec, ns_time_diff}
use jsockd.Messages.Answer.{
  SendMessageError, timeout, too_big, interrupted, io, time, Sent, failed, Sep, is_sep, answer_of,
}

-- One round of the loop, as the system answers: `ppoll_fd` says GO_AROUND or SIG_INTERRUPT_OR_ERROR, or
-- READY, and then `read` is interrupted, or fails or ends, or brings some bytes, the first of those
-- listed that fit. `clock_gettime` is read behind such bytes.
pub data Round : Type 0 where
  go_around sig_interrupt_or_error eintr broken : Round
  bytes : ℕ → Str → Option Timespec → Round

-- What the loop ends with: an answer of `total_read` bytes in the buffer, or an error; or the system
-- has not answered yet.
pub data Received : Type 0 where
  received : Bool → ℕ → Str → Received
  broke_off : SendMessageError → Received
  waiting : Received

-- The test for the time limit, which is in microseconds.
unfoldable pub is_late : ℕ → Timespec → Timespec → Bool
is_late max_us start now =
    let delta_ns = ns_time_diff now start in
    is_pos delta_ns && ltb (max_us * 1000 % 2 ^ 64) (to_uint64 delta_ns)

-- Where the next bytes go, and whether the answer is too big: a full buffer is filled anew.
unfoldable pub room_at : ℕ → ℕ → Bool → ℕ × Bool
room_at size total big = if total == size - 1 then (0, true) else (total, big)

-- The loop of `send_message`: the size of the buffer, the time limit and the start of the query; then
-- the rounds, `total_read`, `too_big` and the buffer.
unfoldable pub receive : Sep → ℕ → ℕ → Timespec → List Round → ℕ → Bool → Str → Received
receive sep size max_us start [] total big buf = waiting
receive sep size max_us start (go_around ∷ rounds) total big buf =
    receive sep size max_us start rounds total big buf
receive sep size max_us start (sig_interrupt_or_error ∷ rounds) total big buf =
    broke_off interrupted
receive sep size max_us start (eintr ∷ rounds) total big buf =
    let (total', big') = room_at size total big in
    receive sep size max_us start rounds total' big' buf
receive sep size max_us start (broken ∷ rounds) total big buf = broke_off io
receive sep size max_us start (bytes c cs clock ∷ rounds) total big buf =
    let (total', big') = room_at size total big in
    let got = take (size - 1 - total') (c ∷ cs) in
    let buf' = splice buf total' got in
    let total'' = total' + length got in
    let rest = receive sep size max_us start rounds total'' big' buf' in
    if is_sep sep (get_or buf' (total'' - 1) 0) then received big' total'' buf' else (elim clock [
      | none ↦ broke_off time
      | some now ↦ (if is_late max_us start now then broke_off timeout else rest)
    ])

-- The text that `send_message` writes.
abbrev pub message_text : Str → Str → Str
message_text uuid message = uuid ++ (lit " message " ++ (message ++ lit "\n"))

module _ {V : Type 0} (sep : Sep) (parse_json : Str → ℕ → Option V) where
  -- The part of `send_message` behind the loop.
  unfoldable pub finish : Str → Received → Option (Sent V)
  finish uuid waiting = none
  finish uuid (broke_off e) = some (failed e)
  finish uuid (received true total buf) = some (failed too_big)
  finish uuid (received false total buf) =
      if total == 0 then some (failed io) else some (answer_of sep parse_json uuid (take total buf))

  -- `send_message`: what `writev_all` says of a text, the rounds of the loop, the identifier of the query,
  -- the message and the buffer; none while the system has not answered.
  unfoldable pub send_message :
      ℕ → ℕ → Timespec → (Str → Bool) → List Round → Str → Str → Str → Option (Sent V)
  send_message size max_us start writes rounds uuid message buf =
      if not (writes (message_text uuid message))
      then some (failed io)
      else finish uuid (receive sep size max_us start rounds 0 false buf)
