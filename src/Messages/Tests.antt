-- ===== src/Messages/Tests.antt =====
-- Runs of `send_message` (jsockd_server/src/messages.c), and the theorems at concrete answers.
use jsockd.Prelude.{
  ℕ, ◌≡◌, ◌≢◌, refl, List, [], ◌∷◌, Bool, true, false, Option, some, none, ◌==◌, ◌&&◌,
  if◌then◌else◌, replicate, splice, arith,
}
use jsockd.CmdArgs.CString.{Str, lit}
use jsockd.Time.{Timespec, to_ns, ns_time_diff}
use jsockd.Messages.Answer.{Sep, is_sep, answered, failed, bad_json, bad_message}
use jsockd.Messages.{
  Round, go_around, eintr, bytes, received, is_late, room_at, receive, send_message,
}
use jsockd.Messages.Receive.{IsWhole, receive-IsWhole}
use jsockd.Messages.Arrive.{Arrives, silence, interrupted_read, last_piece, piece}
use jsockd.Messages.Format.{NoSep}
use jsockd.Messages.Protocol.{
  send_message-response, send_message-cut_short, send_message-other_uuid,
}

abbrev lines : Sep
lines = record { socket_sep_char = 10; char_is_signed = true }

abbrev start : Timespec
start = record { tv_sec = 5; tv_nsec = 0 }

abbrev writes : Str → Bool
writes text = true

abbrev buf : Str
buf = replicate 32 0

-- A parser that knows no value but the number 7, and reports the length it was given.
abbrev parse_json : Str → ℕ → Option ℕ
parse_json [] n = none
parse_json (c ∷ cs) n = if c == b'7' && n == 1 then some 7 else none

-- `u 1` is answered by `7` in two pieces.
abbrev rounds : List Round
rounds = go_around ∷ bytes b'u' (lit "1") (some start) ∷ eintr ∷ bytes 10 (lit "7\n") none ∷ []

arrives : Arrives lines 100 start (lit "u1\n7\n") rounds
unfolding is_sep is_late ns_time_diff to_ns
arrives = silence (
    piece b'u' (lit "1") start refl refl
      (interrupted_read (last_piece 10 (lit "7\n") none [] refl)))

receive_run :
    receive lines 32 100 start rounds 0 false buf ≡ received false 5 (splice buf 0 (lit "u1\n7\n"))
unfolding receive room_at is_sep is_late ns_time_diff to_ns
receive_run = refl

receive-IsWhole_example : IsWhole lines 100 start 32 5 (splice buf 0 (lit "u1\n7\n"))
receive-IsWhole_example =
    receive-IsWhole lines 100 start rounds 0 false buf (omega arith) (omega arith) refl receive_run

one_word : NoSep lines (lit "u1")
unfolding is_sep
one_word = (refl, (refl, tt))

separated : is_sep lines 10 ≡ true
unfolding is_sep
separated = refl

send_message-response_example :
    send_message lines parse_json 32 100 start writes rounds (lit "u1") (lit "5") buf
    ≡ some (answered 7)
send_message-response_example =
    send_message-response lines parse_json (lit "u1") separated one_word 32 buf refl writes
      (lit "5") (lit "7") ((omega arith), tt) (omega arith) (omega arith) (omega arith)
      (omega arith) arrives refl

too_short : Arrives lines 100 start (lit "u1\n") (bytes b'u' (lit "1\n") none ∷ rounds)
unfolding is_sep
too_short = last_piece b'u' (lit "1\n") none rounds refl

send_message-cut_short_example :
    send_message lines parse_json 32 100 start writes
      (bytes b'u' (lit "1\n") none ∷ rounds)
      (lit "u1")
      (lit "5")
      buf
    ≡ some (failed bad_json)
send_message-cut_short_example =
    send_message-cut_short lines parse_json (lit "u1") separated one_word 32 buf refl writes
      (lit "5") (omega arith) (omega arith) too_short refl

send_message-other_uuid_example :
    send_message lines parse_json 32 100 start writes rounds (lit "u2") (lit "5") buf
    ≡ some (failed bad_message)
send_message-other_uuid_example =
    send_message-other_uuid lines parse_json (lit "u1") separated one_word 32 buf refl writes
      (lit "5") (lit "u2") (lit "7\n") (omega arith, (omega arith, tt)) differ (omega arith) arrives
      refl
  where
    differ : lit "u1" ≢ lit "u2"
    differ e = absurd (ground (arith, e))
