-- ===== src/Messages/Receive.antt =====
-- The loop of `send_message` (jsockd_server/src/messages.c).
use jsockd.Prelude.{
  ℕ, ◌+◌, ◌-◌, ◌<◌, ◌≡◌, ◌≢◌, refl, ◌∙◌, subst, List, [], ◌∷◌, Bool, true, false, if◌then◌else◌,
  Option, some, none, length, get_or, take, splice, length-splice, length-take, arith,
}
use jsockd.CmdArgs.CString.{Str}
use jsockd.Time.{Timespec}
use jsockd.Messages.Answer.{Sep, is_sep, timeout, time}
use jsockd.Messages.{
  Round, go_around, sig_interrupt_or_error, eintr, broken, bytes, Received, received, broke_off,
  is_late, room_at, receive,
}

module _ (sep : Sep) (max_us : ℕ) (start : Timespec) where
  -- What is known of an answer that was received in a buffer of this size.
  pub record IsWhole (size total_read : ℕ) (buf : Str) : Type 0 where
    pub some_read : 0 < total_read
    pub room_for_end : total_read < size
    pub same_size : length buf ≡ size
    pub ends_in_sep : is_sep sep (get_or buf (total_read - 1) 0) ≡ true

  room_at_bounds :
      (size total : ℕ) (big : Bool)
      → 1 < size
      → total < size
      → (room_at size total big).0 + 1 < size
  unfolding room_at
  room_at_bounds size total big h k = ground arith

  in_time :
      {P : Type 0} {rest out : Received} (late : Bool)
      → (rest ≡ out → P)
      → (if late then broke_off timeout else rest) ≡ out
      → (broke_off timeout ≢ out)
      → P
  in_time true r g n = absurd (n g)
  in_time false r g n = r g

  -- The end of a round that brings bytes: `total` and `big` are what `room_at` says.
  after_bytes :
      (rest : Received) (clock : Option Timespec) (ended : Bool) (total : ℕ) (big : Bool)
      (buf : Str) {size total' : ℕ} {big' : Bool} {buf' : Str}
      → is_sep sep (get_or buf (total - 1) 0) ≡ ended
      → 0 < total
      → total < size
      → length buf ≡ size
      → (rest ≡ received big' total' buf' → IsWhole size total' buf')
      → (if ended then received big total buf else (elim clock [
        | none ↦ broke_off time
        | some now ↦ (if is_late max_us start now then broke_off timeout else rest)
      ]))
        ≡ received big' total' buf'
      → IsWhole size total' buf'
  after_bytes rest clock true total big buf {size = size} {total' = total'} {buf' = buf'} e h k l r
        g =
      let n : total ≡ total' = ground (arith, g) in
      let m : buf ≡ buf' = ground (arith, g) in
      let positive : 0 < total' = omega arith in
      let room : total' < size = omega arith in
      let ended = subst (λ t. is_sep sep (get_or buf (t - 1) 0) ≡ true) n e in
      record {
        some_read = positive;
        room_for_end = room;
        same_size = subst (λ b. length b ≡ size) m l;
        ends_in_sep = subst (λ b. is_sep sep (get_or b (total' - 1) 0) ≡ true) m ended;
      }
  after_bytes rest none false total big buf e h k l r g = absurd (ground (arith, g))
  after_bytes rest (some now) false total big buf e h k l r g =
      in_time (is_late max_us start now) r g (λ q. ground (arith, q))

  -- The answer is within the buffer: from any point of the loop, in a buffer of at least two bytes, what
  -- is received has at least one byte, leaves room for the terminating zero, and ends in a separator;
  -- the buffer keeps its size.
  pub receive-IsWhole :
      (rounds : List Round) (total : ℕ) (big : Bool) (buf : Str) {size total' : ℕ} {big' : Bool}
      {buf' : Str}
      → 1 < size
      → total < size
      → length buf ≡ size
      → receive sep size max_us start rounds total big buf ≡ received big' total' buf'
      → IsWhole size total' buf'
  unfolding receive
  receive-IsWhole [] total big buf h k l g = absurd (ground (arith, g))
  receive-IsWhole (go_around ∷ rounds) total big buf h k l g =
      receive-IsWhole rounds total big buf h k l g
  receive-IsWhole (sig_interrupt_or_error ∷ rounds) total big buf h k l g =
      absurd (ground (arith, g))
  receive-IsWhole (eintr ∷ rounds) total big buf {size = size} h k l g =
      let room = room_at size total big in
      receive-IsWhole rounds room.0 room.1 buf h (omega (arith, room_at_bounds size total big h k))
        l g
  receive-IsWhole (broken ∷ rounds) total big buf h k l g = absurd (ground (arith, g))
  receive-IsWhole (bytes c cs clock ∷ rounds) total big buf {size = size} h k l g =
      let room = room_at size total big in
      let got = take (size - 1 - room.0) (c ∷ cs) in
      let b = room_at_bounds size total big h k in
      let n = length-take (size - 1 - room.0) (c ∷ cs) in
      let l' = length-splice buf room.0 got (omega (arith, b, n)) ∙ l in
      after_bytes _ clock _ (room.0 + length got) room.1 (splice buf room.0 got) refl
        (omega (arith, b, n)) (omega (arith, b, n)) l'
        (receive-IsWhole rounds (room.0 + length got) room.1 (splice buf room.0 got) h
          (omega (arith, b, n)) l')
        g
