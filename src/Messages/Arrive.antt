-- ===== src/Messages/Arrive.antt =====
-- An answer that arrives in pieces (the loop of `send_message`, jsockd_server/src/messages.c).
use jsockd.Prelude.{
  ℕ, ◌+◌, ◌-◌, ◌<◌, ◌≡◌, refl, ap, ap₂, ◌∙◌, List, ◌∷◌, ◌++◌, Bool, true, false, Option, some,
  length, get_or, take, splice, length-splice, take-all, get_or-splice, splice-splice,
  length-append, arith,
}
use jsockd.CmdArgs.CString.{Str}
use jsockd.Time.{Timespec}
use jsockd.Messages.Answer.{Sep, is_sep}
use jsockd.Messages.{Round, go_around, eintr, bytes, received, is_late, room_at, receive}

-- Whether a piece ends in a separator.
abbrev pub ends_in_sep : Sep → Str → Bool
ends_in_sep sep piece = is_sep sep (get_or piece (length piece - 1) 0)

module _ (sep : Sep) (max_us : ℕ) (start : Timespec) where
  -- The rounds in which a text comes: silence and interrupted reads aside, it comes in pieces, of which
  -- only the last ends in a separator, and each of the others within the time limit; anything may follow.
  pub data Arrives : Str → List Round → Type 0 where
    silence :
        {text : Str} {rounds : List Round} → Arrives text rounds → Arrives text (go_around ∷ rounds)
    interrupted_read :
        {text : Str} {rounds : List Round} → Arrives text rounds → Arrives text (eintr ∷ rounds)
    last_piece :
        (c : ℕ) (cs : Str) (clock : Option Timespec) (later : List Round)
        → ends_in_sep sep (c ∷ cs) ≡ true
        → Arrives (c ∷ cs) (bytes c cs clock ∷ later)
    piece :
        {text : Str} {rounds : List Round} (c : ℕ) (cs : Str) (now : Timespec)
        → ends_in_sep sep (c ∷ cs) ≡ false
        → is_late max_us start now ≡ false
        → Arrives text rounds
        → Arrives ((c ∷ cs) ++ text) (bytes c cs (some now) ∷ rounds)

  pub Arrives-cons : {text : Str} {rounds : List Round} → Arrives text rounds → 0 < length text
  Arrives-cons (silence a) = Arrives-cons a
  Arrives-cons (interrupted_read a) = Arrives-cons a
  Arrives-cons (last_piece c cs clock later e) = omega arith
  Arrives-cons (piece c cs now e l a) = omega arith

  room_at_room :
      (size total : ℕ) (big : Bool) → total + 1 < size → room_at size total big ≡ (total, big)
  unfolding room_at
  room_at_room size total big h = ground arith

  -- One round with a piece for which there is room.
  module _ (c : ℕ) (cs : Str) (rounds : List Round) (size total : ℕ) (big : Bool) (buf : Str)
      (fits : total + length (c ∷ cs) < size) (sized : length buf ≡ size) where
    room : room_at size total big ≡ (total, big)
    room = room_at_room size total big (omega arith)

    taken : take (size - 1 - total) (c ∷ cs) ≡ c ∷ cs
    taken = take-all (c ∷ cs) (size - 1 - total) (omega arith)

    last_byte :
        get_or (splice buf total (c ∷ cs)) (total + length (c ∷ cs) - 1) 0
        ≡ get_or (c ∷ cs) (length (c ∷ cs) - 1) 0
    last_byte =
        let i : total + length (c ∷ cs) - 1 ≡ total + (length (c ∷ cs) - 1) = omega arith in
        ap (λ i. get_or (splice buf total (c ∷ cs)) i 0) i
        ∙ get_or-splice buf total (length (c ∷ cs) - 1) (c ∷ cs) 0 (omega arith) (omega arith)

    receive-last :
        (clock : Option Timespec)
        → ends_in_sep sep (c ∷ cs) ≡ true
        → receive sep size max_us start (bytes c cs clock ∷ rounds) total big buf
          ≡ received big (total + length (c ∷ cs)) (splice buf total (c ∷ cs))
    unfolding receive
    receive-last clock e = rw (room, taken, last_byte, e) refl

    receive-piece :
        (now : Timespec)
        → ends_in_sep sep (c ∷ cs) ≡ false
        → is_late max_us start now ≡ false
        → receive sep size max_us start (bytes c cs (some now) ∷ rounds) total big buf
          ≡ receive sep size max_us start rounds
              (total + length (c ∷ cs))
              big
              (splice buf total (c ∷ cs))
    unfolding receive
    receive-piece now e l = rw (room, taken, last_byte, e, l) refl

  -- However an answer is cut into pieces, and whatever silence and interrupted reads come between them,
  -- it is received as it was sent, behind what the buffer holds, when there is room for it and a zero.
  pub receive-Arrives :
      {text : Str} {rounds : List Round}
      → Arrives text rounds
      → (size total : ℕ) (big : Bool) (buf : Str) → total + length text < size
      → length buf ≡ size
      → receive sep size max_us start rounds total big buf
        ≡ received big (total + length text) (splice buf total text)
  unfolding receive
  receive-Arrives (silence a) size total big buf h l = receive-Arrives a size total big buf h l
  receive-Arrives (interrupted_read a) size total big buf h l =
      rw (room_at_room size total big (omega (arith, Arrives-cons a)))
        (receive-Arrives a size total big buf h l)
  receive-Arrives (last_piece c cs clock later e) size total big buf h l =
      receive-last c cs later size total big buf h l clock e
  receive-Arrives (piece {text = text} {rounds = rounds} c cs now e late a) size total big buf h l =
      let n = length-append (c ∷ cs) text in
      let fits : total + length (c ∷ cs) < size = omega (arith, n) in
      let assoc : total + length (c ∷ cs) + length text ≡ total + length ((c ∷ cs) ++ text) =
        omega (arith, n) in
      receive-piece c cs rounds size total big buf fits l now e late
      ∙ receive-Arrives a size (total + length (c ∷ cs)) big (splice buf total (c ∷ cs))
          (omega (arith, n)) (length-splice buf total (c ∷ cs) (omega arith) ∙ l)
      ∙ ap₂ (λ t b. received big t b) assoc (splice-splice buf total (c ∷ cs) text (omega arith))
