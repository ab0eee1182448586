-- ===== src/LineBuf/Reads.antt =====
-- `line_buf_read` (jsockd_server/src/line_buf.c): one read, and a sequence of reads.
use jsockd.Prelude.{
  ℕ, ◌+◌, ◌-◌, ◌≤◌, ◌≡◌, subst, ◌∙◌, List, [], ◌∷◌, Bool, ◌==◌, ◌||◌, if◌then◌else◌, length, splice,
  length-take, length-splice, slice-splice, take-splice, arith,
}
use jsockd.Prelude.Int.{pos, negsuc}
use jsockd.LineBuf.{
  LineBuf, LineHandler, Read, got, fail, make_room, line_buf_replay, line_buf_read, read_eof,
}
use jsockd.LineBuf.Spec.{feed}
use jsockd.LineBuf.Refine.{IsValid, IsReady, contents, begun, unread, Refines, replay-Refines}

-- The room that a read is offered, and the line and the flag that it continues: none of the line if
-- the buffer was full.
abbrev pub is_full : LineBuf → Bool
is_full b = b.size - b.start == 0

abbrev pub room : LineBuf → ℕ
room b = (make_room b).size - (make_room b).start

make_room-IsValid : (b : LineBuf) → IsValid b → IsValid (make_room b)
unfolding make_room
make_room-IsValid b v = ground arith

make_room-contents :
    (b : LineBuf)
    → (contents (make_room b) ≡ (if is_full b then [] else contents b))
      × ((make_room b).truncated ≡ (is_full b || b.truncated))
unfolding make_room
make_room-contents b = ground arith

pub room_bound :
    (b : LineBuf) → IsValid b → length (if is_full b then [] else contents b) + room b ≤ b.size
unfolding make_room
room_bound b v = ground (arith, v, length-take b.start b.buf)

-- The state in which the bytes of a read are replayed.
abbrev loaded : LineBuf → List ℕ → LineBuf
loaded b cs = record b { buf = splice b.buf b.start cs; n = pos (length cs) }

loaded-IsReady :
    (b : LineBuf) (cs : List ℕ) → IsValid b → length cs ≤ b.size - b.start → IsReady (loaded b cs)
loaded-IsReady b cs v h = record {
  whole = length-splice b.buf b.start cs (omega arith) ∙ v.whole;
  fits = omega arith;
  begun_before = omega arith;
}

loaded-unread : (b : LineBuf) (cs : List ℕ) → IsValid b → unread (loaded b cs) ≡ cs
loaded-unread b cs v = slice-splice b.buf b.start cs (omega arith)

loaded-begun : (b : LineBuf) (cs : List ℕ) → IsValid b → begun (loaded b cs) ≡ contents b
loaded-begun b cs v =
    let z : b.start - 0 ≡ b.start = omega arith in
    rw (v.at_front, z) (take-splice b.buf b.start cs (omega arith))

module _ {H : Type 0} (sep : ℕ) (handler : LineHandler H) where
  read_got :
      (b : LineBuf) (readf : ℕ → Read) (h : H) (c : ℕ) (cs : List ℕ)
      → readf (room b) ≡ got (c ∷ cs)
      → line_buf_read sep handler b readf h
        ≡ line_buf_replay sep handler (loaded (make_room b) (c ∷ cs)) h
  unfolding line_buf_read
  read_got b readf h c cs e = rw (e, line_buf_read)

  -- A read that brings bytes, no more than it was offered, hands them to `feed`, behind the
  -- unfinished line; if the buffer was full, that line is forgotten, and the flag set.
  pub read-Refines :
      (b : LineBuf) (readf : ℕ → Read) (h : H) (c : ℕ) (cs : List ℕ)
      → IsValid b
      → readf (room b) ≡ got (c ∷ cs)
      → length (c ∷ cs) ≤ room b
      → Refines sep (pos (length (c ∷ cs))) (line_buf_read sep handler b readf h) (
          feed sep handler
            (c ∷ cs)
            (if is_full b then [] else contents b)
            (is_full b || b.truncated)
            h)
  read-Refines b readf h c cs v e le =
      let b' : LineBuf = make_room b in
      let v' : IsValid b' = make_room-IsValid b v in
      rw (read_got b readf h c cs e) (
        subst
          (Refines sep (pos (length (c ∷ cs))) (line_buf_replay sep handler (loaded b' (c ∷ cs)) h))
          (same b' v' (make_room-contents b).0 (make_room-contents b).1)
          (replay-Refines sep handler (loaded b' (c ∷ cs)) h (loaded-IsReady b' (c ∷ cs) v' le)))
    where
      same :
          (b' : LineBuf)
          → IsValid b'
          → contents b' ≡ (if is_full b then [] else contents b)
          → b'.truncated ≡ (is_full b || b.truncated)
          → feed sep handler
              (unread (loaded b' (c ∷ cs)))
              (begun (loaded b' (c ∷ cs)))
              b'.truncated
              h
            ≡ feed sep handler
                (c ∷ cs)
                (if is_full b then [] else contents b)
                (is_full b || b.truncated)
                h
      same b' v' p q = λ i.
          feed sep handler (loaded-unread b' (c ∷ cs) v' i) ((loaded-begun b' (c ∷ cs) v' ∙ p) i)
            (q i) h

  -- A read that brings no bytes hands the handler nothing, and keeps the unfinished line.
  pub read_nothing :
      (b : LineBuf) (readf : ℕ → Read) (h : H)
      → readf (room b) ≡ got []
      → line_buf_read sep handler b readf h ≡ (read_eof, record (make_room b) { n = pos 0 }, h)
  unfolding line_buf_read
  read_nothing b readf h e = rw (e, line_buf_read)

  -- A failed read is returned, and hands the handler nothing.
  pub read_failed :
      (b : LineBuf) (readf : ℕ → Read) (h : H) (k : ℕ)
      → readf (room b) ≡ fail k
      → line_buf_read sep handler b readf h ≡ (negsuc k, record (make_room b) { n = negsuc k }, h)
  unfolding line_buf_read
  read_failed b readf h k e = rw (e, line_buf_read)
