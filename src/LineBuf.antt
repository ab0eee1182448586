-- ===== src/LineBuf.antt =====
-- The line buffer of jsockd_server/src/line_buf.c. The buffer is a `List ℕ` of bytes. The handler
-- `line_handler` with the object behind `line_handler_data` is a function on the client's state `H`,
-- and one call of `readf` is a value of `Read`.
pub mod Spec
pub mod Scan
pub mod Refine
pub mod Reads
pub mod Chunks
pub mod Tests
use jsockd.Prelude.{
  ℕ, zero, suc, ◌+◌, ◌-◌, List, [], ◌∷◌, Bool, true, false, ◌==◌, if◌then◌else◌, get_or, set, slice,
  splice, length,
}
use jsockd.Prelude.Int.{ℤ, pos, negsuc, is_neg, pos_part}

-- `LineBuf`
pub record LineBuf : Type 0 where
  pub buf : List ℕ
  pub size : ℕ
  pub start : ℕ
  pub afsep : ℕ
  pub truncated : Bool
  pub n : ℤ

-- `LINE_BUF_READ_EOF`
abbrev pub read_eof : ℤ
read_eof = negsuc 99998

-- What `readf` does: it puts bytes into the buffer and returns their number (none at the end of the
-- stream), or it fails and returns -(k + 1).
pub data Read : Type 0 where
  got : List ℕ → Read
  fail : ℕ → Read

-- The callback `line_handler`: the line, the flag `truncated`, and the object behind the pointer.
abbrev pub LineHandler : Type 0 → Type 0
LineHandler H = List ℕ → Bool → H → ℤ × H

-- What a part of the loop leaves: a return from the middle of it, or the state to go on with.
pub data Pass (H : Type 0) : Type 0 where
  halt : ℤ → LineBuf → H → Pass H
  next : LineBuf → H → Pass H

-- The last part of `line_buf_replay`: the unfinished line moves to the front. `i` is the index
-- behind the last byte.
unfoldable pub compact : LineBuf → ℕ → LineBuf
compact b i = record b {
  buf = splice b.buf 0 (slice b.buf b.afsep (i - b.afsep));
  start = i - b.afsep;
  afsep = 0;
}

-- The first part of `line_buf_read`: a full buffer is dropped, and the line marked as truncated.
unfoldable pub make_room : LineBuf → LineBuf
make_room b =
    if b.size - b.start == 0 then record b { start = 0; afsep = 0; truncated = true } else b

module _ {H : Type 0} (sep : ℕ) (handler : LineHandler H) where
  -- One round of the loop of `line_buf_replay`.
  unfoldable pub replay_byte : ℕ → LineBuf → H → Pass H
  replay_byte i b h =
      if get_or b.buf i 0 == sep
      then (let buf' = set b.buf i 0 in
          let (r, h') = handler (slice buf' b.afsep (i - b.afsep)) b.truncated h in
          if is_neg r
          then halt r
              (record b {
                buf = set buf' i sep;
                start = b.afsep;
                truncated = false;
                n = pos (pos_part b.n + b.start - b.afsep);
              })
              h'
          else next (record b { buf = buf'; afsep = i + 1; truncated = false }) h')
      else next b h

  -- The loop, with the number of rounds left and the index `i`.
  unfoldable pub replay_loop : ℕ → ℕ → LineBuf → H → Pass H
  replay_loop zero i b h = next b h
  replay_loop (suc k) i b h = elim (replay_byte i b h) [
    | halt r b' h' ↦ halt r b' h'
    | next b' h' ↦ replay_loop k (i + 1) b' h'
  ]

  -- `line_buf_replay`
  unfoldable pub line_buf_replay : LineBuf → H → ℤ × LineBuf × H
  unfolding replay_loop replay_byte compact
  line_buf_replay b h = elim (replay_loop (pos_part b.n) b.start b h) [
    | halt r b' h' ↦ (r, b', h')
    | next b' h' ↦ (b'.n, compact b' (b.start + pos_part b.n), h')
  ]

  -- `line_buf_read`
  unfoldable pub line_buf_read : LineBuf → (ℕ → Read) → H → ℤ × LineBuf × H
  unfolding line_buf_replay make_room
  line_buf_read b readf h =
      let b' = make_room b in
      elim (readf (b'.size - b'.start)) [
        | got [] ↦ (read_eof, record b' { n = pos 0 }, h)
        | got (c ∷ cs) ↦
            line_buf_replay
              (record b' { buf = splice b'.buf b'.start (c ∷ cs); n = pos (length (c ∷ cs)) }) h
        | fail k ↦ (negsuc k, record b' { n = negsuc k }, h)
      ]
