-- ===== src/Writes.antt =====
-- `write_all` and `writev_all` of jsockd_server/src/utils.c. The answers of the system to the calls of
-- `write` and `writev` are a list.
pub mod Sent
mod Tests
use jsockd.Prelude.{
  ℕ, zero, suc, ◌+◌, ◌-◌, List, [], ◌∷◌, ◌++◌, Bool, true, ◌==◌, leb, if◌then◌else◌, length, take,
  drop,
}
use jsockd.Prelude.Int.{ℤ, pos, negsuc}
use jsockd.CmdArgs.CString.{Str}

-- One call takes the number of bytes, or is interrupted (EINTR), or fails.
pub data Answer : Type 0 where
  sent : ℕ → Answer
  interrupted failed : Answer

-- The result and the bytes that the system took, or it has not answered yet.
pub data Sending : Type 0 where
  ended : ℤ → Str → Sending
  waiting : Sending

-- The bytes were taken before the others.
unfoldable pub after_bytes : Str → Sending → Sending
after_bytes bytes (ended r more) = ended r (bytes ++ more)
after_bytes bytes waiting = waiting

-- `write_all`; `eintr` says whether `errno` is EINTR, which a call that does not fail leaves as it is. A
-- call that takes no byte ends it with the result 0, or is made again if an earlier one was interrupted.
unfoldable pub write_all : List Answer → Bool → Str → Sending
write_all answers eintr [] = ended (pos 0) []
write_all [] eintr (c ∷ cs) = waiting
write_all (sent zero ∷ answers) eintr (c ∷ cs) =
    let rest = write_all answers eintr (c ∷ cs) in if eintr then rest else ended (pos 0) []
write_all (sent (suc n) ∷ answers) eintr (c ∷ cs) =
    after_bytes (c ∷ take n cs) (write_all answers eintr (drop n cs))
write_all (interrupted ∷ answers) eintr (c ∷ cs) = write_all answers true (c ∷ cs)
write_all (failed ∷ answers) eintr (c ∷ cs) = ended (negsuc 0) []

-- The bytes of the vectors.
abbrev pub concat : List Str → Str
concat [] = []
concat (v ∷ iov) = v ++ concat iov

-- The inner loop of `writev_all`, and the change of the first vector that is left.
unfoldable pub advance : ℕ → List Str → List Str
advance remaining [] = []
advance remaining (v ∷ iov) =
    let rest = advance (remaining - length v) iov in
    if leb (length v) remaining then rest else drop remaining v ∷ iov

-- The outer loop of `writev_all`, with `errno` as above.
unfoldable pub writev_loop : List Answer → Bool → List Str → Sending
writev_loop answers eintr [] = ended (pos 0) []
writev_loop [] eintr (v ∷ iov) = waiting
writev_loop (sent zero ∷ answers) eintr (v ∷ iov) =
    let rest = writev_loop answers eintr (v ∷ iov) in if eintr then rest else ended (negsuc 0) []
writev_loop (sent (suc n) ∷ answers) eintr (v ∷ iov) =
    after_bytes (take (suc n) (concat (v ∷ iov)))
      (writev_loop answers eintr (advance (suc n) (v ∷ iov)))
writev_loop (interrupted ∷ answers) eintr (v ∷ iov) = writev_loop answers true (v ∷ iov)
writev_loop (failed ∷ answers) eintr (v ∷ iov) = ended (negsuc 0) []

-- `writev_all`
unfoldable pub writev_all : List Answer → Bool → List Str → Sending
writev_all answers eintr iov =
    if length (concat iov) == 0 then ended (pos 0) [] else writev_loop answers eintr iov
