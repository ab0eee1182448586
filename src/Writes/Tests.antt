-- ===== src/Writes/Tests.antt =====
-- Runs of the writes, and their theorems at concrete inputs.
use jsockd.Prelude.{◌≡◌, refl, List, [], ◌∷◌, false, arith}
use jsockd.Prelude.Int.{pos, negsuc}
use jsockd.CmdArgs.CString.{Str, lit}
use jsockd.Writes.{
  Answer, sent, interrupted, failed, ended, after_bytes, write_all, advance, writev_loop,
  writev_all,
}
use jsockd.Writes.Sent.{Sends, writev_all-Sends, writev_all-Progresses}

abbrev vectors : List Str
vectors = lit "ab" ∷ [] ∷ lit "cd" ∷ []

-- Three bytes, an interruption, and the last one.
abbrev slow : List Answer
slow = sent 3 ∷ interrupted ∷ sent 1 ∷ []

slow_run : writev_all slow false vectors ≡ ended (pos 0) (lit "abcd")
unfolding writev_all writev_loop advance after_bytes
slow_run = refl

failed_run : writev_all (sent 2 ∷ failed ∷ []) false vectors ≡ ended (negsuc 0) (lit "ab")
unfolding writev_all writev_loop advance after_bytes
failed_run = refl

-- A call of `write` that takes nothing looks like success.
empty_run : write_all (sent 2 ∷ sent 0 ∷ []) false (lit "abcd") ≡ ended (pos 0) (lit "ab")
unfolding write_all after_bytes
empty_run = refl

-- A call of `writev` that takes nothing is made again behind an interruption, and ends it otherwise.
again_run :
    writev_all (interrupted ∷ sent 0 ∷ sent 4 ∷ []) false vectors ≡ ended (pos 0) (lit "abcd")
unfolding writev_all writev_loop advance after_bytes
again_run = refl

writev_all-Sends_example : Sends (lit "abcd") (writev_all slow false vectors)
writev_all-Sends_example = writev_all-Sends slow false vectors

writev_all-Progresses_example :
    writev_all (sent 1 ∷ sent 1 ∷ sent 1 ∷ sent 1 ∷ sent 1 ∷ []) false vectors
    ≡ ended (pos 0) (lit "abcd")
writev_all-Progresses_example =
    writev_all-Progresses (sent 1 ∷ sent 1 ∷ sent 1 ∷ sent 1 ∷ sent 1 ∷ []) false vectors
      (omega arith, (omega arith, (omega arith, (omega arith, (omega arith, tt))))) (omega arith)
