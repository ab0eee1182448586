-- ===== src/LineBuf/Tests.antt =====
-- Runs of the line buffer, and its theorems at concrete inputs.
use jsockd.Prelude.{ℕ, ◌≡◌, refl, List, [], ◌∷◌, ◌++◌, Bool, false, ◌==◌, if◌then◌else◌, arith}
use jsockd.Prelude.Int.{ℤ, pos, negsuc}
use jsockd.LineBuf.{LineBuf, LineHandler, got, line_buf_replay, line_buf_read, make_room}
use jsockd.LineBuf.Spec.{feed}
use jsockd.LineBuf.Refine.{IsValid, contents, unread, Refines, replay-Refines}
use jsockd.LineBuf.Reads.{read-Refines}
use jsockd.LineBuf.Chunks.{Fits, read_all, read_all-same}
use mathlib.Core.List.{flatten}

abbrev fresh : LineBuf
fresh = record {
  buf = 0 ∷ 0 ∷ 0 ∷ 0 ∷ 0 ∷ 0 ∷ [];
  size = 6;
  start = 0;
  afsep = 0;
  truncated = false;
  n = pos 0;
}

-- It records its lines with their flags, and refuses a line that begins with 9, once.
abbrev Log : Type 0
Log = List (List ℕ × Bool)

abbrev record_line : LineHandler Log
record_line line t h = (pos 0, h ++ ((line, t) ∷ []))

abbrev starts_with_nine : List ℕ → Bool
starts_with_nine [] = false
starts_with_nine (c ∷ cs) = c == 9

abbrev picky : LineHandler Log
picky line t [] =
    if starts_with_nine line then (negsuc 3, ([], t) ∷ []) else (pos 0, (line, t) ∷ [])
picky line t (x ∷ h) = record_line line t (x ∷ h)

-- Two lines and a part of a third.
abbrev two_lines : List ℕ
two_lines = 1 ∷ 2 ∷ 10 ∷ 3 ∷ 10 ∷ 4 ∷ []

abbrev after_two : LineBuf
after_two = record {
  buf = 4 ∷ 2 ∷ 0 ∷ 3 ∷ 0 ∷ 4 ∷ [];
  size = 6;
  start = 1;
  afsep = 0;
  truncated = false;
  n = pos 6;
}

read_runs :
    line_buf_read 10 record_line fresh (λ _. got two_lines) []
    ≡ (pos 6, after_two, (1 ∷ 2 ∷ [], false) ∷ (3 ∷ [], false) ∷ [])
unfolding line_buf_read
read_runs = refl

abbrev refused : ℤ × LineBuf × Log
refused = line_buf_read 10 picky fresh (λ _. got (9 ∷ 10 ∷ 5 ∷ [])) []

-- The refused line is handed over again by the next replay.
replay_runs :
    (refused.0 ≡ negsuc 3)
    × (refused.1.truncated ≡ false)
    × (line_buf_replay 10 picky refused.1 refused.2).2 ≡ ([], false) ∷ (9 ∷ [], false) ∷ []
unfolding line_buf_read
replay_runs = (refl, refl, refl)

fresh-IsValid : IsValid fresh
fresh-IsValid = omega arith

replay-Refines_example :
    Refines 10
      (pos 6)
      (line_buf_replay 10 record_line (record fresh { buf = two_lines; n = pos 6 }) [])
      (feed 10 record_line (unread (record fresh { buf = two_lines; n = pos 6 })) [] false [])
replay-Refines_example =
    replay-Refines 10 record_line (record fresh { buf = two_lines; n = pos 6 }) []
      (record { whole = refl; fits = omega arith; begun_before = omega arith })

read-Refines_example :
    Refines 10
      (pos 6)
      (line_buf_read 10 record_line fresh (λ _. got two_lines) [])
      (feed 10 record_line two_lines [] false [])
unfolding make_room
read-Refines_example =
    read-Refines 10 record_line fresh (λ _. got two_lines) [] 1 (2 ∷ 10 ∷ 3 ∷ 10 ∷ 4 ∷ [])
      fresh-IsValid refl (omega arith)

abbrev in_two : List (List ℕ)
in_two = two_lines ∷ (5 ∷ 10 ∷ []) ∷ []

abbrev in_three : List (List ℕ)
in_three = (1 ∷ []) ∷ (2 ∷ 10 ∷ 3 ∷ 10 ∷ []) ∷ (4 ∷ 5 ∷ 10 ∷ []) ∷ []

in_two-Fits : Fits 10 record_line fresh [] in_two
unfolding line_buf_read
in_two-Fits = ((λ e. cc), refl, omega arith, ((λ e. cc), refl, omega arith, tt))

in_three-Fits : Fits 10 record_line fresh [] in_three
unfolding line_buf_read
in_three-Fits = (
  (λ e. cc),
  refl,
  omega arith,
  ((λ e. cc), refl, omega arith, ((λ e. cc), refl, omega arith, tt)),
)

abbrev after : List (List ℕ) → LineBuf × Log
after chunks = read_all 10 record_line fresh [] chunks

read_all-same_example :
    ((after in_two).1 ≡ (after in_three).1)
    × (contents (after in_two).0 ≡ contents (after in_three).0)
    × ((after in_two).0.truncated ≡ (after in_three).0.truncated)
unfolding flatten
read_all-same_example =
    read_all-same 10 record_line (λ _ _ _. refl) in_two in_three fresh [] fresh-IsValid in_two-Fits
      in_three-Fits refl
