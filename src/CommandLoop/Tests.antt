-- ===== src/CommandLoop/Tests.antt =====
-- A run of `command_loop` (jsockd_server/src/main.c), and its theorems at a concrete one.
use jsockd.Prelude.{ℕ, ◌≡◌, refl, List, [], ◌∷◌, true, false, some, none, take, length-take, arith}
use jsockd.Prelude.Int.{pos, negsuc}
use jsockd.CmdArgs.CString.{Str, lit, same}
use jsockd.HashCache.{Bucket}
use jsockd.Time.{Timespec}
use jsockd.LineBuf.{LineBuf, Read, got, line_buf_read, line_buf_replay}
use jsockd.LineBuf.Reads.{room}
use jsockd.Server.State.{loaded, returned, Server, Answers, init_failed, init_thread_state}
use jsockd.Server.{
  engine_up, no_clock, started_state, reinitialize, tick_handler, line_handler, whole_line,
  command_line,
}
use jsockd.Server.Lines.{handle_line_1_message_uid, store_uuid}
use jsockd.Server.Steps.{started, at_start, Reachable-IsValid}
use jsockd.CommandLoop.{replays, ready, Accept, Round, exited, read_loop, command_loop}
use jsockd.CommandLoop.Moments.{
  made_replacement, Moment, World, at, null_pointer, on_server, uses_engine, happen, happens,
  world_handler,
}
use jsockd.CommandLoop.Replays.{Offers, Ends}
use jsockd.CommandLoop.Once.{Ok, Valid, replays-line_handler}
use jsockd.CommandLoop.End.{EndsWell, command_loop-EndsWell}

abbrev noon : Timespec
noon = record { tv_sec = 43200; tv_nsec = 0 }

-- An engine that compiles each query to 7 and returns the argument.
abbrev answers : Answers ℕ ℕ
answers = record {
  clock = some noon;
  clock_start = some noon;
  clock_end = some noon;
  join_succeeds = true;
  create_succeeds = true;
  write_succeeds = true;
  compile_buf = λ text. some 7;
  func_from_bytecode = λ b. loaded b;
  parses = λ text. true;
  call = λ q text. returned text;
  memusage = pos 100;
  format_memusage = none;
  format_int = λ n. lit "0";
  n_cached_functions = 0;
}

abbrev free_bucket : Bucket ℕ
free_bucket = record { uid = 0; refcount = 0; update_count = 0; payload = 0 }

abbrev cache : List (Bucket ℕ)
cache = free_bucket ∷ free_bucket ∷ free_bucket ∷ free_bucket ∷ []

abbrev hash : Str → ℕ
hash text = 5

abbrev moment : Moment ℕ ℕ
moment = record { before = made_replacement (some noon) ∷ []; answers = answers }

abbrev server : Server ℕ ℕ
server = started free_bucket 2 hash noon cache

abbrev world : World ℕ ℕ
world = at server (moment ∷ moment ∷ moment ∷ [])

world-Valid : Valid free_bucket world
world-Valid = Reachable-IsValid free_bucket 2 hash (at_start noon cache)

world-Ok : Ok free_bucket world
unfolding init_thread_state
world-Ok = (world-Valid, refl)

-- The command `a`, `q`, `1`, as far as there is room.
abbrev reads : ℕ → Read
reads n = got (take n (lit "a\nq\n1\n"))

reads-Offers : (n : ℕ) → Offers (reads n) n
reads-Offers n = omega (arith, length-take n (lit "a\nq\n1\n"))

abbrev buffer : LineBuf
buffer = record {
  buf = lit "            ";
  size = 12;
  start = 0;
  afsep = 0;
  truncated = false;
  n = pos 0;
}

replays-line_handler_example : Ends (Ok free_bucket) (
    replays 10
      (world_handler free_bucket 2 hash)
      12
      (line_buf_read 10 (world_handler free_bucket 2 hash) buffer reads world))
replays-line_handler_example =
    replays-line_handler free_bucket 2 hash 10 buffer reads world
      (record { whole = refl; fits = omega arith; at_front = refl }) world-Ok
      (reads-Offers (room buffer))

abbrev accept : Accept
accept = record { polled = ready; accepted = true; clock = some noon }

abbrev round : (ℕ → Read) → Round ℕ ℕ
round read = record {
  before = [];
  tick_clock = some noon;
  polled = ready;
  init = engine_up noon;
  read = read;
}

-- A command, and the end of the stream.
abbrev rounds : List (Round ℕ ℕ)
rounds = round reads ∷ round (λ n. got []) ∷ []

command_loop-EndsWell_example :
    EndsWell free_bucket 4
      (command_loop free_bucket 2 hash 10 1 0 true true 4 12 (accept ∷ []) rounds world)
command_loop-EndsWell_example =
    command_loop-EndsWell free_bucket 2 hash 10 1 0 true true 4 12 (accept ∷ []) rounds world
      (reads-Offers, ((λ n. omega arith), tt)) ((noon, refl), ((noon, refl), tt)) world-Ok

-- The thread was shut down, and its start fails: the query of the next command goes to an engine that is
-- freed.
abbrev down : World ℕ ℕ
down = on_server (λ s. record s { ts = record s.ts { running = false } }) world

abbrev fails : Round ℕ ℕ
fails = record {
  before = [];
  tick_clock = some noon;
  polled = ready;
  init = no_clock;
  read = reads;
}

failed_run :
    read_loop free_bucket 2 hash 10 1 0 (fails ∷ []) buffer down
    ≡ some (exited (negsuc 0) null_pointer)
unfolding read_loop replays world_handler uses_engine happen happens reinitialize started_state
    init_failed init_thread_state tick_handler line_buf_read line_buf_replay line_handler whole_line
    command_line same handle_line_1_message_uid store_uuid
failed_run = refl
