-- ===== src/Server/Tests.antt =====
-- Runs of a thread, and its theorems at concrete inputs: functions are numbers, and so are bytecodes.
use jsockd.Prelude.{ℕ, ◌≡◌, refl, List, [], ◌∷◌, true, false, some, none}
use jsockd.Prelude.Int.{ℤ, pos}
use jsockd.CmdArgs.CString.{Str, lit, same}
use jsockd.HashCache.{
  Bucket, n_buckets, get_cache_bucket, get_bucket_look_forward, get_hash_cache_entry, get_loop,
  holds,
}
use jsockd.Time.{Timespec}
use jsockd.Server.State.{
  init_complete, cleanup, loaded, returned, Server, Answers, trampoline, init_thread_state,
}
use jsockd.Server.Lines.{strncpy, store_uuid, swap_thread_states, handle_line_1_message_uid}
use jsockd.Server.{line_handler, whole_line, command_line, cleanup_old_runtime}
use jsockd.Server.Invariant.{IsValid}
use jsockd.Server.Steps.{
  line, Reachable, at_start, step, started, Reachable-IsValid, Reachable-line_handler, none_yet,
  then_one, cleaned,
}
use jsockd.Server.Trampoline.{Handles, line_handler-trampoline}
use jsockd.Server.References.{table_after, table_after_hit}
use jsockd.Server.Reply.{Answered, line_handler-Answered}

abbrev noon : Timespec
noon = record { tv_sec = 43200; tv_nsec = 0 }

-- An engine that compiles each query to 7 and returns the argument.
abbrev answers : Answers ℕ ℕ
answers = record {
  clock = some noon;
  clock_start = some noon;
  clock_end = some noon;
  join_succeeds = true;
  create_succeeds = true;
  write_succeeds = true;
  compile_buf = λ text. some 7;
  func_from_bytecode = λ b. loaded b;
  parses = λ text. true;
  call = λ q text. returned text;
  memusage = pos 100;
  format_memusage = none;
  format_int = λ n. lit "0";
  n_cached_functions = 0;
}

abbrev free_bucket : Bucket ℕ
free_bucket = record { uid = 0; refcount = 0; update_count = 0; payload = 0 }

abbrev cache : List (Bucket ℕ)
cache = free_bucket ∷ free_bucket ∷ free_bucket ∷ free_bucket ∷ []

abbrev hash : Str → ℕ
hash text = 5

abbrev fresh : Server ℕ ℕ
fresh = started free_bucket 2 hash noon cache

-- The replacement of the thread state is ready.
abbrev replaced : Server ℕ ℕ
replaced = record fresh {
  replacement_thread_state = init_complete;
  my_replacement = some (init_thread_state noon);
  joinable = true;
}

abbrev swapped : Server ℕ ℕ
swapped = record fresh {
  replacement_thread_state = cleanup;
  my_replacement = some (init_thread_state noon);
  joinable = true;
}

abbrev with_id : Server ℕ ℕ
with_id = record fresh {
  ts = record (init_thread_state noon) { current_uuid = lit "id1"; line_n = 1 };
}

first_line_runs :
    line_handler answers free_bucket 2 hash fresh (lit "id1") false ≡ some (pos 0, with_id)
unfolding line_handler whole_line command_line handle_line_1_message_uid store_uuid strncpy same
    init_thread_state
first_line_runs = refl

swap_runs :
    line_handler answers free_bucket 2 hash replaced (lit "id1") false ≡ some (trampoline, swapped)
unfolding line_handler whole_line command_line handle_line_1_message_uid swap_thread_states same
    init_thread_state
swap_runs = refl

fresh-IsValid : IsValid fresh
fresh-IsValid = Reachable-IsValid free_bucket 2 hash (at_start noon cache)

replaced-IsValid : IsValid replaced
unfolding init_thread_state
replaced-IsValid = record {
  thread = fresh-IsValid.thread;
  replacement = (refl, refl, refl, fresh-IsValid.thread);
  down = λ e. absurd (clash e);
}
  where
    clash : true ≡ false → ⊥
    clash e = cc

Reachable-line_handler_example :
    (r : ℤ) × (s' : Server ℕ ℕ) × (line_handler answers free_bucket 2 hash fresh (lit "id1") false
      ≡ some (r, s'))
    × Reachable free_bucket 2 hash s'
unfolding init_thread_state
Reachable-line_handler_example =
    Reachable-line_handler free_bucket 2 hash answers fresh (lit "id1") false (at_start noon cache)
      refl

Reachable-IsValid_example : IsValid with_id
unfolding init_thread_state
Reachable-IsValid_example =
    Reachable-IsValid free_bucket 2 hash
      (step (at_start noon cache) (line answers (lit "id1") false (pos 0) refl first_line_runs))

line_handler-trampoline_example :
    Handles free_bucket 2 hash answers (cleanup_old_runtime free_bucket swapped) (lit "id1") false
unfolding init_thread_state
line_handler-trampoline_example =
    line_handler-trampoline free_bucket 2 hash answers answers replaced swapped
      (cleanup_old_runtime free_bucket swapped) (lit "id1") (lit "id1") false false replaced-IsValid
      refl swap_runs (then_one none_yet (cleaned refl))

line_handler-Answered_example :
    Answered free_bucket 2 hash answers answers answers fresh (lit "id1") (lit "f") (lit "42")
unfolding init_thread_state
line_handler-Answered_example =
    line_handler-Answered free_bucket 2 hash answers answers answers fresh (lit "id1") (lit "f")
      (lit "42") noon noon noon noon noon refl refl refl refl refl refl refl refl refl refl refl

-- The cache with the bytecode 7 in its second bucket, and its references.
abbrev bucket_of : ℕ → Bucket ℕ
bucket_of refcount = record { uid = 5; refcount = refcount; update_count = 2; payload = 7 }

abbrev cache_with : ℕ → List (Bucket ℕ)
cache_with refcount = free_bucket ∷ bucket_of refcount ∷ free_bucket ∷ free_bucket ∷ []

abbrev warm : Server ℕ ℕ
warm = record with_id { table = cache_with 0 }

hit_run : get_hash_cache_entry free_bucket 2 5 (cache_with 0) ≡ some (1, cache_with 1)
unfolding get_hash_cache_entry get_loop holds n_buckets get_cache_bucket get_bucket_look_forward
hit_run = refl

table_after_hit_example :
    table_after answers answers free_bucket 2 hash warm (lit "f") (lit "42") ≡ cache_with 1
unfolding init_thread_state
table_after_hit_example =
    table_after_hit answers answers free_bucket 2 hash warm (lit "f") (lit "42") 1 (cache_with 1)
      refl hit_run
