-- ===== src/Tests/Logs.antt =====
-- The record of a request, the writer of logs and the batches at concrete inputs.
use majordomo_gateway.Base.{
  ℕ, ◌+◌, ◌<◌, ◌≡◌, ◌⊎◌, refl, none, some, Option, List, [], ◌∷◌, Str, lit, arith, true, false,
  Bool, lookup, ◌==◌, map, if◌then◌else◌, is_some, int_mod, ◌%◌, Distinct, Dict,
}
use majordomo_gateway.Tests.Fixtures.{millionths, service}
use majordomo_gateway.Tests.Usage.{log, rows}
use majordomo_gateway.Tests.Metadata.{lists}
use majordomo_gateway.Logs.Types.{RequestLog}
use majordomo_gateway.Logs.Record.{Exchanged, LogCalls, BodyPayload, log_request}
use majordomo_gateway.Logs.Record.Laws.{IsLogged, log_request-IsLogged}
use majordomo_gateway.Logs.Writer.{
  WriterState, WriterRun, fresh_writer, write_row, is_active_key, then_step, started, enqueue,
  close_done, write_log,
}
use majordomo_gateway.Logs.Writer.Laws.{accepted, IsKept, accepted-IsKept, close_may_lose}
use majordomo_gateway.Logs.Writer.Keys.{key_of, write_row_lem}
use majordomo_gateway.Metadata.{HllKey}
use majordomo_gateway.Metadata.Laws.{pending}
use majordomo_gateway.Metadata.Batches.{
  awaits_backfill, backfill_row, awaits_cleanup, cleanup_row, IsCompleted,
  backfill_indexed_metadata, cleanup_indexed_metadata, index_batches-IsCompleted, matching,
}

abbrev calls : LogCalls
calls = record {
  parse_response = λ parser body. some (record {
    provider = lit "parser";
    model = lit "m-1";
    input_tokens = 11;
    output_tokens = 7;
    cached_tokens = 3;
    cache_creation_tokens = 2;
    cache_creation_5m_tokens = 1;
    cache_creation_1h_tokens = 1;
    response_time = 0;
  });
  model_of = λ body. some (lit "m");
  interior_span_id = λ trace path. path;
  reason_text = λ reason. lit "r";
}

abbrev exchanged : Exchanged
exchanged = record {
  request_id = lit "1";
  api_key_id = lit "k";
  key_info = record { hash = none; alias = none };
  provider = lit "b";
  path = lit "/v1/chat/completions";
  method = lit "POST";
  request_body = lit "q";
  status = 500;
  response_headers = [];
  response_body = lit "overloaded";
  response_time = 3_000_000;
  requested_at = 10;
  responded_at = 13;
  headers = [];
  original_model = none;
  decision = none;
}

abbrev takes_all : Str → BodyPayload → Bool
takes_all key payload = true

abbrev year : ℕ → Str
year t = lit "2026"

log_request-IsLogged_example :
    IsLogged millionths calls service
      (some takes_all)
      exchanged
      (log_request millionths calls service (some takes_all) year [] exchanged)
log_request-IsLogged_example =
    log_request-IsLogged millionths calls service (some takes_all) year [] exchanged

abbrev exec : ℕ → Bool
exec n = true

abbrev one_log : WriterState ℕ
one_log = record {
  queue = 7 ∷ [];
  written = [];
  dropped = [];
  done = false;
  db_open = true;
  running = true;
}

abbrev is_closed : WriterState ℕ
is_closed = record one_log { done = true }

abbrev ends : WriterState ℕ
ends = record is_closed { queue = []; written = (7, true) ∷ [] }

-- A log comes, the writer is closed, and the log is written while it drains.
abbrev short_run : WriterRun ℕ exec (fresh_writer ℕ) ends
unfolding fresh_writer
short_run =
    then_step is_closed ends
      (then_step one_log is_closed
        (then_step (fresh_writer ℕ) one_log started (enqueue (fresh_writer ℕ) 7 (omega arith)))
        (close_done one_log))
      (write_log is_closed 7 [] refl refl)

accepted-IsKept_example : IsKept exec ends (accepted exec short_run)
accepted-IsKept_example = accepted-IsKept exec short_run

close_may_lose_example :
    (t : WriterState ℕ) × (run : WriterRun ℕ exec (fresh_writer ℕ) t) × (accepted exec run
      ≡ 7 ∷ 8 ∷ [])
    × (t.running ≡ false)
    × (t.written ≡ map (λ n. (n, false)) (7 ∷ 8 ∷ []))
close_may_lose_example = close_may_lose exec (7 ∷ 8 ∷ []) (omega arith)

abbrev a_log : RequestLog ℕ
a_log = log (lit "1") none [] 10 200

abbrev active_keys : Str → Option (List Str)
active_keys id = some (lit "user" ∷ [])

abbrev takes_row : RequestLog ℕ → Bool
takes_row row = true

abbrev takes_key : HllKey → Bool
takes_key key = true

one_key : Distinct a_log.raw_metadata
unfolding lookup
one_key = (refl, tt)

write_row_lem_example :
    (indexed : Dict Str) × ((k : Str)
      → lookup k indexed
        ≡ (if is_active_key (lit "user" ∷ []) k then lookup k a_log.raw_metadata else none))
    × let row = record a_log { indexed_metadata = indexed } in
      let written = write_row lists active_keys takes_row takes_key a_log ([], []) in
      ((takes_row row ≡ true)
        × (written.0 ≡ some row)
        × ((k : Str)
            → pending lists (key_of lists (lit "k") k) written.1.0 % int_mod
              ≡ (pending lists (key_of lists (lit "k") k) []
                  + (if is_some (lookup k a_log.raw_metadata) then 1 else 0))
                % int_mod))
      ⊎ ((takes_row row ≡ false) × (written ≡ (none, ([], []))))
write_row_lem_example =
    write_row_lem lists active_keys takes_row takes_key a_log [] [] (lit "k") (lit "user" ∷ []) refl
      refl one_key

few_to_backfill : matching (awaits_backfill (lit "k") (lit "user")) rows < 5
unfolding matching awaits_backfill lookup ◌==◌ lit
few_to_backfill = omega arith

few_to_clean_up : matching (awaits_cleanup (lit "k") (lit "user")) rows < 5
unfolding matching awaits_cleanup lookup ◌==◌ lit
few_to_clean_up = omega arith

index_batches-IsCompleted_example :
    IsCompleted
      (awaits_backfill (lit "k") (lit "user"))
      (backfill_row (lit "k") (lit "user"))
      (λ n. true)
      0
      rows
      (backfill_indexed_metadata (lit "k") (lit "user") 5 (λ n. true) 2 rows)
    × IsCompleted
        (awaits_cleanup (lit "k") (lit "user"))
        (cleanup_row (lit "k") (lit "user"))
        (λ n. true)
        0
        rows
        (cleanup_indexed_metadata (lit "k") (lit "user") 5 (λ n. true) 2 rows)
index_batches-IsCompleted_example =
    index_batches-IsCompleted (lit "k") (lit "user") 5 (λ n. true) 2 rows (omega arith)
      few_to_backfill few_to_clean_up
