-- ===== src/Tests/Metadata.antt =====
-- The counts of metadata keys at concrete inputs: a sketch is the list of its values.
use majordomo_gateway.Base.{◌+◌, ◌%◌, int_mod, ◌≡◌, some, List, [], ◌∷◌, lit, Str}
use majordomo_gateway.Metadata.{HllKey, Sketches, exec_failed, no_row, row_updated}
use majordomo_gateway.Metadata.Laws.{
  Op, counts, flushes, run, added, pending, requests, run_lost, run-counts,
}

abbrev pub lists : Sketches
lists = record {
  S = List Str;
  fresh = [];
  insert_value = λ v s. v ∷ s;
  marshal = λ s. some [];
  unmarshal = λ b. some [];
  estimate = λ s. 1;
}

abbrev key : HllKey
key = record { api_key_id = lit "i"; key_name = lit "user" }

abbrev ops : List (Op lists)
ops =
    counts key (lit "a")
    ∷ flushes (λ u. row_updated)
    ∷ counts key (lit "b")
    ∷ flushes (λ u. exec_failed)
    ∷ counts key (lit "c")
    ∷ flushes (λ u. no_row)
    ∷ []

run-counts_example :
    (added lists key (run lists [] [] ops).1
        + pending lists key (run lists [] [] ops).0
        + run_lost lists key [] ops)
      % int_mod
    ≡ (added lists key [] + pending lists key [] + requests lists key ops) % int_mod
run-counts_example = run-counts lists key [] [] ops
