-- ===== src/Usage/Tree.antt =====
-- The waterfall of a run: GetRunTree, assembleRunTree and rollUpRunNode of
-- internal/repositories/usage.go. A node stands at an address of a store, which is its place in the
-- order of creation.
pub mod Paths
pub mod Growth
pub mod Build
pub mod Places
pub mod Refs
pub mod Ensure
pub mod Rows
pub mod Laws
use majordomo_gateway.Base.{
  ℕ, zero, suc, ◌+◌, Bool, true, false, Option, none, some, List, [], ◌∷◌, ◌++◌, if◌then◌else◌, Str,
  lit, Dict, lookup, insert, Float, ltb, add_int, length, take, ◌>>=◌,
}
use majordomo_gateway.Proxy.Spans.{split_path, canonical_path, ancestor_paths}

abbrev pub run_tree_fetch_cap : ℕ
run_tree_fetch_cap = 5000

abbrev pub max_span_depth : ℕ
max_span_depth = 64

-- runLeafRow; a time is a number of a clock.
pub record RunLeafRow (R : Type 0) : Type 0 where
  pub id : Str
  pub span_id : Option Str
  pub parent_span_id : Option Str
  pub span_path : Str
  pub span_name : Str
  pub provider : Str
  pub model : Str
  pub requested_at : ℕ
  pub responded_at : ℕ
  pub response_time_ms : ℕ
  pub status_code : ℕ
  pub total_cost : R

-- The call of a leaf: the fields of RunNode from RequestID to StatusCode.
pub record RunCall : Type 0 where
  pub request_id : Str
  pub provider : Str
  pub model : Str
  pub requested_at : ℕ
  pub responded_at : ℕ
  pub response_time_ms : ℕ
  pub status_code : ℕ

pub data RunNodeKind : Type 0 where
  run step llm : RunNodeKind

-- The children are addresses.
pub record RunNode (R : Type 0) : Type 0 where
  pub span_id : Str
  pub parent_span_id : Option Str
  pub name : Str
  pub path : Str
  pub kind : RunNodeKind
  pub call : Option RunCall
  pub self_cost : R
  pub total_cost : R
  pub request_count : ℕ
  pub children : List ℕ

-- A pointer to an interior node, with the two fields of it that are read and never change.
pub record Ref : Type 0 where
  pub address : ℕ
  pub span_id : Str
  pub path : Str

-- The nodes that were made, and the map `nodes` of the interior ones by their path.
pub record Forest (R : Type 0) : Type 0 where
  pub store : List (RunNode R)
  pub nodes : Dict Ref

pub record RunTree (R : Type 0) : Type 0 where
  pub trace_id : Str
  pub root : RunNode R
  pub store : List (RunNode R)
  pub total_cost : R
  pub request_count : ℕ
  pub started_at : ℕ
  pub ended_at : ℕ
  pub truncated : Bool

abbrev pub get_elem? {ℓ} : {A : Type ℓ} → List A → ℕ → Option A
get_elem? [] i = none
get_elem? (x ∷ xs) zero = some x
get_elem? (x ∷ xs) (suc i) = get_elem? xs i

-- segments[len(segments)-1], which panics where there is none
unfoldable pub last_segment : List Str → Option Str
last_segment [] = none
last_segment (s ∷ []) = some s
last_segment (s ∷ t ∷ segments) = last_segment (t ∷ segments)

unfoldable pub run_label : {R : Type 0} → RunLeafRow R → Str
unfolding split_path
run_label row = elim (split_path row.span_path) [ [] ↦ row.span_name | ◌∷◌ s segments ↦ s ]

module _ {R : Type 0} where
  -- parent.Children = append(parent.Children, child)
  unfoldable pub append_child : ℕ → ℕ → List (RunNode R) → List (RunNode R)
  append_child parent child [] = []
  append_child zero child (n ∷ store) = record n { children = n.children ++ child ∷ [] } ∷ store
  append_child (suc parent) child (n ∷ store) = n ∷ append_child parent child store

  -- A node is made, and hung below its parent.
  unfoldable pub add_node : ℕ → RunNode R → List (RunNode R) → List (RunNode R)
  unfolding append_child
  add_node parent n store = append_child parent (length store) store ++ n ∷ []

module _ (F : Float) (interior_span_id : Str → Str → Str) where
  open F use {R}

  -- An interior node, which has no call and no cost of its own.
  unfoldable pub interior : RunNodeKind → Str → Option Str → Str → Str → RunNode R
  interior kind span_id parent_span_id name path = record {
    span_id = span_id;
    parent_span_id = parent_span_id;
    name = name;
    path = path;
    kind = kind;
    call = none;
    self_cost = F.of_int 0;
    total_cost = F.of_int 0;
    request_count = 0;
    children = [];
  }

  -- The loop of ensurePath over the prefixes; `none` is a panic.
  unfoldable pub ensure_prefixes : Str → Ref → List Str → Forest R → Option (Ref × Forest R)
  unfolding interior add_node
  ensure_prefixes trace_id parent [] f = some (parent, f)
  ensure_prefixes trace_id parent (prefix ∷ prefixes) f = elim (lookup prefix f.nodes) [
    | some existing ↦ ensure_prefixes trace_id existing prefixes f
    | none ↦ elim (last_segment (split_path prefix)) [
      | none ↦ none
      | some name ↦
          let span_id = interior_span_id trace_id prefix in
          let ref : Ref = record { address = length f.store; span_id = span_id; path = prefix } in
          ensure_prefixes trace_id ref prefixes (record {
            store =
                add_node parent.address (interior step span_id (some (parent.span_id)) name prefix)
                  f.store;
            nodes = insert prefix ref f.nodes;
          })
    ]
  ]

  unfoldable pub ensure_path : Str → Ref → Str → Forest R → Option (Ref × Forest R)
  unfolding ensure_prefixes
  ensure_path trace_id root path f = elim (lookup path f.nodes) [
    | some n ↦ some (n, f)
    | none ↦ ensure_prefixes trace_id root (take max_span_depth (ancestor_paths path)) f
  ]

  unfoldable pub leaf_of : RunLeafRow R → Ref → RunNode R
  leaf_of row parent = record {
    span_id = elim row.span_id [ none ↦ row.id | some id ↦ id ];
    parent_span_id = some (parent.span_id);
    name = row.span_name;
    path = parent.path;
    kind = llm;
    call = some (record {
      request_id = row.id;
      provider = row.provider;
      model = row.model;
      requested_at = row.requested_at;
      responded_at = row.responded_at;
      response_time_ms = row.response_time_ms;
      status_code = row.status_code;
    });
    self_cost = row.total_cost;
    total_cost = row.total_cost;
    request_count = 1;
    children = [];
  }

  -- The loop over the rows: the forest, and the time of the last response.
  unfoldable pub add_rows : Str → Ref → List (RunLeafRow R) → Forest R → ℕ → Option (Forest R × ℕ)
  unfolding ensure_path leaf_of add_node
  add_rows trace_id root [] f ended_at = some (f, ended_at)
  add_rows trace_id root (row ∷ rows) f ended_at =
      elim (ensure_path trace_id root (canonical_path row.span_path) f) [
        | none ↦ none
        | some (parent, g) ↦
            add_rows trace_id root rows
              (record g { store = add_node parent.address (leaf_of row parent) g.store })
              (if ltb ended_at row.responded_at then row.responded_at else ended_at)
      ]

  -- What rollUpRunNode leaves in the node `n`, given what it leaves in each of the children.
  unfoldable pub roll_children : (ℕ → Option (RunNode R)) → List ℕ → RunNode R → Option (RunNode R)
  roll_children roll [] n = some n
  roll_children roll (c ∷ children) n = elim (roll c) [
    | none ↦ none
    | some child ↦ roll_children roll children (record n {
      total_cost = F.add n.total_cost child.total_cost;
      request_count = add_int n.request_count child.request_count;
    })
  ]

  -- The node at an address behind rollUpRunNode. `none` is a dangling address, or no fuel left.
  unfoldable pub roll_up_run_node : ℕ → List (RunNode R) → ℕ → Option (RunNode R)
  unfolding roll_children
  roll_up_run_node zero store i = none
  roll_up_run_node (suc fuel) store i = elim (get_elem? store i) [
    | none ↦ none
    | some n ↦ roll_children (roll_up_run_node fuel store) n.children n
  ]

  unfoldable pub root_ref : Str → Ref
  root_ref trace_id = record { address = 0; span_id = interior_span_id trace_id []; path = [] }

  unfoldable pub start_forest : Str → RunLeafRow R → Forest R
  unfolding root_ref interior
  start_forest trace_id first = record {
    store = interior run (root_ref trace_id).span_id none (run_label first) [] ∷ [];
    nodes = ([], root_ref trace_id) ∷ [];
  }

  -- `none` is a panic: there is no first row.
  unfoldable pub assemble_run_tree : Str → List (RunLeafRow R) → Bool → Option (RunTree R)
  unfolding start_forest add_rows roll_up_run_node root_ref
  assemble_run_tree trace_id [] truncated = none
  assemble_run_tree trace_id (first ∷ rest) truncated = do
    (f, ended_at) ←
        add_rows trace_id (root_ref trace_id) (first ∷ rest) (start_forest trace_id first)
          first.responded_at
    root ← roll_up_run_node (length f.store) f.store 0
    some (record {
      trace_id = trace_id;
      root = root;
      store = f.store;
      total_cost = root.total_cost;
      request_count = root.request_count;
      started_at = first.requested_at;
      ended_at = ended_at;
      truncated = truncated;
    })

  -- What GetRunTree ends in. `fetch` is the query, which is given the limit.
  pub data RunTreeAnswer : Type 0 where
    fetch_failed no_such_run crashed : RunTreeAnswer
    assembled : RunTree R → RunTreeAnswer

  unfoldable pub assembled_or_crashed : Option (RunTree R) → RunTreeAnswer
  assembled_or_crashed none = crashed
  assembled_or_crashed (some t) = assembled t

  unfoldable pub get_run_tree : (Str → ℕ → Option (List (RunLeafRow R))) → Str → RunTreeAnswer
  unfolding assemble_run_tree assembled_or_crashed
  get_run_tree fetch trace_id = elim (fetch trace_id (run_tree_fetch_cap + 1)) [
    | none ↦ fetch_failed
    | some rows ↦ elim rows [
      | [] ↦ no_such_run
      | ◌∷◌ first rest ↦
          if ltb run_tree_fetch_cap (length (first ∷ rest))
          then assembled_or_crashed
              (assemble_run_tree trace_id (take run_tree_fetch_cap (first ∷ rest)) true)
          else assembled_or_crashed (assemble_run_tree trace_id (first ∷ rest) false)
    ]
  ]
