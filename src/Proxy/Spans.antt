-- ===== src/Proxy/Spans.antt =====
-- SplitPath, CanonicalPath and AncestorPaths of internal/spanid/spanid.go.
pub mod Laws
use majordomo_gateway.Base.{
  ℕ, suc, Bool, List, [], ◌∷◌, if◌then◌else◌, Str, is_empty, take, join, split,
}

-- pathSeparator, which is one byte
abbrev pub path_separator : ℕ
path_separator = b'/'

-- The loop that keeps the parts that are not empty.
unfoldable pub nonempty_segments : List Str → List Str
nonempty_segments [] = []
nonempty_segments (s ∷ raw) =
    let rest = nonempty_segments raw in if is_empty s then rest else s ∷ rest

unfoldable pub split_path : Str → List Str
unfolding nonempty_segments split
split_path path = if is_empty path then [] else nonempty_segments (split path_separator path)

unfoldable pub canonical_path : Str → Str
unfolding split_path join
canonical_path path = join path_separator (split_path path)

-- The loop over the indices of `segments`; the last argument is what is left to visit.
unfoldable pub prefixes_from : List Str → ℕ → List Str → List Str
unfolding join
prefixes_from segments i [] = []
prefixes_from segments i (s ∷ rest) =
    join path_separator (take (suc i) segments) ∷ prefixes_from segments (suc i) rest

unfoldable pub ancestor_paths : Str → List Str
unfolding split_path prefixes_from
ancestor_paths path = let segments = split_path path in prefixes_from segments 0 segments
