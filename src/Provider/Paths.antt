-- ===== src/Provider/Paths.antt =====
-- The path functions of internal/provider/provider.go: NormalizeOpenAIPath,
-- StripOpenAIVersionPrefix, BaseURLHasVersionSegment.
use majordomo_gateway.Base.{
  ◌≡◌, refl, Bool, true, false, ◌||◌, List, [], ◌∷◌, ◌++◌, arith, if◌then◌else◌, Bool-cases, inl,
  inr, Str, lit, ◌==◌, has_prefix, trim_prefix, Dict, none, lookup, eq_iff, has_prefix_self,
  has_prefix_of_append,
}
use majordomo_gateway.Provider.Names.{openai, gemini_openai}
use majordomo_gateway.Provider.Detect.{detect, detect_from_path}

abbrev pub open_ai_path_suffixes : List Str
open_ai_path_suffixes =
    lit "/chat/completions" ∷ lit "/completions" ∷ lit "/embeddings" ∷ lit "/responses" ∷ []

-- The path is the route itself, or lies below it.
unfoldable pub is_route : Str → Str → Bool
is_route route path = path == route || has_prefix path (route ++ lit "/")

-- The loops stop at the first suffix that fits.
normalize_from : List Str → Str → Str
normalize_from [] path = path
normalize_from (suffix ∷ suffixes) path =
    let rest = normalize_from suffixes path in
    if is_route suffix path then lit "/v1" ++ path else rest

unfoldable pub normalize_open_ai_path : Str → Str
unfolding normalize_from is_route
normalize_open_ai_path path = normalize_from open_ai_path_suffixes path

strip_from : List Str → Str → Str
strip_from [] path = path
strip_from (suffix ∷ suffixes) path =
    let rest = strip_from suffixes path in
    if is_route (lit "/v1" ++ suffix) path then trim_prefix path (lit "/v1") else rest

unfoldable pub strip_open_ai_version_prefix : Str → Str
unfolding strip_from is_route trim_prefix
strip_open_ai_version_prefix path = strip_from open_ai_path_suffixes path

unfoldable pub base_url_has_version_segment : Str → Bool
base_url_has_version_segment p = p == gemini_openai

-- Some OpenAI route without its version.
unfoldable pub is_bare_route : List Str → Str → Bool
is_bare_route [] path = false
is_bare_route (suffix ∷ suffixes) path = is_route suffix path || is_bare_route suffixes path

normalize_from_lem :
    (suffixes : List Str) (path : Str)
    → normalize_from suffixes path
      ≡ (if is_bare_route suffixes path then lit "/v1" ++ path else path)
unfolding normalize_from is_bare_route
normalize_from_lem [] path = refl
normalize_from_lem (suffix ∷ suffixes) path = ground (arith, normalize_from_lem suffixes path)

is_route_v1 :
    (route path : Str) → is_route (lit "/v1" ++ route) (lit "/v1" ++ path) ≡ is_route route path
unfolding is_route lit ◌==◌ has_prefix
is_route_v1 route path = refl

strip_from_v1 :
    (suffixes : List Str) (path : Str)
    → strip_from suffixes (lit "/v1" ++ path)
      ≡ (if is_bare_route suffixes path then path else lit "/v1" ++ path)
unfolding strip_from is_bare_route trim_prefix lit
strip_from_v1 [] path = refl
strip_from_v1 (suffix ∷ suffixes) path =
    ground (arith, is_route_v1 suffix path, strip_from_v1 suffixes path)

bare_of_v1 : (path : Str) → is_bare_route open_ai_path_suffixes (lit "/v1" ++ path) ≡ false
unfolding is_bare_route is_route lit ◌==◌ has_prefix
bare_of_v1 path = refl

-- The two functions undo one another on the OpenAI routes: stripping the normalised form of a route
-- gives the route back, and normalising the stripped form of a versioned route gives that back.
strip-normalize :
    (path : Str)
    → is_bare_route open_ai_path_suffixes path ≡ true
    → (strip_open_ai_version_prefix (normalize_open_ai_path path) ≡ path)
      × (normalize_open_ai_path (strip_open_ai_version_prefix (lit "/v1" ++ path))
          ≡ lit "/v1" ++ path)
unfolding normalize_open_ai_path strip_open_ai_version_prefix
strip-normalize path h =
    ground (
      arith,
      normalize_from_lem open_ai_path_suffixes path,
      strip_from_v1 open_ai_path_suffixes path,
    )

-- Normalising twice is normalising once, for every path.
normalize_idempotent :
    (path : Str)
    → normalize_open_ai_path (normalize_open_ai_path path) ≡ normalize_open_ai_path path
unfolding normalize_open_ai_path
normalize_idempotent path = ground (
  arith,
  normalize_from_lem open_ai_path_suffixes path,
  normalize_from_lem open_ai_path_suffixes (lit "/v1" ++ path),
  bare_of_v1 path,
)

is_route-has_prefix :
    (suffix path : Str) → is_route suffix path ≡ true → has_prefix path suffix ≡ true
unfolding is_route
is_route-has_prefix suffix path h = elim (Bool-cases (path == suffix)) [
  | inl e ↦ rw ((eq_iff path suffix).0 e) (has_prefix_self suffix)
  | inr e ↦ has_prefix_of_append path suffix (lit "/") (ground arith)
]

-- The prefixes that detectFromPath tests, seen behind the version.
v1_prefixes :
    (path : Str)
    → (has_prefix (lit "/v1" ++ path) (lit "/v1/chat/completions")
        ≡ has_prefix path (lit "/chat/completions"))
      × (has_prefix (lit "/v1" ++ path) (lit "/v1/completions")
          ≡ has_prefix path (lit "/completions"))
      × (has_prefix (lit "/v1" ++ path) (lit "/v1/embeddings")
          ≡ has_prefix path (lit "/embeddings"))
      × (has_prefix (lit "/v1" ++ path) (lit "/v1/responses") ≡ has_prefix path (lit "/responses"))
unfolding lit has_prefix
v1_prefixes path = (refl, refl, refl, refl)

-- A request for an OpenAI route, with its version or without, and without the provider header, is
-- for OpenAI.
detect-normalize :
    (path : Str) (headers : Dict Str)
    → is_bare_route open_ai_path_suffixes path ≡ true
    → lookup (lit "x-majordomo-provider") headers ≡ none
    → (detect (normalize_open_ai_path path) headers).provider ≡ openai
unfolding normalize_open_ai_path detect detect_from_path is_bare_route
detect-normalize path headers h e =
    rw (e, detect)
      (ground (
        arith,
        normalize_from_lem open_ai_path_suffixes path,
        v1_prefixes path,
        is_route-has_prefix (lit "/chat/completions") path,
        is_route-has_prefix (lit "/completions") path,
        is_route-has_prefix (lit "/embeddings") path,
        is_route-has_prefix (lit "/responses") path,
      ))
