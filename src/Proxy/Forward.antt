-- ===== src/Proxy/Forward.antt =====
-- What goes upstream and what comes back: copyHeaders, copyResponseHeaders and the target of Forward
-- and ForwardStream, of internal/proxy/upstream.go; AcceptsGzip and ShouldCompress of
-- internal/proxy/compression.go. A header map is as net/http leaves it, each name in its canonical
-- form, so Add does not change the name.
pub mod Laws
use majordomo_gateway.Base.{
  ℕ, Bool, true, false, ◌&&◌, ◌||◌, Option, none, some, List, [], ◌∷◌, ◌++◌, if◌then◌else◌, Str,
  lit, ◌==◌, to_lower, has_prefix, contains, split, Dict, lookup, insert, ltb, is_empty,
}
use majordomo_gateway.Proxy.Headers.{trim_left, trim_right}

-- hopByHopHeaders
unfoldable pub is_hop_by_hop : Str → Bool
unfolding lit ◌==◌
is_hop_by_hop key =
    key == lit "connection"
    || key == lit "keep-alive"
    || key == lit "proxy-authenticate"
    || key == lit "proxy-authorization"
    || key == lit "te"
    || key == lit "trailers"
    || key == lit "transfer-encoding"
    || key == lit "upgrade"
    || key == lit "host"
    || key == lit "content-length"
    || key == lit "accept-encoding"

unfoldable pub skips_request_header : Str → Bool
skips_request_header key =
    let lower_key = to_lower key in
    has_prefix lower_key (lit "x-majordomo") || is_hop_by_hop lower_key

unfoldable pub skips_response_header : Str → Bool
skips_response_header key =
    let lower_key = to_lower key in is_hop_by_hop lower_key || lower_key == lit "content-encoding"

-- dst.Add(key, v)
unfoldable pub add_header : Str → Str → Dict (List Str) → Dict (List Str)
add_header key v dst =
    insert key (elim (lookup key dst) [ none ↦ v ∷ [] | some old ↦ old ++ v ∷ [] ]) dst

-- The inner loop, over the values of a header.
unfoldable pub add_values : Str → List Str → Dict (List Str) → Dict (List Str)
add_values key [] dst = dst
add_values key (v ∷ values) dst = add_values key values (add_header key v dst)

-- The outer loop of both functions.
unfoldable pub copy_unless : (Str → Bool) → Dict (List Str) → Dict (List Str) → Dict (List Str)
copy_unless skips [] dst = dst
copy_unless skips ((key, values) ∷ src) dst =
    let dst' = if skips key then dst else add_values key values dst in copy_unless skips src dst'

unfoldable pub copy_headers : Dict (List Str) → Dict (List Str) → Dict (List Str)
copy_headers src dst = copy_unless skips_request_header src dst

unfoldable pub copy_response_headers : Dict (List Str) → Dict (List Str) → Dict (List Str)
copy_response_headers src dst = copy_unless skips_response_header src dst

unfoldable pub target_url : Str → Str → Str → Str
target_url base_url path raw_query =
    if is_empty raw_query then base_url ++ path else base_url ++ (path ++ (b'?' ∷ raw_query))

-- The loop over the parts of Accept-Encoding.
unfoldable pub any_gzip : List Str → Bool
any_gzip [] = false
any_gzip (encoding ∷ encodings) =
    has_prefix (trim_right (trim_left encoding)) (lit "gzip") || any_gzip encodings

unfoldable pub accepts_gzip : Str → Bool
unfolding any_gzip split
accepts_gzip accept_encoding = any_gzip (split b',' accept_encoding)

unfoldable pub is_compressible_content_type : Str → Bool
is_compressible_content_type content_type =
    let lower_type = to_lower content_type in
    contains lower_type (lit "text/")
    || contains lower_type (lit "application/json")
    || contains lower_type (lit "application/xml")
    || contains lower_type (lit "application/javascript")
    || contains lower_type (lit "application/x-javascript")
    || contains lower_type (lit "application/ld+json")
    || contains lower_type (lit "application/manifest+json")
    || contains lower_type (lit "application/vnd.api+json")

-- MinCompressionSize
abbrev pub min_compression_size : ℕ
min_compression_size = 1024

unfoldable pub should_compress : Str → Str → ℕ → Bool
unfolding accepts_gzip is_compressible_content_type
should_compress accept_encoding content_type body_size =
    if accepts_gzip accept_encoding
    then (if ltb body_size min_compression_size
        then false
        else is_compressible_content_type content_type)
    else false
