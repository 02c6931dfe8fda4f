-- ===== src/Proxy/Region.antt =====
-- The AWS region of a Bedrock request, of internal/proxy/handler.go.
pub mod Hosts
pub mod Laws
use majordomo_gateway.Base.{
  Bool, true, false, ◌&&◌, ◌||◌, Option, none, some, List, [], ◌∷◌, if◌then◌else◌, Str, lit, ◌==◌,
  has_prefix, has_suffix, drop, take, length, ltb, leb, eqb, ℕ, ◌-◌, ◌+◌, is_empty, ◌≡◌, arith,
}

-- The loop over the bytes; every byte of a letter outside ASCII is refused, as its rune is.
unfoldable pub is_region_byte : ℕ → Bool
is_region_byte r = leb b'a' r && leb r b'z' || leb b'0' r && leb r b'9' || eqb r b'-'

unfoldable pub all_region_bytes : Str → Bool
unfolding is_region_byte
all_region_bytes [] = true
all_region_bytes (r ∷ s) = is_region_byte r && all_region_bytes s

unfoldable pub is_valid_aws_region : Str → Bool
unfolding all_region_bytes
is_valid_aws_region s = if is_empty s then false else all_region_bytes s

-- host[:i] for the first ':' of the host, or the host.
unfoldable pub before_colon : Str → Str
before_colon [] = []
before_colon (c ∷ s) = let rest = before_colon s in if eqb c b':' then [] else c ∷ rest

unfoldable pub bedrock_prefix : Str
unfolding lit
bedrock_prefix = lit "bedrock-runtime."

unfoldable pub bedrock_suffix : Str
unfolding lit
bedrock_suffix = lit ".amazonaws.com"

-- host[len(prefix) : len(host)-len(suffix)] panics where the bounds cross.
pub data Region : Type 0 where
  region : Str → Region
  no_region region_panics : Region

unfoldable pub region_if_valid : Str → Region
unfolding is_valid_aws_region
region_if_valid r = if is_valid_aws_region r then region r else no_region

unfoldable pub slice_region : Str → Region
unfolding bedrock_prefix bedrock_suffix region_if_valid
slice_region host =
    let high = length host - length bedrock_suffix in
    if ltb high (length bedrock_prefix)
    then region_panics
    else region_if_valid (drop (length bedrock_prefix) (take high host))

unfoldable pub parse_bedrock_region_from_host : Str → Region
unfolding before_colon slice_region has_prefix has_suffix
parse_bedrock_region_from_host full =
    let host = before_colon full in
    if has_prefix host bedrock_prefix && has_suffix host bedrock_suffix
    then slice_region host
    else no_region

-- `header` is the value of X-Majordomo-Bedrock-Region, empty where it is not sent.
unfoldable pub resolve_bedrock_region : Str → Str → Region
unfolding parse_bedrock_region_from_host
resolve_bedrock_region header host =
    if is_empty header then parse_bedrock_region_from_host host else region_if_valid header
