-- ===== src/Provider/Names.antt =====
-- The provider constants of internal/provider/provider.go; a provider is a string.
use majordomo_gateway.Base.{Str, lit, Bool, ◌||◌, ◌==◌, to_lower}

unfoldable pub openai : Str
unfolding lit
openai = lit "openai"

unfoldable pub anthropic : Str
unfolding lit
anthropic = lit "anthropic"

unfoldable pub gemini : Str
unfolding lit
gemini = lit "gemini"

unfoldable pub gemini_openai : Str
unfolding lit
gemini_openai = lit "gemini-openai"

unfoldable pub anthropic_openai : Str
unfolding lit
anthropic_openai = lit "anthropic-openai"

unfoldable pub azure : Str
unfolding lit
azure = lit "azure"

unfoldable pub bedrock : Str
unfolding lit
bedrock = lit "bedrock"

unfoldable pub fireworks : Str
unfolding lit
fireworks = lit "fireworks"

unfoldable pub together : Str
unfolding lit
together = lit "together"

unfoldable pub baseten : Str
unfolding lit
baseten = lit "baseten"

unfoldable pub bedrock_mantle : Str
unfolding lit
bedrock_mantle = lit "bedrock-mantle"

-- The routing opt-in; never an upstream.
unfoldable pub majordomo : Str
unfolding lit
majordomo = lit "majordomo"

unfoldable pub unknown : Str
unfolding lit
unknown = lit "unknown"

-- IsCredentialProvider
unfoldable pub is_credential_provider : Str → Bool
unfolding openai anthropic gemini fireworks together baseten to_lower ◌==◌
is_credential_provider name =
    let p = to_lower name in
    p == openai || p == anthropic || p == gemini || p == fireworks || p == together || p == baseten

-- The provider names, for a proof that compares them.
unfoldable pub names : Unit {0}
unfolding openai anthropic gemini gemini_openai anthropic_openai azure bedrock fireworks together
    baseten bedrock_mantle majordomo unknown
names = tt
