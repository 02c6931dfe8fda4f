-- ===== src/Provider/Usage/Lines.antt =====
-- bufio.Scanner as the streaming parsers use it, and isSSEResponse of internal/provider/anthropic.go.
use majordomo_gateway.Base.{
  ℕ, Bool, ◌||◌, List, [], ◌∷◌, if◌then◌else◌, eqb, leb, Str, lit, has_prefix, split, length,
}

-- bufio.MaxScanTokenSize
abbrev pub max_scan_token_size : ℕ
max_scan_token_size = 65536

-- A line without its carriage return.
drop_cr : Str → Str
drop_cr [] = []
drop_cr (c ∷ []) = if eqb c 13 then [] else c ∷ []
drop_cr (c ∷ d ∷ s) = c ∷ drop_cr (d ∷ s)

-- The lines that Scan returns: a line that does not fit the buffer ends the scan, and so does the
-- end of the text, whose last line counts only if it is not empty.
scan_parts : List Str → List Str
scan_parts [] = []
scan_parts (s ∷ []) =
    if eqb (length s) 0
    then []
    else if leb max_scan_token_size (length s)
    then []
    else drop_cr s ∷ []
scan_parts (s ∷ t ∷ parts) =
    let rest = scan_parts (t ∷ parts) in
    if leb max_scan_token_size (length s) then [] else drop_cr s ∷ rest

unfoldable pub scan_lines : Str → List Str
unfolding scan_parts drop_cr
scan_lines body = scan_parts (split b'\n' body)

-- bytes.TrimLeft(body, " \t\r\n")
unfoldable pub trim_space_left : Str → Str
trim_space_left [] = []
trim_space_left (c ∷ s) =
    let rest = trim_space_left s in
    if eqb c 32 || eqb c 9 || eqb c 13 || eqb c 10 then rest else c ∷ s

unfoldable pub is_sse_response : Str → Bool
is_sse_response body =
    let trimmed = trim_space_left body in
    has_prefix trimmed (lit "event:") || has_prefix trimmed (lit "data:")
