-- ===== src/Proxy/Respond.antt =====
-- ServeHTTP of internal/proxy/handler.go from the call of the upstream on: what the client gets.
pub mod Laws
use majordomo_gateway.Base.{
  ℕ, Bool, true, false, not, ◌&&◌, ◌||◌, Option, none, some, List, [], ◌∷◌, ◌++◌, if◌then◌else◌,
  Str, lit, ◌==◌, contains, Dict, ltb, is_empty, length,
}
use majordomo_gateway.Provider.Translate.{is_translation_required}
use majordomo_gateway.Proxy.Exchange.{Outgoing, get_header, set_header}
use majordomo_gateway.Proxy.Forward.{copy_response_headers, should_compress}

pub record Reply : Type 0 where
  pub status : ℕ
  pub headers : Dict (List Str)
  pub body : Str

-- The upstream cannot be reached, its body cannot be read to the end, or it replies. A stream that
-- breaks off is a reply with what has come.
pub data Upstreamed : Type 0 where
  unreachable broke_off : Upstreamed
  replied : Reply → Upstreamed

pub data Answer : Type 0 where
  error_answer : ℕ → Answer
  answered : ℕ → Dict (List Str) → Str → Answer

-- strings.Join(fields, ", ")
unfoldable pub join_fields : List Str → Str
join_fields [] = []
join_fields (f ∷ []) = f
join_fields (f ∷ g ∷ fields) = f ++ (lit ", " ++ join_fields (g ∷ fields))

-- The headers that the stages in front have set on the answer.
unfoldable pub deprecation_headers : Outgoing → Dict (List Str)
unfolding set_header
deprecation_headers o = elim o.redirected [
  | none ↦ []
  | some (model, replacement) ↦
      if o.warned
      then set_header (lit "X-Majordomo-Deprecated-Replacement") replacement
          (set_header (lit "X-Majordomo-Deprecated-Model") model [])
      else []
]

unfoldable pub answer_headers : Outgoing → Dict (List Str)
unfolding deprecation_headers join_fields
answer_headers o = elim o.decision [
  | none ↦ deprecation_headers o
  | some (d, applied) ↦
      let routed =
        set_header (lit "X-Majordomo-Routed-Model") d.provider_model_id
          (set_header (lit "X-Majordomo-Routed-Provider") d.provider (deprecation_headers o)) in
      if is_empty applied
      then routed
      else set_header (lit "X-Majordomo-Routed-Defaults") (join_fields applied) routed
]

-- `translate_back` is TranslateAnthropicToOpenAI, `gzip` GzipCompress; both may fail.
module _ (translate_back gzip : Str → Option Str) where
  unfoldable pub is_stream : Reply → Bool
  is_stream reply =
      let content_type = get_header (lit "Content-Type") reply.headers in
      contains content_type (lit "text/event-stream")
      || contains content_type (lit "vnd.amazon.eventstream")

  -- The body that is answered before it is compressed.
  unfoldable pub plain_body : Outgoing → Reply → Str
  plain_body o reply =
      if is_translation_required o.provider && ltb reply.status 400
      then elim (translate_back reply.body) [ none ↦ reply.body | some translated ↦ translated ]
      else reply.body

  unfoldable pub wants_gzip : Outgoing → Reply → Str → Bool
  wants_gzip o reply body =
      let content_type = get_header (lit "Content-Type") reply.headers in
      not (contains content_type (lit "text/event-stream"))
      && should_compress (get_header (lit "Accept-Encoding") o.headers) content_type (length body)

  unfoldable pub answer_buffered : Outgoing → Reply → Answer
  unfolding plain_body wants_gzip
  answer_buffered o reply =
      let headers = copy_response_headers reply.headers (answer_headers o) in
      let body = plain_body o reply in
      if wants_gzip o reply body
      then elim (gzip body) [
        | none ↦ answered reply.status headers body
        | some compressed ↦
            answered reply.status
              (set_header (lit "Vary") (lit "Accept-Encoding")
                (set_header (lit "Content-Encoding") (lit "gzip") headers))
              compressed
      ]
      else answered reply.status headers body

  -- A stream is relayed as it comes, unless the reply has to be translated.
  unfoldable pub respond : Outgoing → Upstreamed → Answer
  unfolding answer_buffered is_stream
  respond o unreachable = error_answer 502
  respond o broke_off = error_answer 502
  respond o (replied reply) =
      if not (is_translation_required o.provider) && is_stream reply
      then answered reply.status (copy_response_headers reply.headers (answer_headers o)) reply.body
      else answer_buffered o reply
