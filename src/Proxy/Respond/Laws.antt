-- ===== src/Proxy/Respond/Laws.antt =====
-- What an answer has of the upstream's reply.
use majordomo_gateway.Base.{
  ℕ, [], ap, sym, not, ◌<◌, ◌≤◌, ltb, none, Option-cases, ◌&&◌, true, false, refl, ◌≡◌, ◌⊎◌, inl,
  inr, arith, Option, some, List, Dict, Str, lit, Bool-cases, contains, ℕ,
}
use majordomo_gateway.Proxy.Forward.{should_compress, accepts_gzip}
use majordomo_gateway.Proxy.Respond.{
  error_answer, Reply, Upstreamed, unreachable, broke_off, replied, Answer, answered, plain_body,
  wants_gzip, is_stream, answer_buffered, respond, Outgoing, should_compress,
  is_translation_required, get_header,
}

status_of : Answer → ℕ
status_of (error_answer status) = status
status_of (answered status headers body) = status

body_of : Answer → Str
body_of (error_answer status) = []
body_of (answered status headers body) = body

answered_injective :
    {s s' : ℕ} {hs hs' : Dict (List Str)} {b b' : Str}
    → answered s hs b ≡ answered s' hs' b'
    → (s ≡ s') × (b ≡ b')
unfolding status_of body_of
answered_injective h = (ap status_of h, ap body_of h)

module _ (translate_back gzip : Str → Option Str) where
  answer_buffered-answered :
      (o : Outgoing) (reply : Reply) (status : ℕ) (headers : Dict (List Str)) (body : Str)
      → answer_buffered translate_back gzip o reply ≡ answered status headers body
      → (status ≡ reply.status)
        × ((body ≡ plain_body translate_back gzip o reply)
            ⊎ ((gzip (plain_body translate_back gzip o reply) ≡ some body)
                × (wants_gzip translate_back gzip o reply (plain_body translate_back gzip o reply)
                    ≡ true)))
  unfolding answer_buffered
  answer_buffered-answered o reply status headers body h = ground arith

  wants_gzip-accepts_gzip :
      (o : Outgoing) (reply : Reply) (body : Str)
      → wants_gzip translate_back gzip o reply body ≡ true
      → (accepts_gzip (get_header (lit "Accept-Encoding") o.headers) ≡ true)
        × (contains (get_header (lit "Content-Type") reply.headers) (lit "text/event-stream")
            ≡ false)
  unfolding wants_gzip should_compress
  wants_gzip-accepts_gzip o reply body h = ground arith

  -- The reply's body as the client is to have it: translated, or, for one of three causes, as it came.
  pub data IsPlain (o : Outgoing) (reply : Reply) : Str → Type 0 where
    translated :
        {t : Str}
        → is_translation_required o.provider ≡ true
        → reply.status < 400
        → translate_back reply.body ≡ some t
        → IsPlain o reply t
    same_format : is_translation_required o.provider ≡ false → IsPlain o reply reply.body
    is_error : 400 ≤ reply.status → IsPlain o reply reply.body
    unreadable : translate_back reply.body ≡ none → IsPlain o reply reply.body

  plain_body-IsPlain :
      (o : Outgoing) (reply : Reply) → IsPlain o reply (plain_body translate_back gzip o reply)
  unfolding plain_body
  plain_body-IsPlain o reply = elim (Bool-cases (is_translation_required o.provider)) [
    | inr e ↦ rw e (same_format e)
    | inl needed ↦ elim (Bool-cases (ltb reply.status 400)) [
      | inr error ↦ rw (needed, error) (is_error (ground (arith, error)))
      | inl fine ↦ elim (Option-cases (translate_back reply.body)) [
        | inl e ↦ rw (needed, fine, e) (unreadable e)
        | inr (t, e) ↦ rw (needed, fine, e) (translated needed (ground (arith, fine)) e)
      ]
    ]
  ]

  -- Where a request is answered with no error of the gateway's own, the upstream replied, the status
  -- is the reply's, and the body is either the plain one or this compressed, if the client accepts that
  -- and the reply is no stream of server-sent events. The plain body is the reply's, translated back
  -- where the provider needs it, the status is below 400 and the translation succeeds, and otherwise
  -- as it came.
  pub respond-answered :
      (o : Outgoing) (u : Upstreamed) (status : ℕ) (headers : Dict (List Str)) (body : Str)
      → respond translate_back gzip o u ≡ answered status headers body
      → (reply : Reply) × (plain : Str) × (u ≡ replied reply)
        × (status ≡ reply.status)
        × IsPlain o reply plain
        × ((body ≡ plain)
            ⊎ ((gzip plain ≡ some body)
                × (accepts_gzip (get_header (lit "Accept-Encoding") o.headers) ≡ true)
                × (contains
                      (get_header (lit "Content-Type") reply.headers)
                      (lit "text/event-stream")
                    ≡ false)))
  unfolding respond
  respond-answered o unreachable status headers body h = cc
  respond-answered o broke_off status headers body h = cc
  respond-answered o (replied reply) status headers body h =
      let plain = plain_body translate_back gzip o reply in
      elim (Bool-cases
        (not (is_translation_required o.provider) && is_stream translate_back gzip reply)) [
          | inl e ↦
              let (same, same_body) = answered_injective (rw (respond, e) at h) in
              let untranslated : is_translation_required o.provider ≡ false = ground (arith, e) in
              (reply, reply.body, refl, sym same, same_format untranslated, inl (sym same_body))
          | inr e ↦
              let (same, bodies) =
                answer_buffered-answered o reply status headers body (rw (respond, e) at h) in
              (
                reply,
                plain,
                refl,
                same,
                plain_body-IsPlain o reply,
                elim bodies [
                  | inl b ↦ inl b
                  | inr (b, w) ↦
                      let (a, t) = wants_gzip-accepts_gzip o reply plain w in inr (b, a, t)
                ],
              )
        ]
