-- ===== src/Logs/Record/Laws.antt =====
-- What a log says of its request.
use majordomo_gateway.Base.{
  ℕ, ◌≤◌, ◌≡◌, ◌≢◌, ◌↔◌, refl, sym, ap, ◌∙◌, Bool, true, false, Bool-cases, inl, inr, Option,
  Option-cases, none, some, arith, Str, lit, eq_iff, is_empty, leb, take, length, length-take-le,
  Float, some_injective, option_clash,
}
use majordomo_gateway.Models.{UsageMetrics}
use majordomo_gateway.Pricing.Types.{Service}
use majordomo_gateway.Pricing.Cost.{calculate}
use majordomo_gateway.Provider.Names.{bedrock}
use majordomo_gateway.Provider.Parser.{get_parser, extract_model, extract_model_from_request}
use majordomo_gateway.Logs.Types.{RequestLog}
use majordomo_gateway.Logs.Record.{
  Exchanged, LogCalls, BodyPayload, error_message, generate_key, logged_model, logged_metrics,
  parsed_metrics, log_of, payload_of, archive_bodies, log_request,
}

under : (n : ℕ) → 400 ≤ n → leb 400 n ≡ false → ⊥
under n h e = ground arith

error_message_lem :
    (status : ℕ) (body : Str)
    → ((error_message status body ≢ none) ↔ (400 ≤ status))
      × ((m : Str) → error_message status body ≡ some m → (m ≡ take 500 body) × (length m ≤ 500))
unfolding error_message
error_message_lem status body = elim (Bool-cases (leb 400 status)) [
  | inl e ↦ rw e (
    (λ h. ground arith, λ h k. option_clash (sym k)),
    λ m h. (
      sym (some_injective h),
      omega (arith, ap length (some_injective h), length-take-le 500 body),
    ),
  )
  | inr e ↦
      rw e ((λ h. absurd (h refl), λ h. absurd (under status h e)), λ m h. absurd (option_clash h))
]

extract_model_some :
    (model_of : Str → Option Str) (p body : Str)
    → p ≢ bedrock
    → is_empty (extract_model model_of (get_parser p) body) ≡ false
unfolding extract_model extract_model_from_request get_parser lit
extract_model_some model_of p body h = ground (arith, eq_iff p bedrock)

logged_model_some :
    (calls : LogCalls) (e : Exchanged) (model : Str)
    → e.provider ≢ bedrock
    → is_empty (logged_model calls e model) ≡ false
unfolding logged_model
logged_model_some calls e model h = ground (
  arith,
  extract_model_some calls.model_of e.provider e.request_body h,
  eq_iff e.provider bedrock,
)

module _ (F : Float) (calls : LogCalls) (s : Service F.R) where
  open F use {R}

  -- What the parser for the provider makes of the response, and a number of it, 0 where it fails.
  abbrev pub parsed : Exchanged → Option UsageMetrics
  parsed e = calls.parse_response (get_parser e.provider) e.response_body

  abbrev pub count_of : (UsageMetrics → ℕ) → Option UsageMetrics → ℕ
  count_of column response = elim response [ none ↦ 0 | some m ↦ column m ]

  -- The usage that a log tells of, as Calculate takes it.
  abbrev pub usage_of : ℕ → RequestLog R → UsageMetrics
  usage_of response_time log = record {
    provider = log.provider;
    model = log.model;
    input_tokens = log.input_tokens;
    output_tokens = log.output_tokens;
    cached_tokens = log.cached_tokens;
    cache_creation_tokens = log.cache_creation_tokens;
    cache_creation_5m_tokens = log.cache_creation_5m_tokens;
    cache_creation_1h_tokens = log.cache_creation_1h_tokens;
    response_time = response_time;
  }

  -- What a log says: which provider and model it is about, at which price, and what became of the body.
  pub record IsLogged (store : Option (Str → BodyPayload → Bool)) (e : Exchanged)
      (log : RequestLog R) : Type 0 where
    -- the upstream's provider, and a model, which only a Bedrock request can lack
    pub provider : log.provider ≡ e.provider
    pub status : log.status_code ≡ e.status
    pub model : e.provider ≢ bedrock → is_empty log.model ≡ false
    pub model_of_response :
        (m : UsageMetrics) → parsed e ≡ some m → is_empty m.model ≡ false → log.model ≡ m.model
    -- the tokens of the response
    pub input : log.input_tokens ≡ count_of (λ m. m.input_tokens) (parsed e)
    pub output : log.output_tokens ≡ count_of (λ m. m.output_tokens) (parsed e)
    pub cached : log.cached_tokens ≡ count_of (λ m. m.cached_tokens) (parsed e)
    pub creation : log.cache_creation_tokens ≡ count_of (λ m. m.cache_creation_tokens) (parsed e)
    pub creation_5m :
        log.cache_creation_5m_tokens ≡ count_of (λ m. m.cache_creation_5m_tokens) (parsed e)
    pub creation_1h :
        log.cache_creation_1h_tokens ≡ count_of (λ m. m.cache_creation_1h_tokens) (parsed e)
    -- the costs are those of the logged tokens, at the price that this provider has for this model
    pub input_cost : log.input_cost ≡ (calculate F s (usage_of e.response_time log)).input_cost
    pub cached_cost : log.cached_cost ≡ (calculate F s (usage_of e.response_time log)).cached_cost
    pub cache_creation_cost :
        log.cache_creation_cost ≡ (calculate F s (usage_of e.response_time log)).cache_creation_cost
    pub output_cost : log.output_cost ≡ (calculate F s (usage_of e.response_time log)).output_cost
    pub total_cost : log.total_cost ≡ (calculate F s (usage_of e.response_time log)).total_cost
    -- an error message is there where the status is one of an error: the response's first 500 bytes
    pub failed : (log.error_message ≢ none) ↔ (400 ≤ e.status)
    pub short :
        (m : Str) → log.error_message ≡ some m → (m ≡ take 500 e.response_body) × (length m ≤ 500)
    -- an object is recorded where the store took it
    pub archived :
        (key : Str)
        → log.body_s3_key ≡ some key
        → (upload : Str → BodyPayload → Bool) × (store ≡ some upload)
          × (upload key (payload_of F calls e) ≡ true)
    -- the decision of the router is recorded where there is one, and is that one
    pub routed : log.routed_provider ≡ elim e.decision [ none ↦ none | some d ↦ some (d.provider) ]
    pub reason :
        log.routing_reason
        ≡ elim e.decision [ none ↦ none | some d ↦ some (calls.reason_text d.reason) ]

  count_of-parsed_metrics :
      (column : UsageMetrics → ℕ) (e : Exchanged)
      → ((p m : Str)
          → column (record {
            provider = p;
            model = m;
            input_tokens = 0;
            output_tokens = 0;
            cached_tokens = 0;
            cache_creation_tokens = 0;
            cache_creation_5m_tokens = 0;
            cache_creation_1h_tokens = 0;
            response_time = 0;
          })
            ≡ 0)
      → column (parsed_metrics calls e) ≡ count_of column (parsed e)
  unfolding parsed_metrics
  count_of-parsed_metrics column e empty = elim (Option-cases (parsed e)) [
    | inl h ↦ rw (h, parsed_metrics) (empty _ _)
    | inr (m, h) ↦ rw (h, parsed_metrics) refl
  ]

  parsed_metrics-some :
      (e : Exchanged) (m : UsageMetrics) → parsed e ≡ some m → parsed_metrics calls e ≡ m
  unfolding parsed_metrics
  parsed_metrics-some e m h = rw (h, parsed_metrics) refl

  logged_model_given :
      (e : Exchanged) (model : Str) → is_empty model ≡ false → logged_model calls e model ≡ model
  unfolding logged_model
  logged_model_given e model named = rw (named, logged_model) (rw named refl)

  parsed-logged_model :
      (e : Exchanged) (m : UsageMetrics)
      → parsed e ≡ some m
      → is_empty m.model ≡ false
      → logged_model calls e (parsed_metrics calls e).model ≡ m.model
  parsed-logged_model e m h named =
      ap (λ x. logged_model calls e x.model) (parsed_metrics-some e m h)
      ∙ logged_model_given e m.model named

  log_of-IsLogged : (e : Exchanged) → IsLogged none e (log_of F calls s e)
  unfolding log_of logged_metrics
  log_of-IsLogged e = record {
    provider = refl;
    status = refl;
    model = λ h. logged_model_some calls e _ h;
    model_of_response = parsed-logged_model e;
    input = count_of-parsed_metrics (λ m. m.input_tokens) e (λ p m. refl);
    output = count_of-parsed_metrics (λ m. m.output_tokens) e (λ p m. refl);
    cached = count_of-parsed_metrics (λ m. m.cached_tokens) e (λ p m. refl);
    creation = count_of-parsed_metrics (λ m. m.cache_creation_tokens) e (λ p m. refl);
    creation_5m = count_of-parsed_metrics (λ m. m.cache_creation_5m_tokens) e (λ p m. refl);
    creation_1h = count_of-parsed_metrics (λ m. m.cache_creation_1h_tokens) e (λ p m. refl);
    input_cost = refl;
    cached_cost = refl;
    cache_creation_cost = refl;
    output_cost = refl;
    total_cost = refl;
    failed = (error_message_lem e.status e.response_body).0;
    short = (error_message_lem e.status e.response_body).1;
    archived = λ key h. absurd (option_clash h);
    routed = refl;
    reason = refl;
  }

  -- A log whose key of an object is one that the store took, and that has all else of a log without.
  re_archived :
      (store : Option (Str → BodyPayload → Bool)) (e : Exchanged) (log : RequestLog R)
      (key : Option Str)
      → ((k : Str)
          → key ≡ some k
          → (upload : Str → BodyPayload → Bool) × (store ≡ some upload)
            × (upload k (payload_of F calls e) ≡ true))
      → IsLogged none e log
      → IsLogged store e (record log { body_s3_key = key })
  re_archived store e log key took l = record {
    provider = l.provider;
    status = l.status;
    model = l.model;
    model_of_response = l.model_of_response;
    input = l.input;
    output = l.output;
    cached = l.cached;
    creation = l.creation;
    creation_5m = l.creation_5m;
    creation_1h = l.creation_1h;
    input_cost = l.input_cost;
    cached_cost = l.cached_cost;
    cache_creation_cost = l.cache_creation_cost;
    output_cost = l.output_cost;
    total_cost = l.total_cost;
    failed = l.failed;
    short = l.short;
    archived = took;
    routed = l.routed;
    reason = l.reason;
  }

  -- What is handed to the writer of logs says, of every request that got a response: the provider that
  -- it was forwarded to and the status; a model, unless it is a Bedrock request, which is the response's
  -- where that names one; the tokens that the parser for this provider reads from the response, 0 where
  -- it cannot; their cost at the price of this provider for this model; the first 500 bytes of the
  -- response exactly where the status is one of an error; an object only where the store took it; and
  -- the provider and the reason of the routing decision exactly where there was one.
  pub log_request-IsLogged :
      (store : Option (Str → BodyPayload → Bool)) (date_path : ℕ → Str) (prefix : Str)
      (e : Exchanged)
      → IsLogged store e (log_request F calls s store date_path prefix e)
  unfolding log_request archive_bodies log_of
  log_request-IsLogged none date_path prefix e = log_of-IsLogged e
  log_request-IsLogged (some upload) date_path prefix e =
      let key = generate_key date_path prefix e.api_key_id e.request_id e.requested_at in
      let log = log_of F calls s e in
      elim (Bool-cases (upload key (payload_of F calls e))) [
        | inl took ↦ rw took (
            re_archived (some upload) e log (some key)
              (λ k h. (
                upload,
                refl,
                ap (λ x. upload x (payload_of F calls e)) (sym (some_injective h)) ∙ took,
              ))
              (log_of-IsLogged e))
        | inr lost ↦ rw lost (
            re_archived (some upload) e log none (λ k h. absurd (option_clash h))
              (log_of-IsLogged e))
      ]
