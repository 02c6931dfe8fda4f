-- ===== src/Provider/Translate.antt =====
-- internal/provider/translator.go: a chat request of OpenAI's as one of Anthropic's, and the answer
-- back. Optional numbers are raw JSON values; decoding and encoding are functions of the section.
pub mod Laws
use majordomo_gateway.Base.{
  ℕ, Bool, true, false, Option, none, some, List, [], ◌∷◌, ◌++◌, if◌then◌else◌, Str, lit, ◌==◌,
  has_prefix, add_int,
}
use majordomo_gateway.Provider.Names.{anthropic_openai}

-- OpenAIMessage and AnthropicMessage have the same fields.
pub record Message : Type 0 where
  pub role : Str
  pub content : Str

pub record ChatRequest : Type 0 where
  pub model : Str
  pub messages : List Message
  pub max_tokens : Option ℕ
  pub temperature : Option Str
  pub top_p : Option Str
  pub stream : Option Bool

pub record MessagesRequest : Type 0 where
  pub model : Str
  pub messages : List Message
  pub system : Str
  pub max_tokens : ℕ
  pub temperature : Option Str
  pub top_p : Option Str
  pub stream : Option Bool

pub record ContentBlock : Type 0 where
  pub kind : Str
  pub text : Str

pub record MessagesResponse : Type 0 where
  pub id : Str
  pub content : List ContentBlock
  pub model : Str
  pub stop_reason : Str
  pub input_tokens : ℕ
  pub output_tokens : ℕ

-- The one choice of an OpenAIResponse, and its usage; the other fields are constants.
pub record ChatResponse : Type 0 where
  pub id : Str
  pub model : Str
  pub role : Str
  pub content : Str
  pub finish_reason : Str
  pub prompt_tokens : ℕ
  pub completion_tokens : ℕ
  pub total_tokens : ℕ

-- The loop over the messages: the system text, and the messages that are kept.
unfoldable pub split_messages : Str → List Message → List Message → Str × List Message
split_messages system kept [] = (system, kept)
split_messages system kept (msg ∷ messages) =
    if msg.role == lit "system"
    then split_messages msg.content kept messages
    else split_messages system (kept ++ msg ∷ []) messages

unfoldable pub to_messages_request : ChatRequest → MessagesRequest
unfolding split_messages
to_messages_request req =
    let (system, kept) = split_messages [] [] req.messages in
    record {
      model = req.model;
      messages = kept;
      system = system;
      max_tokens = elim req.max_tokens [ none ↦ 4096 | some n ↦ n ];
      temperature = req.temperature;
      top_p = req.top_p;
      stream = req.stream;
    }

-- The loop over the content blocks.
unfoldable pub text_content : Str → List ContentBlock → Str
text_content content [] = content
text_content content (block ∷ blocks) =
    text_content (if block.kind == lit "text" then content ++ block.text else content) blocks

unfoldable pub finish_reason_of : Str → Str
finish_reason_of stop_reason =
    if stop_reason == lit "end_turn"
    then lit "stop"
    else if stop_reason == lit "max_tokens"
    then lit "length"
    else if stop_reason == lit "stop_sequence"
    then lit "stop"
    else if stop_reason == lit "tool_use"
    then lit "tool_calls"
    else lit "stop"

unfoldable pub to_chat_response : MessagesResponse → ChatResponse
unfolding text_content finish_reason_of add_int
to_chat_response resp = record {
  id = resp.id;
  model = resp.model;
  role = lit "assistant";
  content = text_content [] resp.content;
  finish_reason = finish_reason_of resp.stop_reason;
  prompt_tokens = resp.input_tokens;
  completion_tokens = resp.output_tokens;
  total_tokens = add_int resp.input_tokens resp.output_tokens;
}

unfoldable pub translate_open_ai_to_anthropic :
    (Str → Option ChatRequest) → (MessagesRequest → Option Str) → Str → Option (Str × Str)
unfolding to_messages_request
translate_open_ai_to_anthropic decode encode body = elim (decode body) [
  | none ↦ none
  | some req ↦ elim (encode (to_messages_request req)) [
    | none ↦ none
    | some translated ↦ some (translated, lit "/v1/messages")
  ]
]

unfoldable pub translate_anthropic_to_open_ai :
    (Str → Option MessagesResponse) → (ChatResponse → Option Str) → Str → Option Str
unfolding to_chat_response
translate_anthropic_to_open_ai decode encode body = elim (decode body) [
  | none ↦ none
  | some resp ↦ encode (to_chat_response resp)
]

unfoldable pub is_translation_required : Str → Bool
is_translation_required p = p == anthropic_openai

unfoldable pub get_translated_path : Str → Str → Str
get_translated_path p original_path =
    if p == anthropic_openai
    then (if has_prefix original_path (lit "/v1/chat/completions")
        then lit "/v1/messages"
        else original_path)
    else original_path
