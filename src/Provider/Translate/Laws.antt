-- ===== src/Provider/Translate/Laws.antt =====
-- Which messages a translated request has.
use majordomo_gateway.Base.{
  Bool, not, refl, ◌≡◌, List, [], ◌∷◌, ◌++◌, Str, lit, ◌==◌, filter, append_assoc, append_nil,
  Bool-cases, sym, inl, inr, ◌∙◌,
}
use majordomo_gateway.Provider.Translate.{Message, ChatRequest, split_messages, to_messages_request}

abbrev pub is_system : Message → Bool
is_system msg = msg.role == lit "system"

-- The last text of a list, or else the one that is given.
unfoldable pub last_of : Str → List Message → Str
last_of text [] = text
last_of text (msg ∷ messages) = last_of msg.content messages

split_messages_lem :
    (system : Str) (kept messages : List Message)
    → (split_messages system kept messages).0 ≡ last_of system (filter is_system messages)
      × ((split_messages system kept messages).1
          ≡ kept ++ filter (λ msg. not (is_system msg)) messages)
unfolding split_messages filter last_of
split_messages_lem system kept [] = (refl, sym (append_nil kept))
split_messages_lem system kept (msg ∷ messages) = elim (Bool-cases (msg.role == lit "system")) [
  | inl e ↦ rw e (split_messages_lem msg.content kept messages)
  | inr e ↦
      let (a, b) = split_messages_lem system (kept ++ msg ∷ []) messages in
      rw e (a, b ∙ append_assoc kept (msg ∷ []) (filter (λ m. not (is_system m)) messages))
]

-- A translated request has the messages of the other roles, in their order and unchanged, and the text
-- of the last system message, or none: a system message that another follows is lost.
pub to_messages_request-messages :
    (req : ChatRequest)
    → ((to_messages_request req).messages ≡ filter (λ msg. not (is_system msg)) req.messages)
      × ((to_messages_request req).system ≡ last_of [] (filter is_system req.messages))
unfolding to_messages_request
to_messages_request-messages req = let (a, b) = split_messages_lem [] [] req.messages in (b, a)
