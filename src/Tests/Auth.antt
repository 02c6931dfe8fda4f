-- ===== src/Tests/Auth.antt =====
-- The resolver of API keys at concrete inputs, with a cache that keeps everything.
use majordomo_gateway.Base.{
  ◌≤◌, ◌+◌, refl, ◌≡◌, ◌⊎◌, inl, inr, true, false, none, some, [], ◌∷◌, lit, Str, Bool-cases, ◌==◌,
  eq_iff, lookup, insert, delete, lookup-insert, lookup-delete, Dict, some_injective, ◌∙◌, sym,
  option_clash, Memᴰ, eq_refl,
}
use majordomo_gateway.Auth.{
  Lru, LruLaws, CachedKey, ApiKey, Found, found, resolve_api_key, resolve_found,
}
use majordomo_gateway.Auth.Laws.{
  Answer, Reaches, start, settled, verdict, cached_verdict, resolve_api_key-recent,
}

abbrev pub keeper : Lru
keeper = record {
  Cache = Dict CachedKey;
  held = λ c k. lookup k c;
  get = λ k c. c;
  add = insert;
  remove = delete;
}

added :
    (k j : Str) (e x : CachedKey) (c : Dict CachedKey)
    → lookup j (insert k e c) ≡ some x
    → ((k ≡ j) × (e ≡ x)) ⊎ (lookup j c ≡ some x)
added k j e x c h = elim (Bool-cases (k == j)) [
  | inl q ↦ inl ((eq_iff k j).0 q, some_injective (rw q at (sym (lookup-insert k j e c) ∙ h)))
  | inr q ↦ inr (rw q at (sym (lookup-insert k j e c) ∙ h))
]

removed :
    (k j : Str) (x : CachedKey) (c : Dict CachedKey)
    → lookup j (delete k c) ≡ some x
    → lookup j c ≡ some x
removed k j x c h = elim (Bool-cases (k == j)) [
  | inl q ↦ absurd (option_clash (rw q at (sym (lookup-delete k j c) ∙ h)))
  | inr q ↦ rw q at (sym (lookup-delete k j c) ∙ h)
]

removed_self : (k : Str) (c : Dict CachedKey) → lookup k (delete k c) ≡ none
removed_self k c = rw (lookup-delete k k c, eq_refl k)

abbrev keeper_laws : LruLaws keeper
keeper_laws = record {
  held-get = λ k j c. refl;
  held-add = added;
  held-remove = removed;
  held-remove_self = removed_self;
}

abbrev hash_of : Str → Str
hash_of s = 0 ∷ s

abbrev active : ApiKey
active = record {
  id = lit "i";
  name = lit "n";
  is_active = true;
  revoked = false;
  deprecated_model_behavior = [];
}

abbrev says : Str → Found
says hash = found active

abbrev first_answer : Answer
first_answer = record { hash = hash_of (lit "k"); at = 100; said = found active }

-- The cache behind the first answer.
reached :
    Reaches keeper
      (resolve_found keeper first_answer.hash first_answer.at first_answer.said []).0
      (first_answer ∷ [])
unfolding lookup
reached = settled first_answer (start [] (λ k. refl))

resolve_api_key-recent_example :
    ((resolve_api_key keeper hash_of
        (lit "k")
        400
        401
        says
        (resolve_found keeper first_answer.hash first_answer.at first_answer.said []).0).1
      ≡ verdict (hash_of (lit "k")) (found active))
    ⊎ ((a : Answer) × Memᴰ a (first_answer ∷ [])
        × (a.hash ≡ hash_of (lit "k"))
        × (400 ≤ a.at + 300)
        × ((resolve_api_key keeper hash_of
              (lit "k")
              400
              401
              says
              (resolve_found keeper first_answer.hash first_answer.at first_answer.said []).0).1
            ≡ cached_verdict (verdict a.hash a.said)))
unfolding lit
resolve_api_key-recent_example =
    resolve_api_key-recent keeper keeper_laws hash_of (lit "k") 400 401 says reached refl
