-- ===== src/Usage/Tree/Refs.antt =====
-- The map of the interior nodes that assembleRunTree keeps, and the last segment of a path.
use mathlib.Core.Path.{subst}
use majordomo_gateway.Base.{
  ℕ, ◌≤◌, ◌<◌, ◌≡◌, refl, sym, false, is_empty, some, List, [], ◌∷◌, ◌++◌, arith, All, inl, inr,
  Bool-cases, Str, Dict, lookup, insert, length, ◌==◌, eq_iff, option_clash, some_injective,
}
use majordomo_gateway.Proxy.Spans.{split_path}
use majordomo_gateway.Usage.Tree.{RunNode, Ref, last_segment, add_node}
use majordomo_gateway.Usage.Tree.Places.{IsAt, IsAt-add_node}
use majordomo_gateway.Usage.Tree.Build.{length-add_node}

pub last_segment-some :
    (segments : List Str) → is_empty segments ≡ false → (s : Str) × (last_segment segments ≡ some s)
unfolding last_segment
last_segment-some [] h = cc
last_segment-some (s ∷ []) h = (s, refl)
last_segment-some (s ∷ t ∷ segments) h = last_segment-some (t ∷ segments) refl

pub last_segment-append :
    (l : List Str) (s name : Str) → last_segment (l ++ s ∷ []) ≡ some name → s ≡ name
unfolding last_segment
last_segment-append [] s name h = some_injective h
last_segment-append (x ∷ []) s name h = some_injective h
last_segment-append (x ∷ y ∷ l) s name h = last_segment-append (y ∷ l) s name h

module _ {R : Type 0} where
  -- What is known of a pointer in the map `nodes`, by its path, in a store.
  abbrev pub IsRef : List (RunNode R) → Str → Ref → Type 0
  IsRef store k r =
      (r.address < length store)
      × (r.path ≡ k)
      × (length (split_path k) ≤ 64)
      × IsAt store r.address k

  abbrev pub AllRefs : List (RunNode R) → Dict Ref → Type 0
  AllRefs store nodes = All (λ e. IsRef store (e.0) (e.1)) nodes

  pub AllRefs-add_node :
      (p : ℕ) (x : RunNode R) (store : List (RunNode R)) (nodes : Dict Ref)
      → AllRefs store nodes
      → AllRefs (add_node p x store) nodes
  AllRefs-add_node p x store [] a = tt
  AllRefs-add_node p x store ((k, r) ∷ nodes) ((h, e, short, at), a) = (
    (omega (arith, length-add_node p x store), e, short, IsAt-add_node p r.address k x store h at),
    AllRefs-add_node p x store nodes a,
  )

  pub AllRefs-insert :
      (store : List (RunNode R)) (k : Str) (r : Ref) (nodes : Dict Ref)
      → IsRef store k r
      → AllRefs store nodes
      → AllRefs store (insert k r nodes)
  unfolding insert
  AllRefs-insert store k r [] p a = (p, tt)
  AllRefs-insert store k r ((j, s) ∷ nodes) p (q, a) = elim (Bool-cases (j == k)) [
    | inl e ↦ rw e (subst (λ x. IsRef store x r) (sym ((eq_iff j k).0 e)) p, a)
    | inr e ↦ rw e (q, AllRefs-insert store k r nodes p a)
  ]

  pub AllRefs-lookup :
      (store : List (RunNode R)) (k : Str) (r : Ref) (nodes : Dict Ref)
      → AllRefs store nodes
      → lookup k nodes ≡ some r
      → IsRef store k r
  unfolding lookup
  AllRefs-lookup store k r [] a h = absurd (option_clash h)
  AllRefs-lookup store k r ((j, s) ∷ nodes) (q, a) h = elim (Bool-cases (j == k)) [
    | inl e ↦
        let same : s ≡ r = ground (arith, h, e) in
        subst (λ x. IsRef store k x) same (subst (λ x. IsRef store x s) ((eq_iff j k).0 e) q)
    | inr e ↦ AllRefs-lookup store k r nodes a (ground (arith, h, e))
  ]
