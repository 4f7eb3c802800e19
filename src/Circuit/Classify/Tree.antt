-- ===== src/Circuit/Classify/Tree.antt =====
-- The classification of helpers/circuit/circuit.go is one search of the error tree.
use gazetteer.Prelude.{
  ℕ, zero, suc, ◌+◌, ◌≡◌, refl, sym, ap, ◌∙◌, Bool, false, ◌||◌, Option, none, some, arith, ◌⊎◌,
  inl, inr, Bool-cases,
}
use gazetteer.Errors.{Node, Err, leaf, wrap, join, any_node}
use gazetteer.Circuit.Classify.{
  is_context_error, is_eof, is_transport_type, first_url_error, size, is_transport_from,
  is_transport_or_deadline_err,
}

-- The errors that count as a failed transport.
abbrev pub is_transport_node : Node → Bool
is_transport_node n = is_context_error n || (is_eof n || is_transport_type n)

any_node-or :
    (p q : Node → Bool) (e : Err) → any_node (λ n. p n || q n) e ≡ (any_node p e || any_node q e)
unfolding any_node
any_node-or p q (leaf n) = refl
any_node-or p q (wrap n e) = ground (arith, any_node-or p q e)
any_node-or p q (join n d e) = ground (arith, any_node-or p q d, any_node-or p q e)

-- What a url.Error wraps is part of the tree that was searched.
url_error-miss :
    (p : Node → Bool) (e : Err) {inner : Err}
    → any_node p e ≡ false
    → first_url_error e ≡ some (some inner)
    → any_node p inner ≡ false
unfolding any_node first_url_error
url_error-miss p (leaf n) h u = ground arith
url_error-miss p (wrap n e) {inner} h u = ground (arith, url_error-miss p e {inner = inner})
url_error-miss p (join n d e) {inner} h u =
    ground (arith, url_error-miss p d {inner = inner}, url_error-miss p e {inner = inner})

-- The three searches of the ladder, as one.
any_node-ladder :
    (e : Err)
    → any_node is_transport_node e
      ≡ (any_node is_context_error e || (any_node is_eof e || any_node is_transport_type e))
any_node-ladder e =
    any_node-or is_context_error (λ n. is_eof n || is_transport_type n) e
    ∙ ap (λ b. any_node is_context_error e || b) (any_node-or is_eof is_transport_type e)

url_error_cases :
    (o : Option (Option Err))
    → ((inner : Err) × (o ≡ some (some inner))) ⊎ ((o ≡ none) ⊎ (o ≡ some none))
url_error_cases none = inr (inl refl)
url_error_cases (some none) = inr (inr refl)
url_error_cases (some (some e)) = inl (e, refl)

is_transport_from-miss :
    (fuel : ℕ) (e : Err) → any_node is_transport_node e ≡ false → is_transport_from fuel e ≡ false
unfolding is_transport_from
is_transport_from-miss zero e h = refl
is_transport_from-miss (suc fuel) e h = elim (url_error_cases (first_url_error e)) [
  | inl (inner, u) ↦ ground (
    arith,
    any_node-ladder e,
    is_transport_from-miss fuel inner (url_error-miss is_transport_node e {inner = inner} h u),
  )
  | inr o ↦ ground (arith, any_node-ladder e)
]

is_transport_from-eq-any :
    (fuel : ℕ) (e : Err) → is_transport_from (suc fuel) e ≡ any_node is_transport_node e
unfolding is_transport_from
is_transport_from-eq-any fuel e = elim (Bool-cases (any_node is_transport_node e)) [
  | inl hit ↦ ground (arith, any_node-ladder e)
  | inr miss ↦ is_transport_from-miss (suc fuel) e miss ∙ sym miss
]

-- An error counts as a failed transport exactly if some error of its tree is a context error, an
-- EOF, or of one of the five transport types: whatever url.Error it is wrapped in adds nothing.
pub is_transport_or_deadline_err-eq-any :
    (e : Err) → is_transport_or_deadline_err (some e) ≡ any_node is_transport_node e
unfolding is_transport_or_deadline_err size
is_transport_or_deadline_err-eq-any (leaf n) = is_transport_from-eq-any 0 (leaf n)
is_transport_or_deadline_err-eq-any (wrap n e) = is_transport_from-eq-any (size e) (wrap n e)
is_transport_or_deadline_err-eq-any (join n d e) =
    is_transport_from-eq-any (size d + size e) (join n d e)
