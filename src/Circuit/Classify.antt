-- ===== src/Circuit/Classify.antt =====
-- helpers/circuit/circuit.go: how an error is classified.
pub mod Tree
use gazetteer.Prelude.{
  ℕ, zero, suc, ◌+◌, String, ◌≡◌, refl, Bool, true, false, ◌||◌, Option, none, some, arith, ◌==◌,
  str_eq, if◌then◌else◌,
}
use gazetteer.Errors
use gazetteer.Errors.{Node, Err, leaf, wrap, join, any_node, first_node}

abbrev pub is_context_error : Node → Bool
is_context_error Node.deadline_exceeded = true
is_context_error Node.canceled = true
is_context_error _ = false

abbrev pub is_canceled : Node → Bool
is_canceled Node.canceled = true
is_canceled _ = false

abbrev pub is_eof : Node → Bool
is_eof Node.eof = true
is_eof Node.unexpected_eof = true
is_eof _ = false

abbrev pub is_transport_type : Node → Bool
is_transport_type Node.err_transport = true
is_transport_type Node.net_op = true
is_transport_type Node.stream_error = true
is_transport_type Node.go_away_error = true
is_transport_type Node.connection_error = true
is_transport_type _ = false

-- `errors.As(err, &uerr)` and `uerr.Err`, which may be nil.
abbrev below : Node → Option Err → Option (Option Err) → Option (Option Err)
below Node.url_error inner rest = some inner
below _ inner rest = rest

unfoldable pub first_url_error : Err → Option (Option Err)
first_url_error (leaf n) = below n none none
first_url_error (wrap n e) = below n (some e) (first_url_error e)
first_url_error (join n d e) =
    below n none (elim (first_url_error d) [ none ↦ first_url_error e | some u ↦ some u ])

unfoldable pub size : Err → ℕ
size (leaf n) = 1
size (wrap n e) = suc (size e)
size (join n d e) = suc (size d + size e)

-- The recursion of isTransportOrDeadlineErr goes into a part of the error: the fuel is its size.
unfoldable pub is_transport_from : ℕ → Err → Bool
is_transport_from zero e = false
is_transport_from (suc fuel) e =
    if any_node is_context_error e
    then true
    else if any_node is_eof e
    then true
    else if any_node is_transport_type e
    then true
    else elim (first_url_error e) [
      | none ↦ false
      | some none ↦ false
      | some (some inner) ↦ is_transport_from fuel inner
    ]

unfoldable pub is_transport_or_deadline_err : Option Err → Bool
unfolding is_transport_from
is_transport_or_deadline_err none = false
is_transport_or_deadline_err (some e) = is_transport_from (size e) e

abbrev pub http_status : Node → Option ℕ
http_status (Node.err_http n) = some n
http_status _ = none

unfoldable pub err_is_429 : Option Err → Bool
err_is_429 none = false
err_is_429 (some e) = elim (first_node http_status e) [ none ↦ false | some n ↦ n == 429 ]

-- `none` is a nil response, or one with a nil header; else the header's value.
unfoldable pub resp_has_quota_remaining_zero : Option String → Bool
resp_has_quota_remaining_zero none = false
resp_has_quota_remaining_zero (some v) = str_eq v "0"

-- The test `errors.Is(ctx.Err(), context.Canceled)`.
unfoldable pub caller_canceled : Option Err → Bool
caller_canceled none = false
caller_canceled (some e) = any_node is_canceled e
