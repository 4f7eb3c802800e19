-- ===== src/Errors.antt =====
-- Go's `error` values as trees: what `errors.Is`, `errors.As` and `errors.AsType` walk. The nodes
-- are the errors that the modelled code makes or tells apart.
use gazetteer.Prelude.{ℕ, String, Bool, ◌||◌, Option, none, some}

pub data Node : Type 0 where
  -- errors.New and fmt.Errorf with no %w
  text : String → Node
  -- fmt.Errorf with %w: the text before the wrapped error
  context : String → Node
  -- context.Canceled, context.DeadlineExceeded, io.EOF, io.ErrUnexpectedEOF
  canceled deadline_exceeded eof unexpected_eof : Node
  -- a net.Error whose Timeout() is true, *net.OpError, *url.Error
  net_timeout net_op url_error : Node
  -- the three error types of golang.org/x/net/http2
  stream_error go_away_error connection_error : Node
  -- helpers/httpx/errors.go
  err_transport too_many_retries : Node
  err_http : ℕ → Node
  -- helpers/circuit
  circuit_open : Node
  -- helpers/fallback
  no_tier_succeeded : Node
  -- gazetteer/errors.go
  insufficient_inputs unsupported_property_type anti_bot upstream_unavailable : Node
  upstream_schema_changed upstream_permanent source_circuit_tripped : Node
  circuit_tripped_error : String → Node

-- `leaf` has no Unwrap, `wrap` has one error below it, `join` two.
pub data Err : Type 0 where
  leaf : Node → Err
  wrap : Node → Err → Err
  join : Node → Err → Err → Err

-- Does some error of the tree pass the test?
unfoldable pub any_node : (Node → Bool) → Err → Bool
any_node p (leaf n) = p n
any_node p (wrap n e) = p n || any_node p e
any_node p (join n d e) = p n || (any_node p d || any_node p e)

-- The first value that the test takes from a node, in the order of `errors.As`: the error itself,
-- then what it wraps, depth first.
abbrev or_else {ℓ} : {A : Type ℓ} → Option A → Option A → Option A
or_else none o = o
or_else (some a) o = some a

unfoldable pub first_node {ℓ} : {A : Type ℓ} → (Node → Option A) → Err → Option A
first_node p (leaf n) = p n
first_node p (wrap n e) = or_else (p n) (first_node p e)
first_node p (join n d e) = or_else (p n) (or_else (first_node p d) (first_node p e))

pub data Result {ℓ} (A : Type ℓ) : Type ℓ where
  ok : A → Result A
  err : Err → Result A
