-- ===== src/Circuit/Fetcher/Laws.antt =====
-- What Fetch (helpers/circuit/circuit.go) promises: when it asks, what it returns, when it trips.
use gazetteer.Prelude.{
  ℕ, ◌≡◌, String, Bool, true, false, ◌||◌, not, none, some, arith, str_append, Bool-cases, inl, inr,
}
use gazetteer.Errors.{Node, Err, leaf, any_node, ok, err}
use gazetteer.Floats.{Floats}
use gazetteer.Circuit.Registry.{World, or_common, loaded}
use gazetteer.Circuit.Fetcher.{HttpFetcher, Answer, circuit_flag, fetch_failed, fetch}

abbrev pub is_circuit_open : Node → Bool
is_circuit_open Node.circuit_open = true
is_circuit_open _ = false

module _ (fl : Floats) (h : HttpFetcher fl.Float) (url : String) (now : ℕ) (a : Answer)
    (w : World) where
  -- Without a client, or with the flag set, Fetch asks nothing and changes nothing, and it fails;
  -- the error says that the circuit is open exactly if there is a client.
  pub fetch-refuses :
      (not h.has_client || loaded w (circuit_flag h.options)) ≡ true
      → (e : Err) × (fetch fl (some h) url now a w ≡ (some h, err e, w))
        × (any_node is_circuit_open e ≡ h.has_client)
  unfolding fetch any_node
  fetch-refuses closed = elim (Bool-cases h.has_client) [
    | inl client ↦
        (fetch_failed h.err_prefix url (leaf Node.circuit_open), ground arith, ground arith)
    | inr no_client ↦ (
      leaf (Node.text (str_append (or_common h.err_prefix) ": nil HTTPFetcher")),
      ground arith,
      ground arith,
    )
  ]

  -- Past the guards the body is returned exactly if the client gave no error, and an error is
  -- passed on with what it wraps.
  pub fetch-result :
      h.has_client ≡ true
      → loaded w (circuit_flag h.options) ≡ false
      → (fetch fl (some h) url now a w).1
        ≡ elim a.error [ none ↦ ok a.body | some e ↦ err (fetch_failed h.err_prefix url e) ]
  unfolding fetch
  fetch-result client open_flag = ground arith
