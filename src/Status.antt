-- ===== src/Status.antt =====
-- gazetteer/source.go: Status, and gazetteer/gazetteer.go: classifyErr.
pub mod Classify
use gazetteer.Prelude.{String, Bool, true, false, ◌||◌, if◌then◌else◌}
use gazetteer.Errors
use gazetteer.Errors.{Node, Err, any_node}

-- A Go `Status` is a string: `unset` is "", `other` is one that no constant names.
pub data Status : Type 0 where
  unset ok ok_empty skipped_prereq failed_transient failed_antibot : Status
  failed_outdated failed_permanent : Status
  other : String → Status

-- The sentinels that `errors.Is` is asked for.
abbrev pub is_insufficient_inputs : Node → Bool
is_insufficient_inputs Node.insufficient_inputs = true
is_insufficient_inputs _ = false

abbrev pub is_unsupported_property_type : Node → Bool
is_unsupported_property_type Node.unsupported_property_type = true
is_unsupported_property_type _ = false

abbrev pub is_anti_bot : Node → Bool
is_anti_bot Node.anti_bot = true
is_anti_bot _ = false

abbrev pub is_upstream_schema_changed : Node → Bool
is_upstream_schema_changed Node.upstream_schema_changed = true
is_upstream_schema_changed _ = false

abbrev pub is_upstream_permanent : Node → Bool
is_upstream_permanent Node.upstream_permanent = true
is_upstream_permanent _ = false

abbrev pub is_upstream_unavailable : Node → Bool
is_upstream_unavailable Node.upstream_unavailable = true
is_upstream_unavailable _ = false

-- A CircuitTrippedError is the sentinel by its method Is.
abbrev pub is_source_circuit_tripped : Node → Bool
is_source_circuit_tripped Node.source_circuit_tripped = true
is_source_circuit_tripped (Node.circuit_tripped_error source) = true
is_source_circuit_tripped _ = false

unfoldable pub classify_err : Err → Status
classify_err e =
    if any_node is_insufficient_inputs e || any_node is_unsupported_property_type e
    then Status.skipped_prereq
    else if any_node is_anti_bot e
    then Status.failed_antibot
    else if any_node is_upstream_schema_changed e
    then Status.failed_outdated
    else if any_node is_upstream_permanent e
    then Status.failed_permanent
    else if any_node is_upstream_unavailable e || any_node is_source_circuit_tripped e
    then Status.failed_transient
    else Status.failed_transient

-- StatusOK or StatusOKEmpty.
abbrev pub is_success : Status → Bool
is_success Status.ok = true
is_success Status.ok_empty = true
is_success _ = false
