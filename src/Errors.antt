-- ===== src/Errors.antt =====
-- _errors.py: the provider's errors, the other exceptions that reach it, and their classification.
use Prim.Native.String.{◌++◌ as ◌<>◌}
use hermes_hyperspacedb_prov.Prelude.{String, ◌||◌, if◌then◌else◌}
use hermes_hyperspacedb_prov.Text

-- The subclasses of `ProviderError`, by their `code`.
pub data Code : Type 0 where
  provider_error configuration_error backend_timeout backend_unavailable auth_error : Code
  collection_not_found malformed_result collection_forbidden capability_forbidden : Code
  invalid_argument diagnostic_unavailable id_collision_exhausted mutation_conflict : Code
  mutation_verification_failed verification_inconclusive : Code

unfoldable pub code_text : Code → String
code_text provider_error = "PROVIDER_ERROR"
code_text configuration_error = "CONFIGURATION_ERROR"
code_text backend_timeout = "BACKEND_TIMEOUT"
code_text backend_unavailable = "BACKEND_UNAVAILABLE"
code_text auth_error = "AUTH_ERROR"
code_text collection_not_found = "COLLECTION_NOT_FOUND"
code_text malformed_result = "MALFORMED_RESULT"
code_text collection_forbidden = "COLLECTION_FORBIDDEN"
code_text capability_forbidden = "CAPABILITY_FORBIDDEN"
code_text invalid_argument = "INVALID_ARGUMENT"
code_text diagnostic_unavailable = "DIAGNOSTIC_UNAVAILABLE"
code_text id_collision_exhausted = "ID_COLLISION_EXHAUSTED"
code_text mutation_conflict = "MUTATION_CONFLICT"
code_text mutation_verification_failed = "MUTATION_VERIFICATION_FAILED"
code_text verification_inconclusive = "VERIFICATION_INCONCLUSIVE"

pub record ProviderError : Type 0 where
  pub code : Code
  pub message : String

-- What a Python call can raise: a `ProviderError`, a `TimeoutError`, or any other exception, by its
-- class, the upper-case name of what its `code()` returns (empty where that fails) and its `str()`.
pub data Exn : Type 0 where
  provider : ProviderError → Exn
  timeout_error : String → Exn
  other : String → String → String → Exn

pub data Result {ℓ} (A : Type ℓ) : Type ℓ where
  ok : A → Result A
  err : Exn → Result A

abbrev pub fail : Code → String → Exn
fail c m = provider (record { code = c; message = m })

-- `_safe_error_message`; `redact` replaces what its two patterns match.
unfoldable pub safe_error_message : (String → String) → String → String
safe_error_message redact message = Text.take 1000 (redact message)

-- What the classes have as their message here.
abbrev pub deadline_exceeded : ProviderError
deadline_exceeded = record {
  code = backend_timeout;
  message = "HyperspaceDB RPC deadline exceeded";
}

abbrev pub rejected_credentials : ProviderError
rejected_credentials = record {
  code = auth_error;
  message =
      "HyperspaceDB rejected credentials (UNAUTHENTICATED/PERMISSION_DENIED). Note: local HyperspaceDB containers running without authentication expect an empty API key (api_key: \"\" or unset api_key_env); remote/cloud servers require a valid HYPERSPACE_API_KEY.";
}

abbrev pub collection_missing : ProviderError
collection_missing = record {
  code = collection_not_found;
  message = "Configured HyperspaceDB collection was not found";
}

abbrev pub unavailable : String → ProviderError
unavailable message = record { code = backend_unavailable; message = message }

-- The tests of `_classify_exception` on the code's name and on the lower-case text.
unfoldable pub classify_other : String → String → String → ProviderError
classify_other class_name name text =
    if Text.contains "DEADLINE_EXCEEDED" name
      || Text.contains_lower "timeout" text
      || Text.contains_lower "timed out" text
    then deadline_exceeded
    else if Text.contains "UNAUTHENTICATED" name
        || Text.contains "PERMISSION_DENIED" name
        || Text.contains_lower "unauth" text
    then rejected_credentials
    else if Text.contains "NOT_FOUND" name || Text.contains_lower "not found" text
    then collection_missing
    else if Text.contains "UNAVAILABLE" name
        || Text.contains_lower "connection" text
        || Text.contains_lower "refused" text
    then unavailable "HyperspaceDB is unavailable"
    else unavailable ("HyperspaceDB call failed (" <> (class_name <> ")"))

-- `_classify_exception`
unfoldable pub classify : Exn → ProviderError
unfolding classify_other
classify (provider e) = e
classify (timeout_error message) = deadline_exceeded
classify (other class_name name text) = classify_other class_name name text

-- What `float(n)` raises for an int that is too large, and `int(x)` for an infinite float.
abbrev pub float_overflow : Exn
float_overflow = other "OverflowError" "" "int too large to convert to float"

abbrev pub int_overflow : Exn
int_overflow = other "OverflowError" "" "cannot convert float infinity to integer"
