-- ===== src/Events/Schema.antt =====
-- events/schema.json: what the schema asks of an event. Every object of it lists its properties, requires all of
-- them, and allows no others. The format of the timestamp is an annotation.
use ai_agent_security_firewa.Prelude.{
  ℕ, String, Bool, true, false, not, ◌&&◌, ◌==◌, leb, all, none, some, List, [], ◌∷◌, map,
}
use ai_agent_security_firewa.Prelude.Dict.{Dict, get, contains}
use ai_agent_security_firewa.Prelude.Json.{Json, null, num, str, arr, obj, Items, nil, item, fields}
use ai_agent_security_firewa.Events.Store.{Event}

-- The check of a value, and the properties of an object.
abbrev pub Check : Type 0
Check = Json → Bool

unfoldable pub is_valid_at : Dict Json → String × Check → Bool
is_valid_at object (name, check) = elim (get object name) [ none ↦ false | some v ↦ check v ]

unfoldable pub conforms_to : List (String × Check) → Dict Json → Bool
conforms_to properties object =
    all (is_valid_at object) properties
    && all (λ (entry : String × Json). contains (map (λ p. p.0) properties) entry.0) object

unfoldable pub non_empty : Check
non_empty (str s) = not (s == "")
non_empty _ = false

unfoldable pub one_of : List String → Check
one_of names (str s) = contains names s
one_of names _ = false

unfoldable pub any_text : Check
any_text (str s) = true
any_text _ = false

unfoldable pub nullable_text : Check
nullable_text null = true
nullable_text (str s) = true
nullable_text _ = false

unfoldable pub one_of_or_null : List String → Check
one_of_or_null names null = true
one_of_or_null names (str s) = contains names s
one_of_or_null names _ = false

unfoldable pub at_most : ℕ → Check
at_most limit (num n) = leb n limit
at_most limit _ = false

unfoldable pub at_most_or_null : ℕ → Check
at_most_or_null limit null = true
at_most_or_null limit (num n) = leb n limit
at_most_or_null limit _ = false

-- Numbers are natural here, so none is negative.
unfoldable pub number : Check
number (num n) = true
number _ = false

unfoldable pub object_of : List (String × Check) → Check
object_of properties (obj fs) = conforms_to properties (fields fs)
object_of properties _ = false

abbrev pub protocols : List String
protocols = "tls" ∷ "tcp" ∷ "http" ∷ "https" ∷ "dns" ∷ "udp" ∷ []

abbrev pub classes : List String
classes = "public" ∷ "internal" ∷ "confidential" ∷ "secret" ∷ []

abbrev pub taint_levels : List String
taint_levels = "clean" ∷ "tainted" ∷ []

abbrev pub decisions : List String
decisions =
    "DENY" ∷ "QUARANTINE" ∷ "REQUIRE_APPROVAL" ∷ "RATE_LIMIT" ∷ "ALLOW_REDACTED" ∷ "ALLOW" ∷ []

abbrev pub destination_properties : List (String × Check)
destination_properties =
    ("fqdn", nullable_text)
    ∷ ("ip", nullable_text)
    ∷ ("port", at_most_or_null 65535)
    ∷ ("protocol", one_of_or_null protocols)
    ∷ []

abbrev pub factor_properties : List (String × Check)
factor_properties = ("code", non_empty) ∷ ("points", number) ∷ ("human_reason", non_empty) ∷ []

unfoldable pub are_factors : Items → Bool
are_factors nil = true
are_factors (item v vs) = object_of factor_properties v && are_factors vs

unfoldable pub factors : Check
factors (arr vs) = are_factors vs
factors _ = false

abbrev pub latency_properties : List (String × Check)
latency_properties =
    map (λ (stage : String). (stage, number))
      ("identity" ∷ "normalize" ∷ "policy" ∷ "threat_intel" ∷ "dlp" ∷ "risk" ∷ "decision" ∷ "log"
        ∷ "total" ∷ [])

abbrev pub event_properties : List (String × Check)
event_properties =
    ("schema_version", one_of ("1.0" ∷ []))
    ∷ ("timestamp", any_text)
    ∷ ("trace_id", non_empty)
    ∷ ("session_id", non_empty)
    ∷ ("agent_id", non_empty)
    ∷ ("role", non_empty)
    ∷ ("tool", non_empty)
    ∷ ("action", non_empty)
    ∷ ("destination", object_of destination_properties)
    ∷ ("resource", nullable_text)
    ∷ ("data_classification", one_of classes)
    ∷ ("session_taint", one_of taint_levels)
    ∷ ("risk_score", at_most 100)
    ∷ ("risk_factors", factors)
    ∷ ("policy_id", non_empty)
    ∷ ("policy_bundle_version", non_empty)
    ∷ ("decision", one_of decisions)
    ∷ ("reason", non_empty)
    ∷ ("latency_ms", object_of latency_properties)
    ∷ []

-- The event is an instance of the schema.
unfoldable pub conforms : Event → Bool
conforms = conforms_to event_properties
