-- ===== src/Outbox/Redaction.antt =====
-- core/outbox/utils/domain-event-payload-redaction.util.ts
use expentra.Prelude.{
  String, Bool, true, false, Option, none, some, List, [], ◌∷◌, same_text, is_some, any,
  if◌then◌else◌, ◌≡◌, refl, arith, inl, inr, Bool-cases, eq_iff, Option-cases,
}
use expentra.Policy.Json.{Json, text, Fields, end, field, get}

abbrev pub redacted_value : String
redacted_value = "[redacted]"

-- `SENSITIVE_EVENT_FIELDS`
abbrev pub sensitive_event_fields : String → List String
sensitive_event_fields event_type =
    if same_text event_type "auth.email-verification"
    then "verifyToken" ∷ []
    else if same_text event_type "auth.password-reset"
    then "resetToken" ∷ []
    else []

-- `o[key] = value`, for a key that the object has.
unfoldable pub set_field : String → Json → Fields → Fields
set_field key value end = end
set_field key value (field k v fs) =
    field k (if same_text k key then value else v) (set_field key value fs)

-- The loop over the fields; `changed` is whether a field was found before.
unfoldable pub redact_fields : List String → Bool → Fields → Option Fields
unfolding set_field
redact_fields [] changed payload = if changed then some payload else none
redact_fields (f ∷ fs) changed payload =
    let redact = redact_fields fs true (set_field f (text redacted_value) payload) in
    let skip = redact_fields fs changed payload in if is_some (get f payload) then redact else skip

unfoldable pub redact_processed_domain_event_payload : String → Fields → Option Fields
unfolding redact_fields
redact_processed_domain_event_payload event_type payload =
    redact_fields (sensitive_event_fields event_type) false payload

abbrev or_kept : Fields → Option Fields → Fields
or_kept payload none = payload
or_kept payload (some changed) = changed

-- What is stored once the event is processed.
abbrev pub stored_payload : String → Fields → Fields
stored_payload event_type payload =
    or_kept payload (redact_processed_domain_event_payload event_type payload)

abbrev pub redacted : Option Json → Option Json
redacted none = none
redacted (some _) = some (text redacted_value)

set_field-same :
    (key : String) (value : Json) (fs : Fields)
    → get key (set_field key value fs) ≡ elim (get key fs) [ none ↦ none | some _ ↦ some value ]
unfolding set_field
set_field-same key value end = refl
set_field-same key value (field j v fs) = ground (arith, set_field-same key value fs)

set_field-other :
    (key k : String) (value : Json) (fs : Fields)
    → same_text key k ≡ false
    → get k (set_field key value fs) ≡ get k fs
unfolding set_field
set_field-other key k value end other = refl
set_field-other key k value (field j v fs) other =
    grind (arith, set_field-other key k value fs, eq_iff)

abbrev pub names : List String → String → Bool
names fs k = any (λ f. same_text f k) fs

set_field-redacted :
    (f k : String) (payload : Fields)
    → get k (set_field f (text redacted_value) payload)
      ≡ (if same_text f k then redacted (get k payload) else get k payload)
set_field-redacted f k payload = elim (Bool-cases (same_text f k)) [
  | inl same ↦ grind (arith, set_field-same f (text redacted_value) payload, eq_iff)
  | inr other ↦ rw (other, set_field-other f k (text redacted_value) payload other) refl
]

redact_fields-get :
    (fs : List String) (changed : Bool) (payload base : Fields) (k : String)
    → (changed ≡ false → base ≡ payload)
    → get k (or_kept base (redact_fields fs changed payload))
      ≡ (if names fs k then redacted (get k payload) else get k payload)
unfolding redact_fields
redact_fields-get [] changed payload base k same = ground arith
redact_fields-get (f ∷ fs) changed payload base k same = elim (Option-cases (get f payload)) [
  | inl absent ↦ grind (arith, absent, redact_fields-get fs changed payload base k same, eq_iff)
  | inr (v, present) ↦ ground (
    arith,
    present,
    set_field-redacted f k payload,
    redact_fields-get fs true (set_field f (text redacted_value) payload) base k (λ e. cc),
  )
]

-- What is stored has the mark under the sensitive keys that were there, and the rest unchanged.
pub stored_payload-get :
    (event_type : String) (payload : Fields) (k : String)
    → get k (stored_payload event_type payload) ≡ (
        if names (sensitive_event_fields event_type) k
        then redacted (get k payload)
        else get k payload)
unfolding redact_processed_domain_event_payload
stored_payload-get event_type payload k =
    redact_fields-get (sensitive_event_fields event_type) false payload payload k (λ e. refl)
