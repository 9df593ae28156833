-- ===== src/Policy/Rules/RoundTrip.antt =====
-- A configuration that the validator accepted, stored and read again.
use expentra.Prelude.{
  ℕ, suc, Option, none, some, List, [], ◌∷◌, map, ◌≡◌, refl, ap, subst, arith, inl, inr,
  Option-cases,
}
use expentra.Prelude.Result.{Exception, ok, bad_request, throw_if, >>=-eq-ok-then}
use expentra.Policy.Json.{
  Number, nat, Json, obj, text, arr, items, array, cons, Fields, get, Js, string_of, number_of,
}
use expentra.Policy.Types.{
  PolicyCondition, operator_of, operator_text, PolicyConditionOperator, ConditionalPolicyConfig,
  Match,
}
use expentra.Policy.Resolvers.{PolicyField, get_field, validate_value, validate_condition}
use expentra.Policy.Validator.{
  match_of, conditions_of, require, blank_message, parse_params, parse_fields, parse_condition,
  parse_conditions, validate,
}
use expentra.Policy.Rules.{stored_condition, match_text, stored_config}

-- A window that is no finite number is read back as 0.
abbrev settled_days : Option (Option Number) → Option (Option Number)
settled_days (some none) = some (some (nat 0))
settled_days (some (some n)) = some (some n)
settled_days none = none

abbrev pub settled : PolicyCondition → PolicyCondition
settled c = record c {
  params = elim c.params [
    | none ↦ none
    | some p ↦ some (record { category = p.category; window_days = settled_days p.window_days })
  ];
}

abbrev pub settled_config : ConditionalPolicyConfig → ConditionalPolicyConfig
settled_config config = record config { conditions = map settled config.conditions }

operator_of-text : (op : PolicyConditionOperator) → operator_of (operator_text op) ≡ some op
unfolding operator_of
operator_of-text PolicyConditionOperator.eq = refl
operator_of-text _ = refl

require-found :
    {A : Type 0} (o : Option A) (x : Exception) {a : A} → require o x ≡ ok a → o ≡ some a
require-found none x h = cc
require-found (some b) x h = cc

match_of-text : (m : Match) → match_of (some (text (match_text m))) ≡ some m
match_of-text Match.all = refl
match_of-text Match.any = refl

items-array : (vs : List Json) → items (array vs) ≡ vs
items-array [] = refl
items-array (v ∷ vs) = ap (λ rest. v ∷ rest) (items-array vs)

conditions_of-array :
    (v : Json) (vs : List Json) → conditions_of (some (arr (array (v ∷ vs)))) ≡ some (v ∷ vs)
conditions_of-array v vs = rw (items-array vs) refl

conditions_of-cons :
    (v : Option Json) (raw : List Json)
    → conditions_of v ≡ some raw
    → (x : Json) × (xs : List Json) × (raw ≡ x ∷ xs)
conditions_of-cons (some (arr (cons x xs))) raw h = (x, items xs, ground arith)
conditions_of-cons _ raw h = absurd (ground arith)

module _ (js : Js) where
  validate_value-settled :
      (f : PolicyField) (c : PolicyCondition) (i : ℕ)
      → validate_value js f c i ≡ ok tt
      → validate_value js f (settled c) i ≡ ok tt
  unfolding validate_value
  validate_value-settled PolicyField.has_duplicate_expense c i h = ground arith
  validate_value-settled PolicyField.monthly_category_spend c i h = ground arith
  validate_value-settled _ c i h = h

  validate_condition-settled :
      (c : PolicyCondition) (i : ℕ)
      → validate_condition js c i ≡ ok tt
      → validate_condition js (settled c) i ≡ ok tt
  unfolding validate_condition
  validate_condition-settled c i h = elim (Option-cases (get_field c.key)) [
    | inl unknown ↦ absurd (ground arith)
    | inr (f, known) ↦ ground (arith, known, validate_value-settled f c i)
  ]

  parse_fields-stored :
      (c : PolicyCondition) (i : ℕ)
      → validate_condition js c i ≡ ok tt
      → parse_condition js (stored_condition c) i ≡ ok (settled c)
  unfolding parse_condition parse_fields parse_params string_of number_of
  parse_fields-stored c i h =
      ground (arith, operator_of-text c.operator, validate_condition-settled c i)

  parse_condition-valid :
      (v : Json) (i : ℕ) (c : PolicyCondition)
      → parse_condition js v i ≡ ok c
      → validate_condition js c i ≡ ok tt
  unfolding parse_condition parse_fields
  parse_condition-valid (obj raw) i c h = ground arith
  parse_condition-valid _ i c h = absurd (ground arith)

  parse_conditions-stored :
      (vs : List Json) (i : ℕ) (cs : List PolicyCondition)
      → parse_conditions js vs i ≡ ok cs
      → parse_conditions js (map stored_condition cs) i ≡ ok (map settled cs)
  unfolding parse_conditions
  parse_conditions-stored [] i cs h = ground arith
  parse_conditions-stored (v ∷ vs) i cs h =
      >>=-eq-ok-then (parse_condition js v i) _ h λ c first h1.
        >>=-eq-ok-then (parse_conditions js vs (suc i)) _ h1 λ rest others h2.
          let head = parse_fields-stored c i (parse_condition-valid v i c first) in
          let tail = parse_conditions-stored vs (suc i) rest others in ground (arith, head, tail)

  -- The conditions of a rule are not empty.
  parse_conditions-cons :
      (raw : Option Json) (vs : List Json) (cs : List PolicyCondition)
      → conditions_of raw ≡ some vs
      → parse_conditions js vs 0 ≡ ok cs
      → (c : PolicyCondition) × (rest : List PolicyCondition) × (cs ≡ c ∷ rest)
  unfolding parse_conditions
  parse_conditions-cons raw vs cs found parsed =
      let (x, xs, e) = conditions_of-cons raw vs found in
      let from : parse_conditions js (x ∷ xs) 0 ≡ ok cs =
        subst (λ l. parse_conditions js l 0 ≡ ok cs) e parsed in
      >>=-eq-ok-then (parse_condition js x 0) _ from λ c _ h1.
        >>=-eq-ok-then (parse_conditions js xs 1) _ h1 λ rest _ h2. (c, rest, ground arith)

  conditions_of-stored :
      (raw : Option Json) (vs : List Json) (cs : List PolicyCondition)
      → conditions_of raw ≡ some vs
      → parse_conditions js vs 0 ≡ ok cs
      → conditions_of (some (arr (array (map stored_condition cs))))
        ≡ some (map stored_condition cs)
  conditions_of-stored raw vs cs found parsed =
      let (c, rest, e) = parse_conditions-cons raw vs cs found parsed in
      rw e (conditions_of-array (stored_condition c) (map stored_condition rest))

  validate-listed :
      (mode : Match) (cs : List PolicyCondition)
      → conditions_of (some (arr (array (map stored_condition cs))))
        ≡ some (map stored_condition cs)
      → parse_conditions js (map stored_condition cs) 0 ≡ ok (map settled cs)
      → validate js (stored_config (record { mode = mode; conditions = cs }))
        ≡ ok (record { mode = mode; conditions = map settled cs })
  unfolding validate
  validate-listed mode cs listed again = ground (arith, match_of-text mode, listed, again)

  -- A configuration that the validator accepted is accepted again from the column that stores it,
  -- and read as the same configuration, but for a window of days that was no finite number, which
  -- is read as 0.
  pub validate-stored :
      (config : Fields) (c : ConditionalPolicyConfig)
      → validate js config ≡ ok c
      → validate js (stored_config c) ≡ ok (settled_config c)
  unfolding validate
  validate-stored config c h =
      >>=-eq-ok-then
        (throw_if (blank_message (get "message" config))
          (bad_request "Policy message must be a non-empty string when provided"))
        _ h
        λ _ _ h1.
          >>=-eq-ok-then
            (require (match_of (get "match" config))
              (bad_request "Policy match mode must be \"all\" or \"any\""))
            _ h1
            λ mode _ h2.
              >>=-eq-ok-then
                (require (conditions_of (get "conditions" config))
                  (bad_request "Policy requires at least one condition"))
                _ h2
                λ raw found h3. >>=-eq-ok-then (parse_conditions js raw 0) _ h3 λ cs parsed h4.
                  let listed =
                    conditions_of-stored (get "conditions" config) raw cs (require-found _ _ found)
                      parsed in
                  let again = parse_conditions-stored raw 0 cs parsed in
                  let same : record { mode = mode; conditions = cs } ≡ c = cc h4 in
                  subst (λ k. validate js (stored_config k) ≡ ok (settled_config k)) same
                    (validate-listed mode cs listed again)
