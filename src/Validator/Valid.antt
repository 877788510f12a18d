-- ===== src/Validator/Valid.antt =====
-- What a preset that passes satisfies, and that a refusal gives a reason
-- (packages/algorithm-validator/src/preset-validation.ts).
use reputo.Prelude.{
  ◌≡◌, ◌≢◌, sym, subst, true, [], ◌++◌, all, err, ok, Result-cases, inl, inr, arith,
}
use reputo.Tokens.Transfers.{has}
use reputo.Tokens.Firsts.{distinct}
use reputo.Values.{Value, Fields, end}
use reputo.Validator.Passed.{append_nothing}
use reputo.Validator.Keys.{consistent_keys, distinct_inputs, supported_inputs}
use reputo.Validator.Presets.{
  AlgorithmDefinition, PresetData, supported_keys, input_keys, build_payload,
  get_definition_consistency_errors, get_duplicate_input_errors, get_unsupported_input_errors,
}
use reputo.Validator.Offered.{IsPayload, validate_payload-IsPayload, validate_payload_explained}
use reputo.Validator.Files.{validate_file_backed_inputs, run_definition_rules}
use reputo.Validator.Opened.{FilesAccepted, validate_file_backed_inputs-FilesAccepted}
use reputo.Validator.Nested.{
  Context, Validation, parse_payload, validate_nested_sub_algorithms, validate_contents,
  definition_errors, validate_parsed, validate_with,
}
use reputo.Validator.Accepted.{NestedAccepted, validate_nested_sub_algorithms-NestedAccepted}

module _ (context : Context) (validate : AlgorithmDefinition → PresetData → Validation) where
  -- A preset of the definition, with no input twice and none that the definition does not have; its
  -- payload passes the schema, its files are fine, and so are the algorithms nested in it.
  abbrev pub IsValid : AlgorithmDefinition → PresetData → Fields → Type 0
  IsValid definition preset payload =
      (preset.key ≡ definition.key)
      × (preset.version ≡ definition.version)
      × (distinct (input_keys preset.inputs) ≡ true)
      × (all (has (supported_keys definition)) (input_keys preset.inputs) ≡ true)
      × IsPayload context.print context.show
          (context.read_payload definition (build_payload preset.inputs)) definition.inputs payload
      × FilesAccepted context.reader preset.inputs payload definition.inputs
      × NestedAccepted context validate definition preset.inputs payload definition.inputs

  passed_contents :
      (definition : AlgorithmDefinition) (preset result : PresetData) (payload checked : Fields)
      → validate_contents context validate definition preset payload ≡ ok (result, checked)
      → ((validate_file_backed_inputs context.reader preset.inputs payload definition.inputs end).0
            ++ run_definition_rules definition payload
                (validate_file_backed_inputs context.reader preset.inputs payload definition.inputs
                  end).1
                definition.rules
            ++ validate_nested_sub_algorithms context validate definition preset.inputs payload
                definition.inputs
          ≡ [])
        × (result ≡ preset)
        × (checked ≡ payload)
  unfolding validate_contents
  passed_contents definition preset result payload checked h = ground (arith, h)

  passed_definition :
      (definition : AlgorithmDefinition) (preset : PresetData)
      → definition_errors definition preset ≡ []
      → (preset.key ≡ definition.key)
        × (preset.version ≡ definition.version)
        × (distinct (input_keys preset.inputs) ≡ true)
        × (all (has (supported_keys definition)) (input_keys preset.inputs) ≡ true)
  passed_definition definition preset h =
      let (first, no_unsupported) =
        append_nothing
          (get_definition_consistency_errors definition preset.key preset.version
            ++ get_duplicate_input_errors preset.inputs)
          (get_unsupported_input_errors definition preset.inputs) h in
      let (consistent, single) =
        append_nothing (get_definition_consistency_errors definition preset.key preset.version)
          (get_duplicate_input_errors preset.inputs) first in
      let (same_key, same_version) =
        consistent_keys definition preset.key preset.version consistent in
      (
        same_key,
        same_version,
        distinct_inputs preset.inputs single,
        supported_inputs definition preset.inputs no_unsupported,
      )

  parsed_cases :
      (definition : AlgorithmDefinition) (preset result : PresetData) (checked : Fields)
      → validate_parsed context validate definition preset ≡ ok (result, checked)
      → (payload : Fields) × (parse_payload context definition (build_payload preset.inputs)
          ≡ ok payload)
        × (definition_errors definition preset ≡ [])
        × (validate_contents context validate definition preset payload ≡ ok (result, checked))
  unfolding validate_parsed
  parsed_cases definition preset result checked h =
      elim (Result-cases (parse_payload context definition (build_payload preset.inputs))) [
        | inr (issues, e) ↦ ground (arith, h, e)
        | inl (payload, e) ↦ (payload, e, ground (arith, h, e), ground (arith, h, e))
      ]

  module _ (explained : (d : AlgorithmDefinition) (p : PresetData) → validate d p ≢ err []) where
    parsed-IsValid :
        (definition : AlgorithmDefinition) (preset result : PresetData) (checked : Fields)
        → validate_parsed context validate definition preset ≡ ok (result, checked)
        → (result ≡ preset) × IsValid definition preset checked
    parsed-IsValid definition preset result checked h =
        let (payload, parsed, clean, contents) = parsed_cases definition preset result checked h in
        let (no_issue, same, whole) =
          passed_contents definition preset result payload checked contents in
        let files =
          validate_file_backed_inputs context.reader preset.inputs payload definition.inputs end in
        let (first, no_nested_issue) =
          append_nothing
            (files.0 ++ run_definition_rules definition payload files.1 definition.rules)
            (validate_nested_sub_algorithms context validate definition preset.inputs payload
              definition.inputs)
            no_issue in
        let (no_file_issue, no_rule_issue) =
          append_nothing files.0 (run_definition_rules definition payload files.1 definition.rules)
            first in
        let (same_key, same_version, single, supported) =
          passed_definition definition preset clean in
        let accepted : IsValid definition preset payload = (
          same_key,
          same_version,
          single,
          supported,
          validate_payload-IsPayload context.print context.show
              (context.read_payload definition (build_payload preset.inputs)) definition.inputs
              payload parsed,
          validate_file_backed_inputs-FilesAccepted context.reader preset.inputs payload
              definition.inputs end no_file_issue,
          validate_nested_sub_algorithms-NestedAccepted context validate explained definition
              preset.inputs payload definition.inputs no_nested_issue,
        ) in
        (same, subst (IsValid definition preset) (sym whole) accepted)

    pub with-IsValid :
        (definition : AlgorithmDefinition) (value : Value) (preset : PresetData) (payload : Fields)
        → validate_with context validate definition value ≡ ok (preset, payload)
        → (context.parse_preset value ≡ ok preset) × IsValid definition preset payload
    unfolding validate_with
    with-IsValid definition value preset payload h =
        elim (Result-cases (context.parse_preset value)) [
          | inr (issues, e) ↦ ground (arith, h, e)
          | inl (parsed, e) ↦
              let (same, valid) =
                parsed-IsValid definition parsed preset payload (ground (arith, h, e)) in
              (ground (arith, e, same), subst (λ p. IsValid definition p payload) (sym same) valid)
        ]

  -- A refusal by one level, whatever the levels below say.
  pub with-explained :
      ((v : Value) → context.parse_preset v ≢ err [])
      → ((d : AlgorithmDefinition) (p : Fields) → context.read_payload d p ≢ err [])
      → (definition : AlgorithmDefinition) (value : Value)
      → validate_with context validate definition value ≢ err []
  unfolding validate_with validate_parsed validate_contents
  with-explained presets payloads definition value h =
      elim (Result-cases (context.parse_preset value)) [
        | inr (issues, e) ↦ presets value (ground (arith, h, e))
        | inl (preset, e) ↦
            let built = build_payload preset.inputs in
            elim (Result-cases (parse_payload context definition built)) [
              | inl (payload, f) ↦ ground (arith, h, e, f)
              | inr (issues, f) ↦
                  let none_said : definition_errors definition preset ++ issues ≡ [] =
                    ground (arith, h, e, f) in
                  let (clean, silent) =
                    append_nothing (definition_errors definition preset) issues none_said in
                  validate_payload_explained context.print context.show
                    (context.read_payload definition built) definition.inputs
                    (payloads definition built) (ground (arith, f, silent))
            ]
      ]
