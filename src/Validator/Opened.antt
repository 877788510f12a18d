-- ===== src/Validator/Opened.antt =====
-- The files of a preset that passes (packages/algorithm-validator/src/preset-validation.ts).
use reputo.Prelude.{
  list_cases, ◌≡◌, ◌⊎◌, refl, String, false, ◌&&◌, Option, none, some, List, [], ◌∷◌, map, err, ok,
  Result-cases, Bool-cases, inl, inr, arith,
}
use reputo.Values.{Value, Fields, get_field, PresetInput, input_value}
use reputo.Validator.Passed.{append_nothing}
use reputo.Validator.Keys.{map_nothing}
use reputo.Validator.Wallets.{validate_json_content}
use reputo.Validator.WalletFiles.{IsJsonFile, validate_json_content-IsJsonFile}
use reputo.Validator.Properties.{Hints, Properties}
use reputo.Validator.Csv.{validate_csv_content}
use reputo.Validator.CsvFiles.{IsCsv, validate_csv_content-IsCsv}
use reputo.Validator.Presets.{InputType, csv, json, sub_algorithm, other_type, InputDefinition, put}
use reputo.Validator.Files.{
  Reader, first_given, is_given, is_file_backed, resolve_input_content, check_content, check_file,
  file_issue, validate_file_backed_inputs,
}

module _ (reader : Reader) where
  -- The content of a file passes the check of its kind.
  abbrev pub IsFine : InputType → String → String → Type 0
  IsFine (json config) key content = IsJsonFile reader.language content config
  IsFine (csv config) key content = IsCsv reader.language.lower content config
  IsFine (sub_algorithm _) key content = Unit
  IsFine other_type key content = Unit

  -- An input that is no file, or is not given; or a file that was opened and whose content is fine;
  -- or one whose opening failed without a message.
  abbrev pub FileAccepted : InputDefinition → Value → Type 0
  FileAccepted input value =
      ((is_file_backed reader input && is_given value) ≡ false)
      ⊎ ((content : String) × (resolve_input_content reader input value ≡ ok content)
          × IsFine input.type input.key content)
      ⊎ (resolve_input_content reader input value ≡ err [])

  abbrev pub value_given : List PresetInput → Fields → InputDefinition → Value
  value_given inputs payload input =
      first_given (input_value input.key inputs) (get_field input.key payload)

  abbrev pub FilesAccepted : List PresetInput → Fields → List InputDefinition → Type 0
  FilesAccepted inputs payload [] = Unit
  FilesAccepted inputs payload (input ∷ definitions) =
      FileAccepted input (value_given inputs payload input)
      × FilesAccepted inputs payload definitions

  checked_content :
      (type : InputType) (key content : String) (hints : Hints) (items : Option Properties)
      → (IsFine type key content
          × ((o : Option Value) × (check_content reader
                  (record { key = key; type = type; hints = hints; items = items })
                  content
                ≡ ok o)))
        ⊎ ((message : String) × (messages : List String) × (check_content reader
                (record { key = key; type = type; hints = hints; items = items })
                content
              ≡ err (message ∷ messages)))
  unfolding check_content
  checked_content (json config) key content hints items =
      elim (list_cases (validate_json_content reader.language content config)) [
        | inl n ↦ inl (
          validate_json_content-IsJsonFile reader.language content config n,
          (reader.language.parse content, ground (arith, n)),
        )
        | inr (e, es, h) ↦ inr (reader.say e, map reader.say es, ground (arith, h))
      ]
  checked_content (csv config) key content hints items =
      elim (list_cases (validate_csv_content reader.language.lower content config)) [
        | inl n ↦ inl (
          validate_csv_content-IsCsv reader.language.lower content config n,
          (none, ground (arith, n)),
        )
        | inr (e, es, h) ↦ inr (reader.say_csv e, map reader.say_csv es, ground (arith, h))
      ]
  checked_content (sub_algorithm shared) key content hints items = inl (tt, (none, refl))
  checked_content other_type key content hints items = inl (tt, (none, refl))

  -- What a check that adds no error says of the file.
  check_file-FileAccepted :
      (input : InputDefinition) (value : Value) (messages : List String)
      → check_file reader input value ≡ err messages
      → messages ≡ []
      → resolve_input_content reader input value ≡ err []
  unfolding check_file
  check_file-FileAccepted input value messages h e =
      elim (Result-cases (resolve_input_content reader input value)) [
        | inr (ms, f) ↦ ground (arith, h, e, f)
        | inl (content, f) ↦
            elim (checked_content input.type input.key content input.hints input.items) [
              | inl (fine, (o, g)) ↦ ground (arith, h, f, g)
              | inr (message, ms, g) ↦ ground (arith, h, e, f, g)
            ]
      ]

  opened_file :
      (input : InputDefinition) (value : Value) {parsed : Option Value}
      → check_file reader input value ≡ ok parsed
      → (content : String) × (resolve_input_content reader input value ≡ ok content)
        × IsFine input.type input.key content
  unfolding check_file
  opened_file input value h = elim (Result-cases (resolve_input_content reader input value)) [
    | inr (ms, f) ↦ ground (arith, h, f)
    | inl (content, f) ↦
        elim (checked_content input.type input.key content input.hints input.items) [
          | inl (fine, (o, g)) ↦ (content, f, fine)
          | inr (message, ms, g) ↦ ground (arith, h, f, g)
        ]
  ]

  pub validate_file_backed_inputs-FilesAccepted :
      (inputs : List PresetInput) (payload : Fields) (definitions : List InputDefinition)
      (parsed : Fields)
      → (validate_file_backed_inputs reader inputs payload definitions parsed).0 ≡ []
      → FilesAccepted inputs payload definitions
  unfolding validate_file_backed_inputs
  validate_file_backed_inputs-FilesAccepted inputs payload [] parsed h = tt
  validate_file_backed_inputs-FilesAccepted inputs payload (input ∷ definitions) parsed h =
      let value = value_given inputs payload input in
      let next = validate_file_backed_inputs reader inputs payload definitions in
      elim (Bool-cases (is_file_backed reader input && is_given value)) [
        | inr f ↦ (
          inl f,
          validate_file_backed_inputs-FilesAccepted inputs payload definitions parsed
              (ground (arith, h, f)),
        )
        | inl t ↦ elim (Result-cases (check_file reader input value)) [
          | inr (messages, e) ↦
              let (none_said, others) =
                append_nothing (map (file_issue reader input.key) messages) (next parsed).0
                  (ground (arith, h, t, e)) in
              (
                inr (
                    inr (
                      check_file-FileAccepted input value messages e
                        (map_nothing (file_issue reader input.key) messages none_said))),
                validate_file_backed_inputs-FilesAccepted inputs payload definitions parsed others,
              )
          | inl (none, e) ↦ (
            inr (inl (opened_file input value e)),
            validate_file_backed_inputs-FilesAccepted inputs payload definitions parsed
                (ground (arith, h, t, e)),
          )
          | inl (some content, e) ↦ (
            inr (inl (opened_file input value e)),
            validate_file_backed_inputs-FilesAccepted inputs payload definitions
                (put input.key content parsed) (ground (arith, h, t, e)),
          )
        ]
      ]
