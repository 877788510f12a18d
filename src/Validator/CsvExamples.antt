-- ===== src/Validator/CsvExamples.antt =====
-- The check of CSV files on small tables (packages/algorithm-validator/src/csv-validation.ts).
use reputo.Prelude.{◌≡◌, refl, true, false, none, some, [], ◌∷◌}
use reputo.Validator.Csv.{CsvConfig, wrong_width, not_an_option, validate_csv_content}

-- A table of votes, whose second row has a value that is no option.
abbrev votes : CsvConfig
votes = record {
  has_header = none;
  delimiter = none;
  max_rows = some 3;
  columns =
      (record {
        key = "user_id";
        is_enum = false;
        is_required = true;
        enum = none;
        aliases = "User" ∷ [];
      })
      ∷ (record {
        key = "vote";
        is_enum = true;
        is_required = true;
        enum = some ("up" ∷ "down" ∷ []);
        aliases = [];
      })
      ∷ [];
}

refuses_vote :
    validate_csv_content (λ s. s) "User;vote\r\n1;up\r\n2;left\r\n" votes
    ≡ not_an_option 2 "vote" "left" ∷ []
unfolding validate_csv_content
refuses_vote = refl

-- Without a header no row fits.
refuses_headless :
    validate_csv_content (λ s. s) "1" (record votes { has_header = some false; columns = [] })
    ≡ wrong_width 1 1 0 ∷ []
unfolding validate_csv_content
refuses_headless = refl
