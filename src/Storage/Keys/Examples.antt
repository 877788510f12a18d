-- ===== src/Storage/Keys/Examples.antt =====
-- Concrete keys, and what the theorems say of them.
use reputo.Prelude.{◌≡◌, ◌≢◌, refl, [], ◌∷◌, ◌++◌, ok, arith}
use reputo.Storage.Keys.{
  codes, dot, split, join, starts_with, split_last, snapshot, ParsedStorageKey, generate_key,
  detect_key_type, extract_filename_and_ext, parse_parts, parse_storage_key,
}
use reputo.Storage.Keys.RoundTrip.{parse-generate, generate-parse}

abbrev report : ParsedStorageKey
report = record {
  key_type = snapshot;
  filename = codes "a/b.c.csv";
  ext = codes "csv";
  id = codes "42";
}

filled : codes "42" ≢ []
filled = ground arith

parse-generate_example :
    parse_storage_key (generate_key snapshot (codes "42") (codes "a/b.c" ++ dot ∷ codes "csv"))
    ≡ ok report
parse-generate_example =
    parse-generate snapshot (codes "42") (codes "a/b.c") (codes "csv") filled refl refl

generate-parse_example :
    generate_key snapshot (codes "42") (codes "a/b.c.csv") ≡ codes "snapshots/42/a/b.c.csv"
unfolding parse_storage_key detect_key_type parse_parts extract_filename_and_ext starts_with split
    join split_last
generate-parse_example = generate-parse (codes "snapshots/42/a/b.c.csv") report refl
