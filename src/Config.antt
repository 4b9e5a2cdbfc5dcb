-- ===== src/Config.antt =====
-- The configuration (src/config.rs); a variable of the environment has a value or is not set. The
-- HTTP client that it also holds is part of the environment of the steps.
use ingest_pipeline.Prelude.{ℕ, Option, none, some, [], ltb, if◌then◌else◌, unwrap_or}
use ingest_pipeline.Prelude.Text.{Text, text, parse_u32}
use ingest_pipeline.Store.{Result, ok, err}

pub record Config : Type 0 where
  pub database_url : Text
  pub port : ℕ
  pub log_level : Text
  pub hetzner_extract_url : Option Text
  pub hetzner_extract_secret : Option Text
  pub pipeline_api_secret : Option Text
  pub bff_cron_secret : Option Text

-- `str::parse::<u16>`.
unfoldable pub parse_u16 : Text → Option ℕ
unfolding parse_u32
parse_u16 s = elim (parse_u32 10 s) [ none ↦ none | some n ↦ if ltb n 65536 then some n else none ]

unfoldable pub port_of : Option Text → ℕ
unfolding parse_u16
port_of port = unwrap_or 3000 (parse_u16 (unwrap_or (text "3000") port))

unfoldable pub load_config : (Text → Option Text) → Result Config
unfolding port_of
load_config var = elim (var (text "DATABASE_URL")) [
  | none ↦ err (text "DATABASE_URL environment variable is required")
  | some database_url ↦ ok (record {
    database_url = database_url;
    port = port_of (var (text "PORT"));
    log_level = unwrap_or (text "info") (var (text "LOG_LEVEL"));
    hetzner_extract_url = var (text "HETZNER_EXTRACT_URL");
    hetzner_extract_secret = var (text "HETZNER_EXTRACT_SECRET");
    pipeline_api_secret = var (text "PIPELINE_API_SECRET");
    bff_cron_secret = var (text "BFF_CRON_SECRET");
  })
]

unfoldable pub for_tests : Config
for_tests = record {
  database_url = [];
  port = 3000;
  log_level = text "debug";
  hetzner_extract_url = none;
  hetzner_extract_secret = none;
  pipeline_api_secret = none;
  bff_cron_secret = none;
}
