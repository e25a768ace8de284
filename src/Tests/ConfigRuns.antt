-- ===== src/Tests/ConfigRuns.antt =====
-- agent/config.py on a file and an environment.
use downtime_aware_recovery.Config.{
  load_dotenv, insert, load_line, load_lines, setdefault, is_line_end, parse_line, split_assignment,
  named_value, lstrip_quotes, rstrip_quotes, Environ, content, returned, split_lines, has_nul,
  raised, unreadable_file,
}
use downtime_aware_recovery.Config.Dotenv.{assignments, load_dotenv-lookup, IsRead}
use downtime_aware_recovery.Config.Settings.{
  upper, settings_of, read_port, parse_int, signed, port_raw, check_provider_keys,
  check_razorpay_keys, config_of, digits_from, fields_valid, read_fraction, unit_interval,
  validated, AppConfig, Host, load_config, at_least_zero,
}
use downtime_aware_recovery.Text.{strip, lstrip, rstrip, is_space, lower, translate}
use downtime_aware_recovery.Common.{
  ◌≡◌, refl, true, false, some, none, [], ◌∷◌, ◌==◌, String, if◌then◌else◌,
}
use downtime_aware_recovery.Config.Checks.{IsUsable}
use downtime_aware_recovery.Config.Loading.{IsFrom, load_config-IsUsable}
use downtime_aware_recovery.Fraction.{frac}

abbrev host : Host
host = record {
  to_float = λ s. if s == "0.25" then some (at_least_zero (frac 1 4)) else none;
  rules_exist = λ p. p == "agent/policy/rules.yaml";
}

abbrev dotenv : String
dotenv =
    "# settings\nGROQ_API_KEY = \"gsk_1\"\nDASHBOARD_PORT=80_80\nDASHBOARD_PORT=9090\n\nHOLDOUT_FRACTION='0.25'\nDIAGNOSIS_PROVIDER=Groq\n"

abbrev environ : Environ
environ = ("DASHBOARD_PORT", "8081") ∷ []

abbrev config : AppConfig
config = record {
  environment = "development";
  dashboard_host = "127.0.0.1";
  dashboard_port = 8081;
  database_path = "data/dev.db";
  rules_path = "agent/policy/rules.yaml";
  diagnosis_provider = "groq";
  log_level = "INFO";
  anthropic_api_key = none;
  groq_api_key = some "gsk_1";
  razorpay_key_id = none;
  razorpay_key_secret = none;
  holdout_fraction = some (frac 1 4);
}

loaded_config : load_config host (content dotenv) environ true false ≡ returned config
unfolding load_config load_dotenv settings_of read_port parse_int signed strip rstrip lstrip
    port_raw load_lines split_lines is_line_end load_line parse_line is_space split_assignment
    named_value setdefault check_provider_keys check_razorpay_keys config_of digits_from
    fields_valid read_fraction unit_interval upper validated insert lstrip_quotes rstrip_quotes
    lower translate has_nul
loaded_config = refl

load_config-IsUsable_example :
    IsUsable host true false config
    × ((environ' : Environ) × IsFrom host (content dotenv) environ config environ')
load_config-IsUsable_example =
    load_config-IsUsable host (content dotenv) environ true false config loaded_config

load_dotenv-lookup_example :
    IsRead (assignments (split_lines dotenv)) environ (load_dotenv (content dotenv) environ)
load_dotenv-lookup_example = load_dotenv-lookup dotenv environ

-- A value with a NUL is refused, unless the name is set already.
with_nul : load_dotenv (content "A=1\0\n") [] ≡ raised unreadable_file
unfolding load_dotenv load_lines split_lines is_line_end load_line parse_line strip rstrip lstrip
    is_space split_assignment named_value has_nul lstrip_quotes rstrip_quotes
with_nul = refl
