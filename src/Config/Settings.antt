-- ===== src/Config/Settings.antt =====
-- agent/config.py: `AppConfig` and `load_config`.
use downtime_aware_recovery.Common.{
  ◌∷◌, [], none, some, Bool, List, Option, String, ℕ, ◌*◌, elem, if◌then◌else◌, leb, lookup,
  or_default, true, ◌&&◌, ◌+◌, nat_eq, ◌-◌, not, is_some, ◌||◌, ◌==◌,
}
use Prim.Native.Char.{Char, code}
use downtime_aware_recovery.Config.{
  ◌>>=◌, ◌>>◌, ConfigResult, raised, returned, raise_if, load_dotenv, Environ, EnvFile,
  bad_fraction, bad_port, validation_failed, missing_razorpay, missing_anthropic, missing_groq,
}
use downtime_aware_recovery.Fraction.{Fraction}
use downtime_aware_recovery.Text.{lower, strip, translate, has_text}

-- `str.upper`, of the letters of ASCII.
unfoldable pub upper : String → String
upper String.[] = ""
upper (String.◌∷◌ c s) =
    String.◌∷◌ (translate "abcdefghijklmnopqrstuvwxyz" "ABCDEFGHIJKLMNOPQRSTUVWXYZ" c) (upper s)

-- A Python int: a sign and a number.
pub data Integer : Type 0 where
  natural negative : ℕ → Integer

abbrev pub is_digit : Char → Bool
is_digit c = leb b'0' (code c) && leb (code c) b'9'

-- The digits of a number, with single underscores between them; `after` is the value so far where a
-- digit has been read just before.
unfoldable pub digits_from : Option ℕ → ℕ → String → Option ℕ
digits_from after so_far String.[] = after
digits_from after so_far (String.◌∷◌ c s) =
    let value = 10 * so_far + (code c - b'0') in
    let next = digits_from (some value) value s in
    let skip = digits_from none so_far s in
    if is_digit c then next else if nat_eq (code c) b'_' && is_some after then skip else none

-- The sign, and the digits behind it.
unfoldable pub signed : String → Option Integer
signed String.[] = none
signed (String.◌∷◌ c s) =
    if nat_eq (code c) b'-'
    then elim (digits_from none 0 s) [ none ↦ none | some n ↦ some (negative n) ]
    else elim (digits_from none 0 (if nat_eq (code c) b'+' then s else String.◌∷◌ c s)) [
      | none ↦ none
      | some n ↦ some (natural n)
    ]

-- `int(text)`, on a text of ASCII; none is a ValueError.
unfoldable pub parse_int : String → Option Integer
parse_int text = signed (strip text)

-- A Python float: a fraction of either sign, an infinity of either sign, or nan.
pub data Float : Type 0 where
  at_least_zero below_zero : Fraction → Float
  infinite : Bool → Float
  not_a_number : Float

-- `float(text)`, and `Path.exists` of the path of the rules, seen from the root of the repository.
pub record Host : Type 0 where
  pub to_float : String → Option Float
  pub rules_exist : String → Bool

-- `0.0 <= x <= 1.0`, with x if it holds. Minus zero is zero.
unfoldable pub unit_interval : Float → Option Fraction
unit_interval (at_least_zero x) = if leb x.num x.den then some x else none
unit_interval (below_zero x) = if nat_eq x.num 0 then some x else none
unit_interval (infinite sign) = none
unit_interval not_a_number = none

pub record AppConfig : Type 0 where
  pub environment : String
  pub dashboard_host : String
  pub dashboard_port : ℕ
  pub database_path : String
  pub rules_path : String
  pub diagnosis_provider : String
  pub log_level : String
  pub anthropic_api_key : Option String
  pub groq_api_key : Option String
  pub razorpay_key_id : Option String
  pub razorpay_key_secret : Option String
  pub holdout_fraction : Option Fraction

-- The members of the three `Literal` types.
abbrev pub environments : List String
environments = "development" ∷ "staging" ∷ "production" ∷ "test" ∷ []

abbrev pub providers : List String
providers = "stub" ∷ "baseline" ∷ "groq" ∷ "claude" ∷ []

abbrev pub log_levels : List String
log_levels = "DEBUG" ∷ "INFO" ∷ "WARNING" ∷ "ERROR" ∷ "CRITICAL" ∷ []

-- `os.environ.get(k, default)` and `os.environ.get(k) or None`.
abbrev pub get_or : String → String → Environ → String
get_or k default environ = or_default default (lookup k environ)

abbrev pub get_text : String → Environ → Option String
get_text k environ = elim (lookup k environ) [
  | none ↦ none
  | some v ↦ if has_text v then some v else none
]

unfoldable pub port_raw : Environ → String
port_raw environ = get_or "DASHBOARD_PORT" (get_or "PORT" "8000" environ) environ

unfoldable pub read_port : Environ → ConfigResult Integer
read_port environ = elim (parse_int (port_raw environ)) [
  | none ↦ raised (bad_port (port_raw environ))
  | some n ↦ returned n
]

abbrev pub fraction_of : Host → String → ConfigResult (Option Fraction)
fraction_of host raw = elim (host.to_float raw) [
  | none ↦ raised (bad_fraction raw)
  | some x ↦ elim (unit_interval x) [
    | none ↦ raised (bad_fraction raw)
    | some f ↦ returned (some f)
  ]
]

-- `holdout_frac`.
unfoldable pub read_fraction : Host → Environ → ConfigResult (Option Fraction)
read_fraction host environ = elim (get_text "HOLDOUT_FRACTION" environ) [
  | none ↦ returned none
  | some raw ↦ fraction_of host raw
]

-- `AppConfig(**config_data)` without the checks of its fields.
unfoldable pub config_of : Environ → ℕ → Option Fraction → AppConfig
config_of environ port holdout = record {
  environment = get_or "ENVIRONMENT" (get_or "ENV" "development" environ) environ;
  dashboard_host = get_or "DASHBOARD_HOST" "127.0.0.1" environ;
  dashboard_port = port;
  database_path = get_or "DATABASE_PATH" "data/dev.db" environ;
  rules_path = get_or "RULES_PATH" "agent/policy/rules.yaml" environ;
  diagnosis_provider = lower (get_or "DIAGNOSIS_PROVIDER" "stub" environ);
  log_level = upper (get_or "LOG_LEVEL" "INFO" environ);
  anthropic_api_key = get_text "ANTHROPIC_API_KEY" environ;
  groq_api_key = get_text "GROQ_API_KEY" environ;
  razorpay_key_id = get_text "RAZORPAY_KEY_ID" environ;
  razorpay_key_secret = get_text "RAZORPAY_KEY_SECRET" environ;
  holdout_fraction = holdout;
}

abbrev pub in_unit : Option Fraction → Bool
in_unit none = true
in_unit (some f) = leb f.num f.den

-- The checks of the fields.
unfoldable pub fields_valid : Host → AppConfig → Bool
fields_valid host c =
    elem c.environment environments
    && leb 1 c.dashboard_port
    && leb c.dashboard_port 65535
    && elem c.diagnosis_provider providers
    && elem c.log_level log_levels
    && in_unit c.holdout_fraction
    && host.rules_exist c.rules_path

-- `AppConfig(**config_data)`; a negative port is out of range.
unfoldable pub validated : Host → Environ → Integer → Option Fraction → ConfigResult AppConfig
validated host environ (negative n) holdout = raised validation_failed
validated host environ (natural n) holdout =
    let c = config_of environ n holdout in
    if fields_valid host c then returned c else raised validation_failed

-- The checks at the end of `load_config`.
unfoldable pub check_provider_keys : Bool → AppConfig → ConfigResult (Unit {0})
check_provider_keys required c = do
  raise_if (required && c.diagnosis_provider == "claude" && not (is_some c.anthropic_api_key))
      missing_anthropic
  raise_if (required && c.diagnosis_provider == "groq" && not (is_some c.groq_api_key)) missing_groq

unfoldable pub check_razorpay_keys : Bool → AppConfig → ConfigResult (Unit {0})
check_razorpay_keys required c =
    raise_if (required && (not (is_some c.razorpay_key_id) || not (is_some c.razorpay_key_secret)))
      missing_razorpay

-- `load_config` behind the file, and as a whole.
unfoldable pub settings_of : Host → Environ → Bool → Bool → ConfigResult AppConfig
settings_of host environ require_provider_keys require_razorpay_keys = do
  port ← read_port environ
  holdout ← read_fraction host environ
  config ← validated host environ port holdout
  check_provider_keys require_provider_keys config
  check_razorpay_keys require_razorpay_keys config
  returned config

unfoldable pub load_config : Host → EnvFile → Environ → Bool → Bool → ConfigResult AppConfig
load_config host file environ require_provider_keys require_razorpay_keys = do
  (environ', loaded) ← load_dotenv file environ
  settings_of host environ' require_provider_keys require_razorpay_keys
