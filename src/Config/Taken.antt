-- ===== src/Config/Taken.antt =====
-- Which names of the environment the settings of agent/config.py come from.
use downtime_aware_recovery.Common.{
  ◌≡◌, refl, String, List, [], ◌∷◌, Option, none, some, lookup, or_default, ap, ◌∙◌, subst, ℕ,
  Option-cases, inl, arith, inr,
}
use downtime_aware_recovery.Config.{
  Environ, ConfigResult, returned, raised, validation_failed, bad_port, bad_fraction,
}
use downtime_aware_recovery.Config.Settings.{
  AppConfig, Host, Float, Integer, natural, negative, config_of, fields_valid, get_text, parse_int,
  port_raw, read_fraction, read_port, fraction_of, unit_interval, upper, validated,
}
use downtime_aware_recovery.Config.Checks.{if-eq-returned}
use downtime_aware_recovery.Fraction.{Fraction}
use downtime_aware_recovery.Text.{lower}

-- The value of the first of the names that is set, or the default.
abbrev pub value_of : List String → String → Environ → String
value_of [] default environ = default
value_of (k ∷ ks) default environ = or_default (value_of ks default environ) (lookup k environ)

-- The holdout fraction is the number that the text gives, or is left open where there is no text.
abbrev pub IsFraction : Host → Option String → Option Fraction → Type 0
IsFraction host none chosen = chosen ≡ none
IsFraction host (some raw) chosen =
    (x : Float) × (host.to_float raw ≡ some x)
    × ((f : Fraction) × (unit_interval x ≡ some f) × (chosen ≡ some f))

-- Every setting is the one that the environment names, or its default.
pub record IsTaken (host : Host) (environ : Environ) (c : AppConfig) : Type 0 where
  pub environment : c.environment ≡ value_of ("ENVIRONMENT" ∷ "ENV" ∷ []) "development" environ
  pub address : c.dashboard_host ≡ value_of ("DASHBOARD_HOST" ∷ []) "127.0.0.1" environ
  pub port :
      parse_int (value_of ("DASHBOARD_PORT" ∷ "PORT" ∷ []) "8000" environ)
      ≡ some (natural c.dashboard_port)
  pub database : c.database_path ≡ value_of ("DATABASE_PATH" ∷ []) "data/dev.db" environ
  pub rules : c.rules_path ≡ value_of ("RULES_PATH" ∷ []) "agent/policy/rules.yaml" environ
  pub provider : c.diagnosis_provider ≡ lower (value_of ("DIAGNOSIS_PROVIDER" ∷ []) "stub" environ)
  pub level : c.log_level ≡ upper (value_of ("LOG_LEVEL" ∷ []) "INFO" environ)
  pub anthropic : c.anthropic_api_key ≡ get_text "ANTHROPIC_API_KEY" environ
  pub groq : c.groq_api_key ≡ get_text "GROQ_API_KEY" environ
  pub razorpay_id : c.razorpay_key_id ≡ get_text "RAZORPAY_KEY_ID" environ
  pub razorpay_secret : c.razorpay_key_secret ≡ get_text "RAZORPAY_KEY_SECRET" environ
  pub fraction : IsFraction host (get_text "HOLDOUT_FRACTION" environ) c.holdout_fraction

parsed :
    (o : Option Integer) (raw : String) {n : Integer}
    → (elim o as (λ _. ConfigResult Integer) [ none ↦ raised (bad_port raw) | some m ↦ returned m ])
      ≡ returned n
    → o ≡ some n
parsed none raw h = cc
parsed (some m) raw h = cc

read_port-value :
    (environ : Environ) (n : Integer)
    → read_port environ ≡ returned n
    → parse_int (value_of ("DASHBOARD_PORT" ∷ "PORT" ∷ []) "8000" environ) ≡ some n
unfolding read_port port_raw
read_port-value environ n h = parsed (parse_int (port_raw environ)) (port_raw environ) h

from_unit :
    (u : Option Fraction) (raw : String) (f : Option Fraction)
    → (elim u as (λ _. ConfigResult (Option Fraction)) [
      | none ↦ raised (bad_fraction raw)
      | some g ↦ returned (some g)
    ])
      ≡ returned f
    → (g : Fraction) × (u ≡ some g) × (f ≡ some g)
from_unit none raw f h = cc
from_unit (some g) raw f h = (g, refl, cc)

fraction_of-IsFraction :
    (host : Host) (raw : String) (f : Option Fraction)
    → fraction_of host raw ≡ returned f
    → IsFraction host (some raw) f
fraction_of-IsFraction host raw f h = elim (Option-cases (host.to_float raw)) [
  | inl bad ↦ absurd (ground arith)
  | inr (x, good) ↦ (x, good, from_unit (unit_interval x) raw f (rw (good, fraction_of) at h))
]

fraction_taken :
    (host : Host) (o : Option String) (f : Option Fraction)
    → (elim o as (λ _. ConfigResult (Option Fraction)) [
      | none ↦ returned none
      | some raw ↦ fraction_of host raw
    ])
      ≡ returned f
    → IsFraction host o f
fraction_taken host none f h = cc
fraction_taken host (some raw) f h = fraction_of-IsFraction host raw f h

read_fraction-IsFraction :
    (host : Host) (environ : Environ) (f : Option Fraction)
    → read_fraction host environ ≡ returned f
    → IsFraction host (get_text "HOLDOUT_FRACTION" environ) f
unfolding read_fraction
read_fraction-IsFraction host environ f h =
    fraction_taken host (get_text "HOLDOUT_FRACTION" environ) f h

-- The checks change neither the port nor the fraction.
validated-kept :
    (host : Host) (environ : Environ) (n : Integer) (f : Option Fraction) (c : AppConfig)
    → validated host environ n f ≡ returned c
    → (m : ℕ) × (n ≡ natural m) × (config_of environ m f ≡ c)
unfolding validated
validated-kept host environ (negative n) f c h = cc
validated-kept host environ (natural n) f c h = (
  n,
  refl,
  (if-eq-returned (fields_valid host (config_of environ n f)) _ c validation_failed h).1,
)

pub taken :
    (host : Host) (environ : Environ) (n : Integer) (f : Option Fraction) (c : AppConfig)
    → read_port environ ≡ returned n
    → read_fraction host environ ≡ returned f
    → validated host environ n f ≡ returned c
    → IsTaken host environ c
unfolding config_of
taken host environ n f c port fraction valid =
    let (m, whole, same) = validated-kept host environ n f c valid in
    subst (IsTaken host environ) same (record {
      environment = refl;
      address = refl;
      port = read_port-value environ n port ∙ ap some whole;
      database = refl;
      rules = refl;
      provider = refl;
      level = refl;
      anthropic = refl;
      groq = refl;
      razorpay_id = refl;
      razorpay_secret = refl;
      fraction = read_fraction-IsFraction host environ f fraction;
    })
