-- ===== src/Config/Checks.antt =====
-- What holds of the settings that `load_config` of agent/config.py returns.
use downtime_aware_recovery.Common.{
  ◌≡◌, refl, none, some, Bool, Option, ◌&&◌, false, not, true, ◌≤◌, arith, elem, ◌||◌, ◌==◌,
  is_some, if◌then◌else◌, ℕ, leb, subst,
}
use downtime_aware_recovery.Config.{
  ◌>>=◌, ConfigResult, raised, returned, raise_if, Environ, ConfigError, missing_anthropic,
  missing_razorpay, missing_groq, validation_failed,
}
use downtime_aware_recovery.Config.Settings.{
  AppConfig, Host, check_provider_keys, check_razorpay_keys, config_of, in_unit, environments,
  providers, log_levels, fields_valid, validated, Integer, negative, natural,
}
use downtime_aware_recovery.Fraction.{Fraction}

-- What follows from a bind that returned, for every value that its first part may have returned.
pub on_returned :
    {A B R : Type 0} (m : ConfigResult A) (f : A → ConfigResult B) {b : B}
    → (m >>= f) ≡ returned b
    → ((a : A) → m ≡ returned a → f a ≡ returned b → R)
    → R
on_returned (returned a) f h k = k a refl h
on_returned (raised e) f h k = absurd (cc)

raise_if-eq-returned :
    (b : Bool) (e : ConfigError) {u : Unit {0}} → raise_if b e ≡ returned u → b ≡ false
raise_if-eq-returned true e h = cc
raise_if-eq-returned false e h = refl

abbrev pub InUnit : Option Fraction → Type 0
InUnit none = Unit
InUnit (some f) = f.num ≤ f.den

-- If keys are required, the selected provider has its key.
abbrev pub has_provider_key : Bool → AppConfig → Bool
has_provider_key required c =
    not required
    || (not (c.diagnosis_provider == "claude") || is_some c.anthropic_api_key)
      && (not (c.diagnosis_provider == "groq") || is_some c.groq_api_key)

abbrev pub has_razorpay_keys : Bool → AppConfig → Bool
has_razorpay_keys required c =
    not required || is_some c.razorpay_key_id && is_some c.razorpay_key_secret

pub record IsUsable (host : Host) (provider_keys razorpay_keys : Bool) (c : AppConfig)
    : Type 0 where
  pub port_low : 1 ≤ c.dashboard_port
  pub port_high : c.dashboard_port ≤ 65535
  pub fraction : InUnit c.holdout_fraction
  pub environment : elem c.environment environments ≡ true
  pub provider : elem c.diagnosis_provider providers ≡ true
  pub level : elem c.log_level log_levels ≡ true
  pub rules : host.rules_exist c.rules_path ≡ true
  pub provider_key : has_provider_key provider_keys c ≡ true
  pub razorpay : has_razorpay_keys razorpay_keys c ≡ true

in_unit-InUnit : (f : Option Fraction) → in_unit f ≡ true → InUnit f
in_unit-InUnit none h = tt
in_unit-InUnit (some f) h = ground arith

both_keys :
    (r p q k l : Bool)
    → r && p && not k ≡ false
    → r && q && not l ≡ false
    → not r || (not p || k) && (not q || l) ≡ true
both_keys r p q k l h g = ground arith

pub provider-keys :
    (required : Bool) (c : AppConfig) {u : Unit {0}}
    → check_provider_keys required c ≡ returned u
    → has_provider_key required c ≡ true
unfolding check_provider_keys
provider-keys required c h = on_returned (raise_if _ missing_anthropic) _ h λ v first rest.
    both_keys required (c.diagnosis_provider == "claude") (c.diagnosis_provider == "groq")
      (is_some c.anthropic_api_key) (is_some c.groq_api_key)
      (raise_if-eq-returned _ missing_anthropic first) (raise_if-eq-returned _ missing_groq rest)

two_keys : (r k l : Bool) → r && (not k || not l) ≡ false → not r || k && l ≡ true
two_keys r k l h = ground arith

pub razorpay-keys :
    (required : Bool) (c : AppConfig) {u : Unit {0}}
    → check_razorpay_keys required c ≡ returned u
    → has_razorpay_keys required c ≡ true
unfolding check_razorpay_keys
razorpay-keys required c h =
    two_keys required (is_some c.razorpay_key_id) (is_some c.razorpay_key_secret)
      (raise_if-eq-returned _ missing_razorpay h)

-- What passes the checks of the fields.
abbrev pub PassesChecks : Host → AppConfig → Type 0
PassesChecks host c =
    (1 ≤ c.dashboard_port)
    × (c.dashboard_port ≤ 65535)
    × InUnit c.holdout_fraction
    × (elem c.environment environments ≡ true)
    × (elem c.diagnosis_provider providers ≡ true)
    × (elem c.log_level log_levels ≡ true)
    × (host.rules_exist c.rules_path ≡ true)

seven :
    (a b c d e f g : Bool)
    → a && b && c && d && e && f && g ≡ true
    → (a ≡ true) × (b ≡ true) × (c ≡ true) × (d ≡ true) × (e ≡ true) × (f ≡ true) × (g ≡ true)
seven a b c d e f g h = ground arith

leb_le : (m n : ℕ) → leb m n ≡ true → m ≤ n
leb_le m n h = ground arith

fields_valid-PassesChecks :
    (host : Host) (c : AppConfig) → fields_valid host c ≡ true → PassesChecks host c
unfolding fields_valid
fields_valid-PassesChecks host c h =
    let (env, low, high, prov, level, frac, rules) = seven _ _ _ _ _ _ _ h in
    (
      leb_le _ _ low,
      leb_le _ _ high,
      in_unit-InUnit c.holdout_fraction frac,
      env,
      prov,
      level,
      rules,
    )

pub if-eq-returned :
    {A : Type 0} (b : Bool) (a c : A) (e : ConfigError)
    → (if b then returned a else raised e) ≡ returned c
    → (b ≡ true) × (a ≡ c)
if-eq-returned true a c e h = (refl, cc)
if-eq-returned false a c e h = cc

pub validated-PassesChecks :
    (host : Host) (environ : Environ) (n : Integer) (f : Option Fraction) (c : AppConfig)
    → validated host environ n f ≡ returned c
    → PassesChecks host c
unfolding validated
validated-PassesChecks host environ (negative n) f c h = cc
validated-PassesChecks host environ (natural n) f c h =
    let (ok, same) =
      if-eq-returned (fields_valid host (config_of environ n f)) _ c validation_failed h in
    subst (PassesChecks host) same (fields_valid-PassesChecks host (config_of environ n f) ok)
