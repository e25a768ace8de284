-- ===== src/Config/Loading.antt =====
-- What `load_config` of agent/config.py returns, as a whole.
use downtime_aware_recovery.Common.{
  refl, ◌≡◌, [], List, String, Bool, lookup, sym, Option, true, subst,
}
use downtime_aware_recovery.Config.{
  returned, load_dotenv, Environ, EnvFile, absent, unreadable, content, split_lines,
}
use downtime_aware_recovery.Config.Dotenv.{
  first_some, assignments, first_some-none, load_lines-Reads, Reads, last_value,
}
use downtime_aware_recovery.Config.Checks.{
  on_returned, IsUsable, has_provider_key, has_razorpay_keys, provider-keys, razorpay-keys,
  validated-PassesChecks,
}
use downtime_aware_recovery.Config.Settings.{
  AppConfig, Host, load_config, settings_of, Integer, read_port, read_fraction, validated,
  check_provider_keys, check_razorpay_keys,
}
use downtime_aware_recovery.Config.Taken.{IsTaken, taken}
use downtime_aware_recovery.Fraction.{Fraction}

-- The lines of a file; none where there is no file to read.
abbrev pub lines_of : EnvFile → List String
lines_of (content text) = split_lines text
lines_of _ = []

-- The settings are those of an environment in which a name has its value from before, or else that
-- of the first line of the file that assigns it.
abbrev pub IsFrom : Host → EnvFile → Environ → AppConfig → Environ → Type 0
IsFrom host file environ c environ' =
    IsTaken host environ' c
    × ((k : String)
        → lookup k environ'
          ≡ first_some (lookup k environ) (lookup k (assignments (lines_of file))))

dotenv-keeps :
    (file : EnvFile) (environ : Environ) (pair : Environ × Environ)
    → load_dotenv file environ ≡ returned pair
    → (k : String)
    → lookup k pair.0 ≡ first_some (lookup k environ) (lookup k (assignments (lines_of file)))
unfolding load_dotenv assignments last_value
dotenv-keeps absent environ pair h k =
    (subst (Reads [] environ []) h (λ j. (sym (first_some-none (lookup j environ)), refl)) k).0
dotenv-keeps unreadable environ pair h k = cc
dotenv-keeps (content text) environ pair h k =
    (subst (Reads (assignments (split_lines text)) environ []) h
      (load_lines-Reads (split_lines text) environ []) k).0

-- From the settings that passed the checks of the fields to those that were returned.
usable :
    (host : Host) (environ : Environ) (p r : Bool) (n : Integer) (f : Option Fraction)
    (d c : AppConfig)
    → read_port environ ≡ returned n
    → read_fraction host environ ≡ returned f
    → validated host environ n f ≡ returned d
    → has_provider_key p d ≡ true
    → has_razorpay_keys r d ≡ true
    → d ≡ c
    → IsUsable host p r c × IsTaken host environ c
usable host environ p r n f d c port fraction valid keys razorpay same =
    let fields = validated-PassesChecks host environ n f d valid in
    subst (λ c. IsUsable host p r c × IsTaken host environ c) same
      (
        record {
          port_low = fields.0;
          port_high = fields.1;
          fraction = fields.2;
          environment = fields.3;
          provider = fields.4;
          level = fields.5;
          rules = fields.6;
          provider_key = keys;
          razorpay = razorpay;
        },
        taken host environ n f d port fraction valid,
      )

-- What a run of `load_config` behind the file returns.
settings-IsUsable :
    (host : Host) (environ : Environ) (p r : Bool) (c : AppConfig)
    → settings_of host environ p r ≡ returned c
    → IsUsable host p r c × IsTaken host environ c
unfolding settings_of
settings-IsUsable host environ p r c h = on_returned (read_port environ) _ h λ n port h2.
    on_returned (read_fraction host environ) _ h2 λ f fraction h3.
      on_returned (validated host environ n f) _ h3 λ d valid h4.
        on_returned (check_provider_keys p d) _ h4 λ _ keys h5.
          on_returned (check_razorpay_keys r d) _ h5 λ _ razorpay h6.
            usable host environ p r n f d c port fraction valid (provider-keys p d keys)
              (razorpay-keys r d razorpay) (cc)

-- Settings that `load_config` returns are usable: the port is a port, the holdout fraction is in the
-- unit interval, every choice is one of the permitted ones, the rules file exists and required
-- credentials are there. There is an environment in which every name has the value that it had before
-- the call, or else that of the first line of the file that assigns it; and every setting, the port and
-- the holdout fraction among them, is what the first of its names that is set in that environment
-- says, or its default.
pub load_config-IsUsable :
    (host : Host) (file : EnvFile) (environ : Environ) (p r : Bool) (c : AppConfig)
    → load_config host file environ p r ≡ returned c
    → IsUsable host p r c × ((environ' : Environ) × IsFrom host file environ c environ')
unfolding load_config
load_config-IsUsable host file environ p r c h =
    on_returned (load_dotenv file environ) _ h λ pair read rest.
      let (usable, from) = settings-IsUsable host pair.0 p r c rest in
      (usable, (pair.0, (from, dotenv-keeps file environ pair read)))
