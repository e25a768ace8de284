-- ===== src/Config.antt =====
-- agent/config.py: the `.env` file and the settings that the environment gives. The environment is a
-- list of names and values. What `float` gives for a text is a parameter, and so is which files exist.
use downtime_aware_recovery.Common.{
  ◌≡◌, String, Bool, [], List, if◌then◌else◌, false, ◌∷◌, Option, true, none, nat_eq, ◌==◌, not,
  ◌&&◌, ◌||◌, some, leb, is_some, lookup,
}
use downtime_aware_recovery.Text.{has_text, strip}
use Prim.Native.Char.{Char, code}
pub mod Dotenv
pub mod Settings
pub mod Checks
pub mod Taken
pub mod Loading

-- The characters at which `str.splitlines` divides a text; `read_text` has made "\r\n" one "\n".
unfoldable pub is_line_end : Char → Bool
is_line_end c =
    leb 10 (code c) && leb (code c) 13
    || leb 28 (code c) && leb (code c) 30
    || nat_eq (code c) 133
    || leb 8232 (code c) && leb (code c) 8233

-- A character before the first line.
abbrev pub put_first : Char → List String → List String
put_first c [] = (String.◌∷◌ c "") ∷ []
put_first c (l ∷ ls) = (String.◌∷◌ c l) ∷ ls

-- `str.splitlines`.
unfoldable pub split_lines : String → List String
split_lines String.[] = []
split_lines (String.◌∷◌ c s) =
    let rest = split_lines s in if is_line_end c then "" ∷ rest else put_first c rest

-- `str.split("=", 1)`, and none where the text has no "=".
unfoldable pub split_assignment : String → Option (String × String)
split_assignment String.[] = none
split_assignment (String.◌∷◌ c s) =
    let rest = split_assignment s in
    let longer = elim rest as (λ _. Option (String × String)) [
      | none ↦ none
      | some (k, v) ↦ some (String.◌∷◌ c k, v)
    ] in
    if nat_eq (code c) b'=' then some ("", s) else longer

-- `str.strip("'\"")`.
abbrev pub is_quote : Char → Bool
is_quote c = nat_eq (code c) 39 || nat_eq (code c) 34

unfoldable pub lstrip_quotes : String → String
lstrip_quotes String.[] = ""
lstrip_quotes (String.◌∷◌ c s) =
    let rest = lstrip_quotes s in if is_quote c then rest else String.◌∷◌ c s

unfoldable pub rstrip_quotes : String → String
rstrip_quotes String.[] = ""
rstrip_quotes (String.◌∷◌ c s) =
    let rest = rstrip_quotes s in
    if not (has_text rest) && is_quote c then "" else String.◌∷◌ c rest

-- A comment; an empty line is none.
abbrev pub is_comment : String → Bool
is_comment String.[] = false
is_comment (String.◌∷◌ c s) = nat_eq (code c) b'#'

-- The key and the value, stripped; nothing where there is no key.
unfoldable pub named_value : String × String → Option (String × String)
named_value (key, val) =
    if has_text (strip key)
    then some (strip key, rstrip_quotes (lstrip_quotes (strip val)))
    else none

-- What a line assigns.
unfoldable pub parse_line : String → Option (String × String)
parse_line raw =
    let line = strip raw in
    if not (has_text line) || is_comment line
    then none
    else elim (split_assignment line) [ none ↦ none | some parts ↦ named_value parts ]

abbrev pub Environ : Type 0
Environ = List (String × String)

-- `os.environ.setdefault(k, v)`.
unfoldable pub setdefault : String → String → Environ → Environ
setdefault k v [] = (k, v) ∷ []
setdefault k v ((j, u) ∷ m) =
    let rest = setdefault k v m in if k == j then (j, u) ∷ m else (j, u) ∷ rest

-- `loaded[k] = v`.
unfoldable pub insert : String → String → Environ → Environ
insert k v [] = (k, v) ∷ []
insert k v ((j, u) ∷ m) = let rest = insert k v m in if k == j then (k, v) ∷ m else (j, u) ∷ rest

-- What stands at the path of the file.
pub data EnvFile : Type 0 where
  absent unreadable : EnvFile
  content : String → EnvFile

-- The reasons for which a `ConfigurationError` is raised.
pub data ConfigError : Type 0 where
  unreadable_file : ConfigError
  bad_port bad_fraction : String → ConfigError
  validation_failed missing_anthropic missing_groq missing_razorpay : ConfigError

pub data ConfigResult (A : Type 0) : Type 0 where
  returned : A → ConfigResult A
  raised : ConfigError → ConfigResult A

infixl 5 ◌>>=◌ ◌>>◌
abbrev pub ◌>>=◌ : {A B : Type 0} → ConfigResult A → (A → ConfigResult B) → ConfigResult B
returned a >>= f = f a
raised e >>= f = raised e

abbrev pub ◌>>◌ : {A B : Type 0} → ConfigResult A → ConfigResult B → ConfigResult B
m >> k = m >>= λ _. k

abbrev pub raise_if : Bool → ConfigError → ConfigResult (Unit {0})
raise_if true e = raised e
raise_if false e = returned tt

-- A text with a NUL, which no environment variable can have.
unfoldable pub has_nul : String → Bool
has_nul String.[] = false
has_nul (String.◌∷◌ c s) = nat_eq (code c) 0 || has_nul s

-- `setdefault` raises ValueError for it where the name is new.
abbrev pub is_unsettable : String → String → Environ → Bool
is_unsettable k v environ = (has_nul k || has_nul v) && not (is_some (lookup k environ))

-- The body of the loop of `load_dotenv`: the environment, and what was loaded. An exception becomes a
-- ConfigurationError; what earlier lines set stays set in the process.
unfoldable pub load_line :
    Option (String × String) → Environ → Environ → ConfigResult (Environ × Environ)
load_line none environ loaded = returned (environ, loaded)
load_line (some (k, v)) environ loaded =
    if is_unsettable k v environ
    then raised unreadable_file
    else returned (setdefault k v environ, insert k v loaded)

unfoldable pub load_lines : List String → Environ → Environ → ConfigResult (Environ × Environ)
load_lines [] environ loaded = returned (environ, loaded)
load_lines (l ∷ ls) environ loaded =
    load_line (parse_line l) environ loaded >>= λ (environ', loaded').
    load_lines ls environ' loaded'

unfoldable pub load_dotenv : EnvFile → Environ → ConfigResult (Environ × Environ)
load_dotenv absent environ = returned (environ, [])
load_dotenv unreadable environ = raised unreadable_file
load_dotenv (content text) environ = load_lines (split_lines text) environ []
