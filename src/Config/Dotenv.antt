-- ===== src/Config/Dotenv.antt =====
-- What `load_dotenv` of agent/config.py does to the environment.
use downtime_aware_recovery.Common.{
  ◌≡◌, refl, String, List, Option, none, some, lookup, if◌then◌else◌, ◌==◌, ◌∷◌, [], arith, eq_iff,
  ◌∙◌, sym, ap, Bool, Bool-cases, is_some, false, inl, true, ◌||◌, inr, ◌⊎◌,
}
use downtime_aware_recovery.Config.{
  insert, setdefault, Environ, parse_line, load_lines, load_dotenv, load_line, content, returned,
  split_lines, ConfigResult, ◌>>=◌, is_unsettable, raised, unreadable_file,
}

-- The assignments of the lines, in order.
abbrev pub assigned : Option (String × String) → List (String × String) → List (String × String)
assigned none rest = rest
assigned (some kv) rest = kv ∷ rest

unfoldable pub assignments : List String → List (String × String)
assignments [] = []
assignments (l ∷ ls) = assigned (parse_line l) (assignments ls)

abbrev pub first_some : Option String → Option String → Option String
first_some none b = b
first_some (some a) b = some a

-- The value of the last pair with a key.
unfoldable pub last_value : String → List (String × String) → Option String
last_value k [] = none
last_value k ((j, v) ∷ m) = first_some (last_value k m) (if k == j then some v else none)

lookup-setdefault :
    (j k v : String) (m : Environ)
    → lookup j (setdefault k v m) ≡ first_some (lookup j m) (if j == k then some v else none)
unfolding setdefault
lookup-setdefault j k v [] = refl
lookup-setdefault j k v ((i, u) ∷ m) =
    ground (arith, eq_iff j k, eq_iff j i, eq_iff k i, lookup-setdefault j k v m)

lookup-insert :
    (j k v : String) (m : Environ)
    → lookup j (insert k v m) ≡ (if j == k then some v else lookup j m)
unfolding insert
lookup-insert j k v [] = refl
lookup-insert j k v ((i, u) ∷ m) =
    ground (arith, eq_iff k j, eq_iff j k, eq_iff k i, eq_iff j i, lookup-insert j k v m)

pub first_some-none : (a : Option String) → first_some a none ≡ a
first_some-none none = refl
first_some-none (some a) = refl

first_some_assoc :
    (a b c : Option String) → first_some (first_some a b) c ≡ first_some a (first_some b c)
first_some_assoc none b c = refl
first_some_assoc (some a) b c = refl

last_or :
    (k : String) (o : Option (String × String)) (rest : List (String × String)) (b : Option String)
    → first_some (last_value k (assigned o rest)) b
      ≡ first_some (last_value k rest) (first_some (last_value k (assigned o [])) b)
unfolding last_value
last_or k none rest b = refl
last_or k (some (j, v)) rest b =
    first_some_assoc (last_value k rest) (if k == j then some v else none) b

first_or :
    (k : String) (o : Option (String × String)) (rest : List (String × String)) (a : Option String)
    → first_some (first_some a (lookup k (assigned o []))) (lookup k rest)
      ≡ first_some a (lookup k (assigned o rest))
first_or k none rest none = refl
first_or k none rest (some a) = refl
first_or k (some (j, v)) rest a = ground arith

-- Some assignment cannot be made in the environment.
abbrev pub blocks : Environ → List (String × String) → Bool
blocks environ [] = false
blocks environ ((k, v) ∷ ps) = is_unsettable k v environ || blocks environ ps

blocks-fewer :
    (environ environ' : Environ)
    → ((k : String) → is_some (lookup k environ') ≡ false → is_some (lookup k environ) ≡ false)
    → (ps : List (String × String)) → blocks environ' ps ≡ true
    → blocks environ ps ≡ true
blocks-fewer environ environ' fewer [] h = h
blocks-fewer environ environ' fewer ((k, v) ∷ ps) h =
    ground (arith, fewer k, blocks-fewer environ environ' fewer ps)

-- What reading lines comes to.
abbrev pub Reads :
    List (String × String) → Environ → Environ → ConfigResult (Environ × Environ) → Type 0
Reads ps environ loaded (raised e) = (e ≡ unreadable_file) × (blocks environ ps ≡ true)
Reads ps environ loaded (returned (environ', loaded')) =
    (k : String)
    → (lookup k environ' ≡ first_some (lookup k environ) (lookup k ps))
      × (lookup k loaded' ≡ first_some (last_value k ps) (lookup k loaded))

load_line-Reads :
    (o : Option (String × String)) (environ loaded : Environ)
    → Reads (assigned o []) environ loaded (load_line o environ loaded)
unfolding load_line last_value
load_line-Reads none environ loaded = λ k. (sym (first_some-none (lookup k environ)), refl)
load_line-Reads (some (j, v)) environ loaded = elim (Bool-cases (is_unsettable j v environ)) [
  | inl refused ↦ rw refused (refl, rw refused refl)
  | inr set ↦
      rw set (λ k. (lookup-setdefault k j v environ, lookup-insert k j v loaded ∙ ground arith))
]

blocks-first :
    (o : Option (String × String)) (ps : List (String × String)) (environ : Environ)
    → blocks environ (assigned o []) ≡ true
    → blocks environ (assigned o ps) ≡ true
blocks-first none ps environ h = cc
blocks-first (some (k, v)) ps environ h = ground arith

blocks-later :
    (o : Option (String × String)) (ps : List (String × String)) (environ : Environ)
    → blocks environ ps ≡ true
    → blocks environ (assigned o ps) ≡ true
blocks-later none ps environ h = h
blocks-later (some (k, v)) ps environ h = ground arith

was-none : (a b c : Option String) → a ≡ first_some b c → is_some a ≡ false → is_some b ≡ false
was-none a none c h n = refl
was-none a (some x) c h n = ground arith

chain-Reads :
    (o : Option (String × String)) (ps : List (String × String))
    (environ loaded environ' loaded' : Environ) (out : ConfigResult (Environ × Environ))
    → Reads (assigned o []) environ loaded (returned (environ', loaded'))
    → Reads ps environ' loaded' out
    → Reads (assigned o ps) environ loaded out
chain-Reads o ps environ loaded environ' loaded' (raised e) first (same, blocked) = (
  same,
  blocks-later o ps environ (
      blocks-fewer environ environ'
        (λ k n.
          was-none (lookup k environ') (lookup k environ) (lookup k (assigned o [])) (first k).0 n)
        ps blocked),
)
chain-Reads o ps environ loaded environ' loaded' (returned (environ2, loaded2)) first rest = λ k. (
  (rest k).0
      ∙ ap (λ a. first_some a (lookup k ps)) (first k).0
      ∙ first_or k o ps (lookup k environ),
  (rest k).1
      ∙ ap (first_some (last_value k ps)) (first k).1
      ∙ sym (last_or k o ps (lookup k loaded)),
)

bind-Reads :
    (o : Option (String × String)) (ps : List (String × String)) (environ loaded : Environ)
    (out : ConfigResult (Environ × Environ))
    (next : Environ × Environ → ConfigResult (Environ × Environ))
    → Reads (assigned o []) environ loaded out
    → ((environ' loaded' : Environ) → Reads ps environ' loaded' (next (environ', loaded')))
    → Reads (assigned o ps) environ loaded (out >>= next)
bind-Reads o ps environ loaded (raised e) next (same, blocked) rest =
    (same, blocks-first o ps environ blocked)
bind-Reads o ps environ loaded (returned (environ', loaded')) next first rest =
    chain-Reads o ps environ loaded environ' loaded' (next (environ', loaded')) first
      (rest environ' loaded')

pub load_lines-Reads :
    (ls : List String) (environ loaded : Environ)
    → Reads (assignments ls) environ loaded (load_lines ls environ loaded)
unfolding load_lines assignments last_value
load_lines-Reads [] environ loaded = λ k. (sym (first_some-none (lookup k environ)), refl)
load_lines-Reads (l ∷ ls) environ loaded =
    bind-Reads (parse_line l) (assignments ls) environ loaded
      (load_line (parse_line l) environ loaded)
      (λ (environ', loaded'). load_lines ls environ' loaded')
      (load_line-Reads (parse_line l) environ loaded)
      λ environ' loaded'. load_lines-Reads ls environ' loaded'

-- What a call of `load_dotenv` on a file with these assignments comes to.
abbrev pub IsRead : List (String × String) → Environ → ConfigResult (Environ × Environ) → Type 0
IsRead ps environ out =
    ((out ≡ raised unreadable_file) × (blocks environ ps ≡ true))
    ⊎ ((environ' loaded : Environ) × (out ≡ returned (environ', loaded))
        × ((k : String)
            → (lookup k environ' ≡ first_some (lookup k environ) (lookup k ps))
              × (lookup k loaded ≡ last_value k ps)))

Reads-IsRead :
    (ps : List (String × String)) (environ : Environ) (out : ConfigResult (Environ × Environ))
    → Reads ps environ [] out
    → IsRead ps environ out
Reads-IsRead ps environ (raised e) (same, blocked) = inl (ap raised same, blocked)
Reads-IsRead ps environ (returned (environ', loaded)) h =
    inr (environ', loaded, refl, λ k. ((h k).0, (h k).1 ∙ first_some-none (last_value k ps)))

-- Reading a file with `load_dotenv` raises a ConfigurationError only if some line assigns a name that
-- the environment does not have, with a NUL in the name or the value. Otherwise it returns, and then
-- for every name the environment keeps its value if it had one and has otherwise that of the first
-- line that assigns the name, or none; what is reported as loaded has the value of the last such
-- line, whether or not the environment took it.
pub load_dotenv-lookup :
    (text : String) (environ : Environ)
    → IsRead (assignments (split_lines text)) environ (load_dotenv (content text) environ)
unfolding load_dotenv
load_dotenv-lookup text environ =
    Reads-IsRead (assignments (split_lines text)) environ (load_lines (split_lines text) environ [])
      (load_lines-Reads (split_lines text) environ [])
