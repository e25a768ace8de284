-- ===== src/Store/Exec.antt =====
-- Actions on the database: state and exceptions. The connection commits each statement by itself
-- (`isolation_level=None` in agent/db.py), so what was written stays written after a raise.
use downtime_aware_recovery.Common.{suc, String, Bool, Option, none, some, if◌then◌else◌}
use downtime_aware_recovery.Models.Enums.{CaseState}
use downtime_aware_recovery.Models.Payment.{Time}
use downtime_aware_recovery.Models.Json.{Message}
use downtime_aware_recovery.Contracts.Codes.{ActionErrorCode, UncertaintyCode}
use downtime_aware_recovery.Store.{World, Env}

-- The exceptions that the modelled code raises.
pub data Error : Type 0 where
  key_error : String → Error
  value_error : Error
  type_error : Error
  integrity_error : Error
  illegal_transition : CaseState → CaseState → Error
  concurrent_modification : String → Error
  refused : ActionErrorCode → Message → Error
  uncertain : UncertaintyCode → Message → String → Error
  reconciliation_error : Error

pub data Result (A : Type 0) : Type 0 where
  ok : A → Result A
  err : Error → Result A

abbrev pub Exec : Type 0 → Type 0
Exec A = World → Result A × World

module _ {A : Type 0} where
  abbrev pub pure : A → Exec A
  pure a w = (ok a, w)

  abbrev pub raise : Error → Exec A
  raise e w = (err e, w)

  abbrev pub gets : (World → A) → Exec A
  gets f w = (ok (f w), w)

  abbrev pub or_raise : Option A → Error → Exec A
  or_raise none e w = (err e, w)
  or_raise (some a) e w = (ok a, w)

infixl 5 ◌>>=◌ ◌>>◌
abbrev pub ◌>>=◌ : {A B : Type 0} → Exec A → (A → Exec B) → Exec B
◌>>=◌ m f w = let (r, w') = m w in elim r [ ok a ↦ f a w' | err e ↦ (err e, w') ]

abbrev pub ◌>>◌ : {A B : Type 0} → Exec A → Exec B → Exec B
m >> k = m >>= λ _. k

abbrev pub lift : {A : Type 0} → Result A → Exec A
lift (ok a) w = (ok a, w)
lift (err e) w = (err e, w)

abbrev pub raise_if : Bool → Error → Exec (Unit {0})
raise_if c e w = (if c then err e else ok tt, w)

abbrev pub modify : (World → World) → Exec (Unit {0})
modify f w = (ok tt, f w)

-- `clock.now()`.
abbrev pub now : Env → Exec Time
now env w = (ok (env.now_at w.reads), record w { reads = suc w.reads })

-- `str(uuid.uuid4())`.
abbrev pub new_id : Env → Exec String
new_id env w = (ok (env.uuid_at w.reads), record w { reads = suc w.reads })
