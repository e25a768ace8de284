-- ===== src/Models/Payment.antt =====
-- agent/models.py: the payment side (Instrument, ErrorObj, PaymentFailure, DowntimeWindow,
-- DowntimeContext). A datetime is a number of microseconds.
use downtime_aware_recovery.Common.{ℕ, ◌*◌, String, Bool, true, ◌&&◌, Option, none, some, ◌==◌}
use downtime_aware_recovery.Models.Enums.{Method}

abbrev pub Time : Type 0
Time = ℕ

-- `timedelta(seconds=n)` and `timedelta(minutes=n)`.
abbrev pub seconds : ℕ → Time
seconds n = n * 1000000

abbrev pub minutes : ℕ → Time
minutes n = n * 60000000

pub record Instrument : Type 0 where
  pub bank : Option String
  pub network : Option String
  pub card_type : Option String
  pub vpa_handle : Option String

-- One entry of the comprehension in `Instrument.matches`: a field that the scope leaves out fits
-- everything, and a field that it names has to be equal.
abbrev pub covers : Option String → Option String → Bool
covers mine none = true
covers none (some v) = Bool.false
covers (some u) (some v) = u == v

pub matches : Instrument → Instrument → Bool
matches self other =
    covers self.bank other.bank
    && covers self.network other.network
    && covers self.card_type other.card_type
    && covers self.vpa_handle other.vpa_handle

pub record ErrorObj : Type 0 where
  pub code : String
  pub source : String
  pub step : String
  pub reason : String
  pub description : String

pub record PaymentFailure : Type 0 where
  pub case_id : String
  pub customer_id : String
  pub order_id : String
  pub created_at : Time
  pub method : Method
  pub instrument : Instrument
  pub amount_paise : ℕ
  pub is_recurring : Bool
  pub mandate_id : Option String
  pub attempt_no : ℕ
  pub error : ErrorObj

pub record DowntimeWindow : Type 0 where
  pub id : String
  pub method : Method
  pub instrument : Instrument
  pub begin : Time
  pub end : Option Time
  pub status : String
  pub scheduled : Bool
  pub severity : String
  pub flow : Option String

pub record DowntimeContext : Type 0 where
  pub active : Bool
  pub severity : Option String
  pub scheduled : Option Bool
  pub instrument_match : Bool
  pub expected_end : Option Time
  pub window_id : Option String

-- `DowntimeContext()`.
abbrev pub no_downtime : DowntimeContext
no_downtime = record {
  active = Bool.false;
  severity = none;
  scheduled = none;
  instrument_match = Bool.false;
  expected_end = none;
  window_id = none;
}
