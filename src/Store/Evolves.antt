-- ===== src/Store/Evolves.antt =====
-- What every action of the program does to the database: events are only added, and a case keeps its
-- identity while its counters grow and its state follows the permitted transitions.
use mathlib.Core.List.{append-nil, append_assoc}
use downtime_aware_recovery.Common.{
  ◌≤◌, ◌≡◌, refl, sym, ◌∙◌, String, arith, [], List, true, ◌++◌, ap, some,
}
use downtime_aware_recovery.Store.{Env, CaseRow, World, EventRow}
use downtime_aware_recovery.Store.Cases.{apply_sets, Sets, find_case}
use downtime_aware_recovery.Models.Enums.{CaseState}
use downtime_aware_recovery.State.Graph.{here, ⟶*-trans, ◌⟶*◌, next}
use downtime_aware_recovery.State.{is_allowed}
use downtime_aware_recovery.Audit.{verify_chain}

-- A later version of a row.
pub record Later (r r' : CaseRow) : Type 0 where
  pub same_case : r'.case_id ≡ r.case_id
  pub same_cohort : r'.cohort ≡ r.cohort
  pub same_order : r'.order_id ≡ r.order_id
  pub same_amount : r'.amount_paise ≡ r.amount_paise
  pub attempts_grow : r.attempts ≤ r'.attempts
  pub version_grows : r.version ≤ r'.version
  pub permitted : r.state ⟶* r'.state

pub Later-refl : (r : CaseRow) → Later r r
Later-refl r = record {
  same_case = refl;
  same_cohort = refl;
  same_order = refl;
  same_amount = refl;
  attempts_grow = omega arith;
  version_grows = omega arith;
  permitted = here;
}

pub Later-trans : {a b c : CaseRow} → Later a b → Later b c → Later a c
Later-trans p q = record {
  same_case = q.same_case ∙ p.same_case;
  same_cohort = q.same_cohort ∙ p.same_cohort;
  same_order = q.same_order ∙ p.same_order;
  same_amount = q.same_amount ∙ p.same_amount;
  attempts_grow = omega arith;
  version_grows = omega arith;
  permitted = ⟶*-trans p.permitted q.permitted;
}

pub Later-apply_sets :
    (target : CaseState) (sets : Sets) (r : CaseRow)
    → is_allowed r.state target ≡ true
    → Later r (apply_sets target sets r)
unfolding apply_sets
Later-apply_sets target sets r a = record {
  same_case = refl;
  same_cohort = refl;
  same_order = refl;
  same_amount = refl;
  attempts_grow = ground arith;
  version_grows = omega arith;
  permitted = next a here;
}

-- From `w` to `w'`: the log is longer by some events and still verifies if it did, and every case
-- that was there is there in a later version.
pub record Evolves (env : Env) (w w' : World) : Type 0 where
  pub appended : (more : List EventRow) × (w'.events ≡ w.events ++ more)
  pub verifies : verify_chain env w.events ≡ true → verify_chain env w'.events ≡ true
  pub followed :
      (id : String) (r : CaseRow)
      → find_case id w.cases ≡ some r
      → (r' : CaseRow) × (find_case id w'.cases ≡ some r') × Later r r'

module _ (env : Env) where
  pub Evolves-refl : (w : World) → Evolves env w w
  Evolves-refl w = record {
    appended = ([], sym (append-nil w.events));
    verifies = λ h. h;
    followed = λ id r found. (r, found, Later-refl r);
  }

  pub Evolves-trans : {a b c : World} → Evolves env a b → Evolves env b c → Evolves env a c
  Evolves-trans {a} {b} {c} p q = record {
    appended = (
      p.appended.0 ++ q.appended.0,
      q.appended.1
          ∙ ap (λ es. es ++ q.appended.0) p.appended.1
          ∙ append_assoc a.events p.appended.0 q.appended.0,
    );
    verifies = λ h. q.verifies (p.verifies h);
    followed = λ id r found.
        let (s, there, l) = p.followed id r found in
        let (t, then_there, m) = q.followed id s there in (t, then_there, Later-trans l m);
  }

  -- Only the readings, the actions or the windows change.
  pub Evolves-same : (w w' : World) → w'.cases ≡ w.cases → w'.events ≡ w.events → Evolves env w w'
  Evolves-same w w' c e = record {
    appended = ([], e ∙ sym (append-nil w.events));
    verifies = λ h. rw e h;
    followed = λ id r found. (r, rw c found, Later-refl r);
  }
