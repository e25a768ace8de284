-- ===== src/Harness/Scored.antt =====
-- The sealed corpus of evalharness/run.py is scored once, unless a later run says that it rescores.
use downtime_aware_recovery.Common.{
  ◌∷◌, [], ◌≡◌, refl, ◌++◌, true, false, ◌==◌, List, inl, inr, All, ap, not, ◌∙◌, is_empty, ◌&&◌,
  sym, arith, Bool-cases, String, if◌then◌else◌, eq_iff,
}
use downtime_aware_recovery.Harness.Sealed.{
  Attempt, Logs, ScoringEntry, begin_run, attempts, record_scoring_run, is_refused, entry_of,
}

-- Every entry but the first is marked as a rescoring.
abbrev pub IsMarked : List ScoringEntry → Type 0
IsMarked [] = Unit
IsMarked (e ∷ es) = All (λ x. x.rescore_override ≡ true) es

All-append :
    (P : ScoringEntry → Type 0) (xs ys : List ScoringEntry) → All P xs → All P ys → All P (xs ++ ys)
All-append P [] ys h g = g
All-append P (x ∷ xs) ys (p, h) g = (p, All-append P xs ys h g)

-- One more entry, on an empty log or marked.
IsMarked-append :
    (es : List ScoringEntry) (e : ScoringEntry)
    → IsMarked es
    → not (is_empty es) && not e.rescore_override ≡ false
    → IsMarked (es ++ e ∷ [])
IsMarked-append [] e m h = tt
IsMarked-append (x ∷ xs) e m h =
    All-append (λ y. y.rescore_override ≡ true) xs (e ∷ []) m (ground arith, tt)

append-nil : (xs : List ScoringEntry) → xs ≡ xs ++ []
append-nil [] = refl
append-nil (x ∷ xs) = ap (λ ys. x ∷ ys) (append-nil xs)

append_assoc : (xs ys zs : List ScoringEntry) → (xs ++ ys) ++ zs ≡ xs ++ (ys ++ zs)
append_assoc [] ys zs = refl
append_assoc (x ∷ xs) ys zs = ap (λ us. x ∷ us) (append_assoc xs ys zs)

-- What a call does to the log of the sealed corpus.
abbrev Grows : List ScoringEntry → List ScoringEntry → Type 0
Grows old new' = IsMarked new' × ((more : List ScoringEntry) × (new' ≡ old ++ more))

Grows-same : (es : List ScoringEntry) → IsMarked es → Grows es es
Grows-same es m = (m, ([], append-nil es))

-- An entry that the guard lets through, in the log of a corpus in a directory.
Grows-entry :
    (d directory corpus : String) (e : ScoringEntry) (logs : Logs)
    → IsMarked (logs d "test")
    → (corpus == "test" && not (is_empty (logs directory corpus)) && not e.rescore_override) ≡ false
    → Grows (logs d "test") (
        if directory == d && corpus == "test"
        then logs directory corpus ++ e ∷ []
        else logs d "test")
Grows-entry d directory corpus e logs m passed =
    elim (Bool-cases (directory == d && corpus == "test")) [
      | inl both ↦
          let sealed : corpus == "test" ≡ true = ground (arith, both) in
          let here : directory ≡ d = (eq_iff directory d).0 (ground (arith, both)) in
          let same_log : logs directory corpus ≡ logs d "test" =
            ap (λ x. logs x corpus) here ∙ ap (logs d) ((eq_iff corpus "test").0 sealed) in
          let written : logs directory corpus ++ e ∷ [] ≡ logs d "test" ++ e ∷ [] =
            ap (λ es. es ++ e ∷ []) same_log in
          let guard : (not (is_empty (logs d "test")) && not e.rescore_override) ≡ false =
            ap (λ es. not (is_empty es) && not e.rescore_override) (sym same_log)
            ∙ (rw sealed at passed) in
          let longer : Grows (logs d "test") (logs d "test" ++ e ∷ []) =
            (IsMarked-append (logs d "test") e m guard, (e ∷ [], refl)) in
          rw both (rw written longer)
      | inr other ↦ rw other (Grows-same (logs d "test") m)
    ]

begin_run-Grows :
    (d : String) (a : Attempt) (logs : Logs)
    → IsMarked (logs d "test")
    → Grows (logs d "test") ((begin_run a logs).1 d "test")
unfolding begin_run record_scoring_run is_refused
begin_run-Grows d a logs m = elim (Bool-cases (not a.files_exist)) [
  | inl absent ↦ rw absent (Grows-same (logs d "test") m)
  | inr there ↦ elim (Bool-cases (is_refused a logs)) [
    | inl refused ↦ rw there (rw refused (Grows-same (logs d "test") m))
    | inr passed ↦
        rw there
          (rw passed (Grows-entry d a.directory a.manifest.corpus (entry_of a) logs m passed))
  ]
]

-- However often `run` is called, and with whatever arguments, the log of the sealed corpus in each
-- directory is only appended to, and if all its entries but the first were marked as rescorings
-- before, they are after.
pub attempts-IsMarked :
    (d : String) (as' : List Attempt) (logs : Logs)
    → IsMarked (logs d "test")
    → IsMarked (attempts as' logs d "test")
      × ((more : List ScoringEntry) × (attempts as' logs d "test" ≡ logs d "test" ++ more))
unfolding attempts
attempts-IsMarked d [] logs m = (m, ([], append-nil (logs d "test")))
attempts-IsMarked d (a ∷ as') logs m =
    let (kept, (more, grown)) = begin_run-Grows d a logs m in
    let (marked, (rest, total)) = attempts-IsMarked d as' (begin_run a logs).1 kept in
    (marked, (more ++ rest, rw grown at total ∙ append_assoc (logs d "test") more rest))
