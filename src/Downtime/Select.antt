-- ===== src/Downtime/Select.antt =====
-- What the lookup of agent/downtime.py selects, against a description that knows no loop.
use downtime_aware_recovery.Common.{
  ◌≤◌, ◌≡◌, ◌⊎◌, inl, inr, refl, true, ◌&&◌, Option, none, some, List, [], ◌∷◌, arith, Bool-cases,
}
use downtime_aware_recovery.Models.Enums.{Method}
use downtime_aware_recovery.Models.Payment.{Time, Instrument, DowntimeWindow}
use downtime_aware_recovery.Downtime.{severity_rank, is_candidate, improves, select, active_at}

-- `w` stands in the list.
abbrev pub IsIn : DowntimeWindow → List DowntimeWindow → Type 0
IsIn w [] = ⊥
IsIn w (x ∷ xs) = (w ≡ x) ⊎ IsIn w xs

module _ (method : Method) (instrument : Instrument) (when : Time) where
  -- No candidate of the list is more severe than `best`, and without a best one there is none.
  abbrev pub Bounds : Option DowntimeWindow → List DowntimeWindow → Type 0
  Bounds best [] = Unit
  Bounds best (x ∷ xs) =
      (is_candidate method instrument when x ≡ true
        → (b : DowntimeWindow) × (best ≡ some b)
          × (severity_rank x.severity ≤ severity_rank b.severity))
      × Bounds best xs

  -- The selected window is a candidate of the list, or there is none.
  abbrev pub Chosen : Option DowntimeWindow → List DowntimeWindow → Type 0
  Chosen none xs = Unit
  Chosen (some b) xs = IsIn b xs × (is_candidate method instrument when b ≡ true)

  -- The best one so far is not lost.
  select-grows :
      (xs : List DowntimeWindow) (b : DowntimeWindow)
      → (b' : DowntimeWindow) × (select method instrument when xs (some b) ≡ some b')
        × (severity_rank b.severity ≤ severity_rank b'.severity)
  unfolding select
  select-grows [] b = (b, refl, omega arith)
  select-grows (x ∷ xs) b =
      elim (Bool-cases (is_candidate method instrument when x && improves x (some b))) [
        | inl e ↦ let (b', f, g) = select-grows xs x in (b', rw e f, ground arith)
        | inr e ↦ let (b', f, g) = select-grows xs b in (b', rw e f, g)
      ]

  select-covers :
      (x : DowntimeWindow) (xs : List DowntimeWindow) (o : Option DowntimeWindow)
      → is_candidate method instrument when x ≡ true
      → (b : DowntimeWindow) × (select method instrument when (x ∷ xs) o ≡ some b)
        × (severity_rank x.severity ≤ severity_rank b.severity)
  unfolding select
  select-covers x xs none e = rw e (select-grows xs x)
  select-covers x xs (some b) e = elim (Bool-cases (improves x (some b))) [
    | inl better ↦ let (b', f, g) = select-grows xs x in (b', rw (e, better) f, g)
    | inr worse ↦ let (b', f, g) = select-grows xs b in (b', rw (e, worse) f, ground arith)
  ]

  select-Bounds :
      (xs : List DowntimeWindow) (o : Option DowntimeWindow)
      → Bounds (select method instrument when xs o) xs
  unfolding select
  select-Bounds [] o = tt
  select-Bounds (x ∷ xs) o = (λ e. select-covers x xs o e, select-Bounds xs _)

  is_candidate-of :
      (x b : DowntimeWindow)
      → ◌≡◌ {A = Option DowntimeWindow} (some x) (some b)
      → is_candidate method instrument when x ≡ true
      → is_candidate method instrument when b ≡ true
  is_candidate-of x b same h = cc

  select-origin :
      (xs : List DowntimeWindow) (o : Option DowntimeWindow) (b : DowntimeWindow)
      → select method instrument when xs o ≡ some b
      → (o ≡ some b) ⊎ (IsIn b xs × (is_candidate method instrument when b ≡ true))
  unfolding select
  select-origin [] o b h = inl h
  select-origin (x ∷ xs) o b h =
      elim (Bool-cases (is_candidate method instrument when x && improves x o)) [
        | inl e ↦ elim (select-origin xs (some x) b (rw e at h)) [
          | inl same ↦ inr (inl (cc), is_candidate-of x b same (ground arith))
          | inr (there, c) ↦ inr (inr there, c)
        ]
        | inr e ↦ elim (select-origin xs o b (rw e at h)) [
          | inl same ↦ inl same
          | inr (there, c) ↦ inr (inr there, c)
        ]
      ]

  select-Chosen :
      (xs : List DowntimeWindow) (o : Option DowntimeWindow)
      → select method instrument when xs none ≡ o
      → Chosen o xs
  select-Chosen xs none h = tt
  select-Chosen xs (some b) h = elim (select-origin xs none b h) [ inl e ↦ cc | inr r ↦ r ]

  -- The window that `active_at` gives is one of the stored windows that cover the instrument at the
  -- time, and none of those that do is more severe; it gives none exactly if no stored window does.
  pub active_at_most_severe :
      (xs : List DowntimeWindow)
      → let found = active_at method instrument when xs in Chosen found xs × Bounds found xs
  unfolding active_at
  active_at_most_severe xs =
      (select-Chosen xs (select method instrument when xs none) refl, select-Bounds xs none)
