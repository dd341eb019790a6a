-- ===== src/Incidents/Rows.antt =====
-- Well-formed rows, and the updates that keep them so.
use arx_mdm.Prelude.{
  ℕ, ◌<◌, ◌≤◌, ◌≡◌, ◌≢◌, refl, sym, subst, inl, inr, Bool, true, ◌||◌, Option, none, some, List, [],
  ◌∷◌, Text, text_eq, bytes, All, Bool-cases, arith,
}
use arx_mdm.Prelude.Sort.{Pairs}
use arx_mdm.Incidents.Table.{
  Incident, validate_incident_state, impact_urgency_or_default, update_incidents,
}
use arx_mdm.Incidents.Automation.{impact_urgency_of, reopened, recovered, refreshed}

abbrev pub IsRank : ℕ → Type 0
IsRank n = (1 ≤ n) × (n ≤ 3)

-- A state that the code allows, and an impact and urgency from 1 to 3.
abbrev pub IsWellFormed : Incident → Type 0
IsWellFormed i = (validate_incident_state i.state ≡ true) × IsRank i.impact × IsRank i.urgency

-- Two incidents are not of the same alert.
abbrev pub AreApart : Option Text → Option Text → Type 0
AreApart (some x) (some y) = x ≢ y
AreApart _ _ = Unit

abbrev pub IsOnePerAlert : List Incident → Type 0
IsOnePerAlert rows =
    Pairs (λ a b. AreApart a.source_alert_fingerprint b.source_alert_fingerprint) rows

pub impact_urgency_or_default-IsRank : (v : Option ℕ) → IsRank (impact_urgency_or_default v)
unfolding impact_urgency_or_default
impact_urgency_or_default-IsRank none = (omega arith, omega arith)
impact_urgency_or_default-IsRank (some v) = ground arith

pub impact_urgency_of-IsRank :
    (s : Text) → IsRank (impact_urgency_of s).0 × IsRank (impact_urgency_of s).1
unfolding impact_urgency_of
impact_urgency_of-IsRank s = ground arith

-- A change that keeps a row well formed and of its alert.
abbrev pub IsKept : (Incident → Incident) → Type 0
IsKept f =
    (i : Incident)
    → IsWellFormed i
    → IsWellFormed (f i) × ((f i).source_alert_fingerprint ≡ i.source_alert_fingerprint)

module _ (p : Incident → Bool) (f : Incident → Incident) where
  update-All :
      (P Q : Incident → Type 0) (rows : List Incident)
      → ((i : Incident) → P i → Q i)
      → ((i : Incident) → P i → Q (f i))
      → All P rows
      → All Q (update_incidents p f rows)
  unfolding update_incidents
  update-All P Q [] g h a = tt
  update-All P Q (i ∷ is) g h a = elim (Bool-cases (p i)) [
    | inl e ↦ rw e (h i a.0, update-All P Q is g h a.1)
    | inr e ↦ rw e (g i a.0, update-All P Q is g h a.1)
  ]

abbrev pub IsSound : List Incident → Type 0
IsSound rows = All IsWellFormed rows × IsOnePerAlert rows

pub update-IsSound :
    (p : Incident → Bool) (f : Incident → Incident)
    → IsKept f
    → (rows : List Incident) → IsSound rows
    → IsSound (update_incidents p f rows)
unfolding update_incidents
update-IsSound p f kept rows h = (
  update-All p f IsWellFormed IsWellFormed rows (λ i w. w) (λ i w. (kept i w).0) h.0,
  pairs rows h.0 h.1,
)
  where
    others :
        (i : Incident) (is : List Incident)
        → All IsWellFormed is
        → All (λ b. AreApart i.source_alert_fingerprint b.source_alert_fingerprint) is
        → All
            (λ b. AreApart i.source_alert_fingerprint b.source_alert_fingerprint)
            (update_incidents p f is)
    others i [] w a = tt
    others i (b ∷ bs) w a = elim (Bool-cases (p b)) [
      | inl e ↦ rw e (
        subst (AreApart i.source_alert_fingerprint) (sym (kept b w.0).1) a.0,
        others i bs w.1 a.1,
      )
      | inr e ↦ rw e (a.0, others i bs w.1 a.1)
    ]

    pairs :
        (rows : List Incident)
        → All IsWellFormed rows
        → IsOnePerAlert rows
        → IsOnePerAlert (update_incidents p f rows)
    pairs [] w a = tt
    pairs (i ∷ is) w a = elim (Bool-cases (p i)) [
      | inl e ↦ rw e (
        subst (λ x. All (λ b. AreApart x b.source_alert_fingerprint) (update_incidents p f is))
            (sym (kept i w.0).1) (others i is w.1 a.0),
        pairs is w.1 a.1,
      )
      | inr e ↦ rw e (others i is w.1 a.0, pairs is w.1 a.1)
    ]

pub reopened-allowed :
    (s : Text) → validate_incident_state s ≡ true → validate_incident_state (reopened s) ≡ true
unfolding reopened validate_incident_state text_eq
reopened-allowed s h =
    elim (Bool-cases (text_eq s (bytes "resolved") || text_eq s (bytes "closed"))) [
      | inl e ↦ rw (reopened, e) refl
      | inr e ↦ rw (reopened, e) h
    ]

pub recovered-allowed :
    (s : Text) → validate_incident_state s ≡ true → validate_incident_state (recovered s) ≡ true
unfolding recovered validate_incident_state text_eq
recovered-allowed s h =
    elim (Bool-cases
      (text_eq s (bytes "new") || text_eq s (bytes "in_progress") || text_eq s (bytes "on_hold"))) [
        | inl e ↦ rw (recovered, e) refl
        | inr e ↦ rw (recovered, e) h
      ]

pub refreshed-IsKept :
    (now device_id : ℕ) (title message severity : Text)
    → IsKept (refreshed now device_id title message severity)
refreshed-IsKept now device_id title message severity i w =
    let (a, b) = impact_urgency_of-IsRank severity in ((reopened-allowed i.state w.0, a, b), refl)

-- An impact or urgency from 1 to 3 is kept and one up to 32767 is cut to 3, but one from 32768 to 65535 becomes
-- 1, the most severe.
pub impact_urgency_or_default_wraps :
    (v : ℕ)
    → ((1 ≤ v) → (v ≤ 3) → impact_urgency_or_default (some v) ≡ v)
      × ((3 ≤ v) → (v < 32768) → impact_urgency_or_default (some v) ≡ 3)
      × ((32768 ≤ v) → (v < 65536) → impact_urgency_or_default (some v) ≡ 1)
unfolding impact_urgency_or_default
impact_urgency_or_default_wraps v = (λ a b. ground arith, λ a b. ground arith, λ a b. ground arith)
