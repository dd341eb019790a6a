-- ===== src/Incidents/Recovery.antt =====
-- What the end of an alert and its return do to its incident.
use arx_mdm.Prelude.{
  ◌≡◌, refl, sym, subst, ◌⊎◌, inl, inr, Bool, true, false, ◌&&◌, ◌||◌, not, List, [], ◌∷◌, ◌++◌,
  map, Text, text_eq, text_eq_iff, bytes, All, In, keep, keep-In, Any-map, In-Any, ◌∙◌,
  if◌then◌else◌, Bool-cases, arith, trim_space,
}
use arx_mdm.Prelude.Sort.{distinct, distinct-In}
use arx_mdm.Incidents.Table.{
  Incident, Incidents, has_fingerprint, update_incidents, validate_incident_state,
}
use arx_mdm.Incidents.Rows.{recovered-allowed}
use arx_mdm.Incidents.Automation.{
  recovered, is_closed, resolve_fingerprint, resolve_all,
  auto_resolve_incidents_for_alert_fingerprints, recovery_note,
}

-- Neither new nor in progress nor on hold.
abbrev pub IsOver : Incident → Type 0
IsOver i = (text_eq i.state (bytes "resolved") ≡ true) ⊎ (text_eq i.state (bytes "closed") ≡ true)

abbrev IsOverFor : Text → Incident → Type 0
IsOverFor fp i = has_fingerprint fp i ≡ true → IsOver i

abbrev IsKnown : Incident → Type 0
IsKnown i = validate_incident_state i.state ≡ true

recovered_over :
    (state : Text)
    → validate_incident_state state ≡ true
    → text_eq state (bytes "closed") ≡ false
    → text_eq (recovered state) (bytes "resolved") ≡ true
unfolding validate_incident_state recovered text_eq
recovered_over state h c =
    elim (Bool-cases (
      text_eq state (bytes "new")
      || text_eq state (bytes "in_progress")
      || text_eq state (bytes "on_hold"))) [
        | inl e ↦ rw (recovered, e) refl
        | inr e ↦ rw (recovered, e) (ground arith)
      ]

-- A row after the statement of a fingerprint.
abbrev after_recovery : Text → Incident → Incident
after_recovery fp i = record i {
  work_notes = i.work_notes ++ recovery_note fp ∷ [];
  state = recovered i.state;
}

update-cases :
    (p : Incident → Bool) (f : Incident → Incident) (P Q : Incident → Type 0) (rows : List Incident)
    → ((i : Incident) → p i ≡ true → P i → Q (f i))
    → ((i : Incident) → p i ≡ false → P i → Q i)
    → All P rows
    → All Q (update_incidents p f rows)
unfolding update_incidents
update-cases p f P Q [] g h a = tt
update-cases p f P Q (i ∷ is) g h a = elim (Bool-cases (p i)) [
  | inl e ↦ rw e (g i e a.0, update-cases p f P Q is g h a.1)
  | inr e ↦ rw e (h i e a.0, update-cases p f P Q is g h a.1)
]

abbrev is_open_for : Text → Incident → Bool
is_open_for fp i = has_fingerprint fp i && not (is_closed i)

-- An open incident of the alert becomes resolved.
after_recovery-IsOver :
    (fp : Text) (i : Incident) → is_open_for fp i ≡ true → IsKnown i → IsOver (after_recovery fp i)
after_recovery-IsOver fp i e known = inl (recovered_over i.state known (ground arith))

after_recovery-IsKnown : (fp : Text) (i : Incident) → IsKnown i → IsKnown (after_recovery fp i)
after_recovery-IsKnown fp i known = recovered-allowed i.state known

module _ (fp : Text) where
  resolve_fingerprint-IsKnown :
      (other : Text) (rows : List Incident)
      → All IsKnown rows
      → All IsKnown (resolve_fingerprint other rows)
  unfolding resolve_fingerprint
  resolve_fingerprint-IsKnown other rows h =
      update-cases (is_open_for other) (after_recovery other) IsKnown IsKnown rows
        (λ i e k. after_recovery-IsKnown other i k) (λ i e k. k) h

  resolve_fingerprint-IsOver :
      (rows : List Incident) → All IsKnown rows → All (IsOverFor fp) (resolve_fingerprint fp rows)
  unfolding resolve_fingerprint
  resolve_fingerprint-IsOver rows h =
      update-cases (is_open_for fp) (after_recovery fp) IsKnown (IsOverFor fp) rows
        (λ i e k _. after_recovery-IsOver fp i e k) (λ i e k f. inr (ground arith)) h

  -- A later statement leaves an incident over that is over.
  resolve_fingerprint-keeps :
      (other : Text) (rows : List Incident)
      → All IsKnown rows
      → All (IsOverFor fp) rows
      → All (IsOverFor fp) (resolve_fingerprint other rows)
  unfolding resolve_fingerprint
  resolve_fingerprint-keeps other rows h k =
      update-cases (is_open_for other) (after_recovery other) (λ i. IsKnown i × IsOverFor fp i)
        (IsOverFor fp) rows (λ i e p _. after_recovery-IsOver other i e p.0) (λ i e p f. p.1 f)
        (both rows h k)
    where
      both :
          (rows : List Incident)
          → All IsKnown rows
          → All (IsOverFor fp) rows
          → All (λ i. IsKnown i × IsOverFor fp i) rows
      both [] h k = tt
      both (i ∷ is) h k = ((h.0, k.0), both is h.1 k.1)

  resolve_all-IsOver :
      (fps : List Text) (rows : List Incident)
      → All IsKnown rows
      → In fp fps ⊎ All (IsOverFor fp) rows
      → All (IsOverFor fp) (resolve_all fps rows)
  unfolding resolve_all
  resolve_all-IsOver [] rows h (inl m) = absurd m
  resolve_all-IsOver [] rows h (inr k) = k
  resolve_all-IsOver (f ∷ fps) rows h (inl (inl e)) =
      resolve_all-IsOver fps (resolve_fingerprint f rows) (resolve_fingerprint-IsKnown f rows h) (
        inr (
          subst (λ x. All (IsOverFor fp) (resolve_fingerprint x rows)) (sym e)
            (resolve_fingerprint-IsOver rows h)))
  resolve_all-IsOver (f ∷ fps) rows h (inl (inr m)) =
      resolve_all-IsOver fps (resolve_fingerprint f rows) (resolve_fingerprint-IsKnown f rows h)
        (inl m)
  resolve_all-IsOver (f ∷ fps) rows h (inr k) =
      resolve_all-IsOver fps (resolve_fingerprint f rows) (resolve_fingerprint-IsKnown f rows h)
        (inr (resolve_fingerprint-keeps f rows h k))

closed_kept :
    (fp : Text) (i : Incident) (rows : List Incident)
    → is_closed i ≡ true
    → In i rows
    → In i (resolve_fingerprint fp rows)
unfolding resolve_fingerprint update_incidents
closed_kept fp i [] c m = m
closed_kept fp i (x ∷ xs) c (inl e) = inl (same (is_open_for fp x) (ground (arith, closed_x)) ∙ e)
  where
    closed_x : is_closed x ≡ true
    closed_x = subst (λ y. is_closed y ≡ true) (sym e) c

    same : (b : Bool) → b ≡ false → (if b then after_recovery fp x else x) ≡ x
    same true h = cc
    same false h = refl
closed_kept fp i (x ∷ xs) c (inr m) = inr (closed_kept fp i xs c m)

resolve_all-closed :
    (fps : List Text) (i : Incident) (rows : List Incident)
    → is_closed i ≡ true
    → In i rows
    → In i (resolve_all fps rows)
unfolding resolve_all
resolve_all-closed [] i rows c m = m
resolve_all-closed (fp ∷ fps) i rows c m =
    resolve_all-closed fps i (resolve_fingerprint fp rows) c (closed_kept fp i rows c m)

-- After the recovery of an alert is reported, every incident of its fingerprint is resolved or closed, where
-- their states are allowed ones; and an incident that was closed is as it was.
pub auto_resolve_incidents_for_alert_fingerprints-IsOver :
    (fps : List Text) (t : Incidents) (fp : Text)
    → In fp fps
    → trim_space fp ≡ fp
    → text_eq fp [] ≡ false
    → All (λ i. validate_incident_state i.state ≡ true) t.rows
    → All
        (λ i. has_fingerprint fp i ≡ true → IsOver i)
        (auto_resolve_incidents_for_alert_fingerprints fps t).rows
      × ((i : Incident)
          → is_closed i ≡ true
          → In i t.rows
          → In i (auto_resolve_incidents_for_alert_fingerprints fps t).rows)
unfolding auto_resolve_incidents_for_alert_fingerprints
auto_resolve_incidents_for_alert_fingerprints-IsOver fps t fp m trimmed full h = (
  resolve_all-IsOver fp clean t.rows h (inl named),
  λ i c k. resolve_all-closed clean i t.rows c k,
)
  where
    clean : List Text
    clean = distinct text_eq (keep (λ f. not (text_eq f [])) (map trim_space fps))

    named : In fp clean
    named =
        (distinct-In text_eq text_eq_iff fp (keep (λ f. not (text_eq f [])) (map trim_space fps))).1
          ((keep-In (λ f. not (text_eq f [])) fp (map trim_space fps)).1 (
            (Any-map (λ x. x ≡ fp) trim_space fps).1
                (In-Any (λ x. trim_space x ≡ fp) fp fps m trimmed),
            rw full refl,
          ))
