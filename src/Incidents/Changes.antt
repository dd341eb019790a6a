-- ===== src/Incidents/Changes.antt =====
-- The assignments of an accepted request keep a row well formed.
use arx_mdm.Prelude.{
  ℕ, ◌≡◌, refl, subst, ◌∙◌, inl, inr, Bool, true, false, Option, none, some, List, [], ◌∷◌, Text,
  text_eq, All, Bool-cases, Option-cases, arith, trim_space,
}
use arx_mdm.Prelude.Result.{ok, >>=-eq-ok, ok_inj}
use arx_mdm.Incidents.Table.{Incident, validate_incident_state, normalize_incident_state}
use arx_mdm.Incidents.Patch.{
  PatchIncidentRequest, is_bad_state, is_set, Change, apply, change_by, Lookups, sla_change,
  asset_change, assign_user, assign_change, all_changes, changes, apply_all,
}
use arx_mdm.Incidents.Rows.{impact_urgency_or_default-IsRank, IsKept}

abbrev IsHarmless : Change → Type 0
IsHarmless c = IsKept (apply c)

apply_all-IsKept : (cs : List Change) → All IsHarmless cs → IsKept (apply_all cs)
apply_all-IsKept [] h i w = (w, refl)
apply_all-IsKept (c ∷ cs) h i w =
    let (v, same) = h.0 i w in
    let (u, again) = apply_all-IsKept cs h.1 (apply c i) v in (u, again ∙ same)

change_by-IsHarmless :
    {A : Type 0} (set : A → Incident → Incident) (o : Option A)
    → ((v : A) → o ≡ some v → IsKept (set v))
    → IsHarmless (change_by set o)
change_by-IsHarmless set none h i w = (w, refl)
change_by-IsHarmless set (some v) h i w = h v refl i w

module _ (l : Lookups) where
  sla_change-IsHarmless : (o : Option Text) (c : Change) → sla_change l o ≡ ok c → IsHarmless c
  unfolding sla_change
  sla_change-IsHarmless none c h = subst IsHarmless (ok_inj h) (λ i w. (w, refl))
  sla_change-IsHarmless (some raw) c h = elim (Option-cases (l.parse_time (trim_space raw))) [
    | inl e ↦ cc (rw (sla_change, e) at h)
    | inr (at_time, e) ↦ subst IsHarmless (ok_inj (rw (sla_change, e) at h)) (λ i w. (w, refl))
  ]

  asset_change-IsHarmless : (o : Option Text) (c : Change) → asset_change l o ≡ ok c → IsHarmless c
  unfolding asset_change
  asset_change-IsHarmless none c h = subst IsHarmless (ok_inj h) (λ i w. (w, refl))
  asset_change-IsHarmless (some human_id) c h =
      elim (Bool-cases (text_eq (trim_space human_id) [])) [
        | inl e ↦ subst IsHarmless (ok_inj (rw (asset_change, e) at h)) (λ i w. (w, refl))
        | inr e ↦ elim (Option-cases (l.asset_of_human_id (trim_space human_id))) [
          | inl f ↦ cc (rw (asset_change, e, f) at h)
          | inr (asset, f) ↦
              subst IsHarmless (ok_inj (rw (asset_change, e, f) at h)) (λ i w. (w, refl))
        ]
      ]

  assign_user-IsHarmless : (o : Option ℕ) (c : Change) → assign_user l o ≡ ok c → IsHarmless c
  assign_user-IsHarmless none c h = cc
  assign_user-IsHarmless (some user) c h = elim (Bool-cases (l.user_exists user)) [
    | inl e ↦ subst IsHarmless (ok_inj (rw e at h)) (λ i w. (w, refl))
    | inr e ↦ cc (rw e at h)
  ]

  assign_change-IsHarmless :
      (clear : Option Bool) (o : Option Text) (c : Change)
      → assign_change l clear o ≡ ok c
      → IsHarmless c
  unfolding assign_change
  assign_change-IsHarmless clear o c h = elim (Bool-cases (is_set clear)) [
    | inl e ↦ subst IsHarmless (ok_inj (rw (assign_change, e) at h)) (λ i w. (w, refl))
    | inr e ↦ elim (Option-cases o) [
      | inl f ↦ subst IsHarmless (ok_inj (rw (assign_change, e, f) at h)) (λ i w. (w, refl))
      | inr (raw, f) ↦ elim (Bool-cases (text_eq (trim_space raw) [])) [
        | inl g ↦ subst IsHarmless (ok_inj (rw (assign_change, e, f, g) at h)) (λ i w. (w, refl))
        | inr g ↦
            assign_user-IsHarmless (l.parse_uuid (trim_space raw)) c
              (rw (assign_change, e, f, g) at h)
      ]
    ]
  ]

  -- The changes of a request that is not refused.
  pub changes-IsKept :
      (req : PatchIncidentRequest) (cs : List Change)
      → is_bad_state req.state ≡ false
      → changes l req ≡ ok cs
      → IsKept (apply_all cs)
  unfolding changes
  changes-IsKept req cs good h =
      let (sla, a, h1) = >>=-eq-ok (sla_change l req.sla_due) _ h in
      let (asset, b, h2) = >>=-eq-ok (asset_change l req.linked_asset_human_id) _ h1 in
      let (assigned, c, h3) =
        >>=-eq-ok (assign_change l req.clear_assigned_to req.assigned_to_user_id) _ h2 in
      subst (λ x. IsKept (apply_all x)) (ok_inj h3)
        (apply_all-IsKept (all_changes req sla asset assigned) (
          change_by-IsHarmless _ req.short_description (λ v e i w. (w, refl)),
          (
            change_by-IsHarmless _ req.state (λ v e i w. ((allowed v e, w.1, w.2), refl)),
            (
              change_by-IsHarmless _ req.impact
                  (λ v e i w. ((w.0, impact_urgency_or_default-IsRank (some v), w.2), refl)),
              (
                change_by-IsHarmless _ req.urgency
                    (λ v e i w. ((w.0, w.1, impact_urgency_or_default-IsRank (some v)), refl)),
                (
                  sla_change-IsHarmless req.sla_due sla a,
                  (
                    asset_change-IsHarmless req.linked_asset_human_id asset b,
                    (
                      assign_change-IsHarmless req.clear_assigned_to req.assigned_to_user_id
                          assigned c,
                      tt,
                    ),
                  ),
                ),
              ),
            ),
          ),
        ))
    where
      allowed :
          (v : Text)
          → req.state ≡ some v
          → validate_incident_state (normalize_incident_state v) ≡ true
      allowed v e = ground (arith, rw (is_bad_state, e) at good)
