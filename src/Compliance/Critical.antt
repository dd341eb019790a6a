-- ===== src/Compliance/Critical.antt =====
-- internal/mdm/compliance/critical.go: which merged policies carry security controls.
use arx_mdm.Prelude.{
  Bool, true, false, ◌||◌, not, none, some, [], ◌∷◌, Text, text_eq, bytes, any, trim_space,
}
use arx_mdm.Policy.Json.{
  Json, Fields, null, bool, num, str, arr, obj, nil, cons, end, field, lookup_field,
}

module _ {F : Type 0} where
  -- isEffectivelyEmpty
  unfoldable pub is_effectively_empty : Json F → Bool
  is_effectively_empty null = true
  is_effectively_empty (obj end) = true
  is_effectively_empty (obj (field k v fs)) = false
  is_effectively_empty (arr nil) = true
  is_effectively_empty (arr (cons v vs)) = false
  is_effectively_empty (str s) = text_eq (trim_space s) []
  is_effectively_empty (bool b) = false
  is_effectively_empty (num n) = false

  -- `v, ok := root[k]; ok && !isEffectivelyEmpty(v)`
  unfoldable pub carries : Fields F → Text → Bool
  unfolding is_effectively_empty
  carries root k = elim (lookup_field k root) [
    | none ↦ false
    | some v ↦ not (is_effectively_empty v)
  ]

  -- `root[k].(map[string]any)`, and a test of it.
  abbrev pub in_object : Fields F → Text → (Fields F → Bool) → Bool
  in_object root k test = elim (lookup_field k root) [ some (obj fs) ↦ test fs | _ ↦ false ]

  abbrev pub in_string : Fields F → Text → Bool
  in_string root k = elim (lookup_field k root) [
    | some (str s) ↦ not (text_eq (trim_space s) [])
    | _ ↦ false
  ]

  -- PayloadCarriesCriticalSecurityControls
  unfoldable pub payload_carries_critical_security_controls : Fields F → Bool
  unfolding carries
  payload_carries_critical_security_controls root =
      carries root (bytes "security")
      || carries root (bytes "registry")
      || carries root (bytes "windows_firewall")
      || carries root (bytes "firewall")
      || carries root (bytes "wifi")
      || in_string root (bytes "wifi_profile_xml")
      || in_object root (bytes "windows") (λ win. any (carries win) (
          bytes "registry"
          ∷ bytes "windows_firewall"
          ∷ bytes "firewall"
          ∷ bytes "wifi"
          ∷ bytes "wifi_profile_xml"
          ∷ []))
      || in_object root (bytes "linux")
          (λ lx. any (carries lx) (bytes "sysctl" ∷ bytes "linux_firewall" ∷ bytes "firewall" ∷ []))
      || in_object root (bytes "linux_firewall") (λ fs. not (is_effectively_empty (obj fs)))
      || in_object root (bytes "android") (λ fs. not (is_effectively_empty (obj fs)))
