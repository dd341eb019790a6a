-- ===== src/Packages/Sound.antt =====
-- What the calls of packages leave true of packages and deployments.
use arx_mdm.Prelude.{
  ℕ, ◌<◌, ◌≡◌, ◌≢◌, refl, inl, inr, Bool, true, false, ◌&&◌, not, Option, none, some, List, [], ◌∷◌,
  Text, text_eq, bytes, All, All-append, any, Bool-cases, arith, ◌==◌, is_none,
}
use arx_mdm.Prelude.Sort.{Pairs}
use arx_mdm.Prelude.Rows.{keep-All, keep-Pairs, All-map, any-append_true, any-keep}
use arx_mdm.Scheduler.Dispatch.{Asset, Package, Deployment, World}
use arx_mdm.Packages.Catalog.{
  CreatePackageRequest, PatchPackageRequest, allowed_package_type, is_package, new_package,
  handle_create_package, or_old, trimmed, lowered, is_given_blank, is_bad_type, patched,
  update_packages, handle_patch_package, handle_delete_package,
}

abbrev pub has_id : ℕ → Asset → Bool
has_id k a = a.id == k

-- A deployment has its device and its package, and an id that was given out.
abbrev pub IsPlaced : World → Deployment → Type 0
IsPlaced w d =
    (any (has_id d.asset_id) w.assets ≡ true)
    × (any (is_package d.package_id) w.packages ≡ true)
    × (d.id < w.next_id)

abbrev pub AreApart : Deployment → Deployment → Type 0
AreApart a b = a.id ≢ b.id

-- A package has a name and a type of the five.
abbrev pub IsNamed : Package → Type 0
IsNamed p = (text_eq p.name [] ≡ false) × (allowed_package_type p.type ≡ true)

pub record IsSound (w : World) : Type 0 where
  pub placed : All (IsPlaced w) w.deployments
  pub apart : Pairs AreApart w.deployments
  pub named : All IsNamed w.packages

pub handle_create_package-IsSound :
    (req : CreatePackageRequest) (w : World) → IsSound w → IsSound (handle_create_package req w).1
unfolding handle_create_package
handle_create_package-IsSound req w s =
    let p = new_package w.next_id req in
    elim (Bool-cases (text_eq p.name [])) [
      | inl e ↦ rw (handle_create_package, e) s
      | inr e ↦ elim (Bool-cases (allowed_package_type p.type)) [
        | inr f ↦ rw (handle_create_package, e, f) s
        | inl f ↦ elim (Bool-cases (text_eq p.type (bytes "custom") && text_eq p.install_cmd [])) [
          | inl g ↦ rw (handle_create_package, e, f, g) s
          | inr g ↦
              rw (handle_create_package, e, f, g)
                (record {
                  placed =
                      All-map (IsPlaced w) _ w.deployments
                        (λ d h. (
                          h.0,
                          any-append_true (is_package d.package_id) w.packages _ h.1,
                          omega (arith, h.2),
                        ))
                        s.placed;
                  apart = s.apart;
                  named = All-append IsNamed w.packages _ s.named ((e, f), tt);
                })
        ]
      ]
    ]

patched-IsNamed :
    (req : PatchPackageRequest) (p : Package)
    → is_given_blank (trimmed req.name) ≡ false
    → is_bad_type (lowered req.type) ≡ false
    → IsNamed p
    → IsNamed (patched req p)
patched-IsNamed req p a b h = (by_name (trimmed req.name) a, by_type (lowered req.type) b)
  where
    by_name : (o : Option Text) → is_given_blank o ≡ false → text_eq (or_old o p.name) [] ≡ false
    by_name none e = h.0
    by_name (some s) e = e

    by_type :
        (o : Option Text) → is_bad_type o ≡ false → allowed_package_type (or_old o p.type) ≡ true
    by_type none e = h.1
    by_type (some s) e = ground arith

update_packages-any :
    (j k : ℕ) (req : PatchPackageRequest) (ps : List Package)
    → any (is_package j) (update_packages k (patched req) ps) ≡ any (is_package j) ps
unfolding update_packages
update_packages-any j k req [] = refl
update_packages-any j k req (p ∷ ps) = ground (arith, update_packages-any j k req ps)

update_packages-All :
    (k : ℕ) (req : PatchPackageRequest) (ps : List Package)
    → is_given_blank (trimmed req.name) ≡ false
    → is_bad_type (lowered req.type) ≡ false
    → All IsNamed ps
    → All IsNamed (update_packages k (patched req) ps)
unfolding update_packages
update_packages-All k req [] a b h = tt
update_packages-All k req (p ∷ ps) a b h =
    let rest = update_packages-All k req ps a b h.1 in
    elim (Bool-cases (p.id == k)) [
      | inl e ↦ rw (update_packages, e) (patched-IsNamed req p a b h.0, rest)
      | inr e ↦ rw (update_packages, e) (h.0, rest)
    ]

pub handle_patch_package-IsSound :
    (k : Option ℕ) (req : PatchPackageRequest) (w : World)
    → IsSound w
    → IsSound (handle_patch_package k req w).1
unfolding handle_patch_package
handle_patch_package-IsSound none req w s = s
handle_patch_package-IsSound (some k) req w s =
    elim (Bool-cases
      (is_none req.name && is_none req.version && is_none req.type && is_none req.install_cmd)) [
        | inl c ↦ rw (handle_patch_package, c) s
        | inr c ↦ elim (Bool-cases (is_given_blank (trimmed req.name))) [
          | inl e ↦ rw (handle_patch_package, c, e) s
          | inr e ↦ elim (Bool-cases (is_bad_type (lowered req.type))) [
            | inl f ↦ rw (handle_patch_package, c, e, f) s
            | inr f ↦ elim (Bool-cases (any (is_package k) w.packages)) [
              | inr g ↦ rw (handle_patch_package, c, e, f, g) s
              | inl g ↦
                  rw (handle_patch_package, c, e, f, g)
                    (record {
                      placed =
                          All-map (IsPlaced w) _ w.deployments
                            (λ d h. (
                              h.0,
                              rw (update_packages-any d.package_id k req w.packages) h.1,
                              h.2,
                            ))
                            s.placed;
                      apart = s.apart;
                      named = update_packages-All k req w.packages e f s.named;
                    })
            ]
          ]
        ]
      ]

pub handle_delete_package-IsSound :
    (k : Option ℕ) (w : World) → IsSound w → IsSound (handle_delete_package k w).1
unfolding handle_delete_package
handle_delete_package-IsSound none w s = s
handle_delete_package-IsSound (some k) w s = elim (Bool-cases (any (is_package k) w.packages)) [
  | inr e ↦ rw (handle_delete_package, e) s
  | inl e ↦
      rw (handle_delete_package, e)
        (record {
          placed =
              keep-All _ (IsPlaced w) _ w.deployments
                (λ d q h. (
                  h.0,
                  rw
                      (any-keep true (is_package d.package_id) (λ p. not (is_package k p))
                        w.packages (λ p m. ground arith))
                      h.1,
                  h.2,
                ))
                s.placed;
          apart = keep-Pairs _ AreApart w.deployments s.apart;
          named = keep-All _ IsNamed IsNamed w.packages (λ p q h. h) s.named;
        })
]
