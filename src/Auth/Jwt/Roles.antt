-- ===== src/Auth/Jwt/Roles.antt =====
-- What the role tests of internal/auth/jwt.go decide.
use mathlib.Core.List.{Memᴰ}
use mathlib.Core.List.Memᴰ
use apigateway_distributed_s.Base.{
  ◌≡◌, refl, sym, subst, ◌↔◌, inl, inr, true, String, List, [], ◌∷◌, arith, str_eq, eq_iff,
  Bool-cases,
}
use apigateway_distributed_s.Auth.Jwt.{Claims, is_role_in, has_role, has_any_role, has_all_roles}

-- The role is one of the list.
is_role_in_iff :
    (roles : List String) (role : String) → (is_role_in roles role ≡ true) ↔ Memᴰ role roles
unfolding is_role_in
is_role_in_iff [] role = (λ h. absurd (ground arith), λ m. absurd (Memᴰ.not-nil m))
is_role_in_iff (r ∷ rs) role =
    let rest = is_role_in_iff rs role in
    (
      λ h. elim (Bool-cases (str_eq r role)) [
        | inl e ↦ Memᴰ.head (sym ((eq_iff r role).0 e))
        | inr e ↦ Memᴰ.tail (rest.0 (ground arith))
      ],
      λ m. elim (Memᴰ.cases_cons m) [
        | inl e ↦ ground (arith, eq_iff r role)
        | inr k ↦ ground (arith, rest.1 k)
      ],
    )

has_role_iff : (c : Claims) (role : String) → (has_role c role ≡ true) ↔ Memᴰ role c.roles
unfolding has_role
has_role_iff c role = is_role_in_iff c.roles role

-- The test for all roles is the test for a subset: it passes exactly when every role asked for is
-- one of the claims' roles.
pub has_all_roles_iff :
    (c : Claims) (roles : List String)
    → (has_all_roles c roles ≡ true) ↔ ((r : String) → Memᴰ r roles → Memᴰ r c.roles)
unfolding has_all_roles
has_all_roles_iff c [] = (λ h r m. absurd (Memᴰ.not-nil m), λ h. refl)
has_all_roles_iff c (r ∷ rs) =
    let rest = has_all_roles_iff c rs in
    let first = has_role_iff c r in
    (
      λ h x m. elim (Memᴰ.cases_cons m) [
        | inl e ↦ subst (λ y. Memᴰ y c.roles) (sym e) (first.0 (ground arith))
        | inr k ↦ rest.0 (ground arith) x k
      ],
      λ h. ground (arith, first.1 (h r (Memᴰ.head refl)), rest.1 (λ x k. h x (Memᴰ.tail k))),
    )

-- The test for any role passes exactly when the claims' roles and the roles asked for have one in
-- common.
pub has_any_role_iff :
    (c : Claims) (roles : List String)
    → (has_any_role c roles ≡ true) ↔ ((r : String) × Memᴰ r roles × Memᴰ r c.roles)
unfolding has_any_role
has_any_role_iff c [] = (λ h. absurd (ground arith), λ m. absurd (Memᴰ.not-nil m.1))
has_any_role_iff c (r ∷ rs) =
    let rest = has_any_role_iff c rs in
    let first = has_role_iff c r in
    (
      λ h. elim (Bool-cases (has_role c r)) [
        | inl e ↦ (r, Memᴰ.head refl, first.0 e)
        | inr e ↦ let (x, m, n) = rest.0 (ground arith) in (x, Memᴰ.tail m, n)
      ],
      λ (x, m, n). elim (Memᴰ.cases_cons m) [
        | inl e ↦ ground (arith, first.1 (subst (λ y. Memᴰ y c.roles) e n))
        | inr k ↦ ground (arith, rest.1 (x, k, n))
      ],
    )
