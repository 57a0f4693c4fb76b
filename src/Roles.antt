-- ===== src/Roles.antt =====
-- Roles of the local HTTP APIs (pkg/auth/roles.go). A role is any text.
use atb.Prelude.{
  ℕ, ◌≡◌, refl, sym, subst, inl, inr, String, Bool, false, ◌&&◌, ◌||◌, ltb, leb, str_eq, eq_iff,
  Bool-cases, if◌then◌else◌,
}

abbrev pub role_viewer : String
role_viewer = "viewer"

abbrev pub role_auditor : String
role_auditor = "auditor"

abbrev pub role_operator : String
role_operator = "operator"

abbrev pub role_admin : String
role_admin = "admin"

-- IsValid
unfoldable pub is_valid : String → Bool
is_valid r =
    str_eq r role_viewer
    || (str_eq r role_auditor || (str_eq r role_operator || str_eq r role_admin))

-- HasPermission
unfoldable pub has_permission : String → String → Bool
has_permission r required =
    if str_eq required role_viewer
    then str_eq r role_viewer
      || (str_eq r role_auditor || (str_eq r role_operator || str_eq r role_admin))
    else if str_eq required role_auditor
    then str_eq r role_auditor || (str_eq r role_operator || str_eq r role_admin)
    else if str_eq required role_operator
    then str_eq r role_operator || str_eq r role_admin
    else if str_eq required role_admin
    then str_eq r role_admin
    else false

-- The place of a role in the order viewer, auditor, operator, admin; 0 for another text.
abbrev pub rank : String → ℕ
rank r =
    if str_eq r role_viewer
    then 1
    else if str_eq r role_auditor
    then 2
    else if str_eq r role_operator
    then 3
    else if str_eq r role_admin
    then 4
    else 0

record IsOther (r : String) : Type 0 where
  no_viewer : str_eq r role_viewer ≡ false
  no_auditor : str_eq r role_auditor ≡ false
  no_operator : str_eq r role_operator ≡ false
  no_admin : str_eq r role_admin ≡ false

by_role :
    (P : String → Type 0)
    → P role_viewer
    → P role_auditor
    → P role_operator
    → P role_admin
    → ((r : String) → IsOther r → P r)
    → (r : String) → P r
by_role P a b c d other r = elim (Bool-cases (str_eq r role_viewer)) [
  | inl e ↦ subst P (sym ((eq_iff r role_viewer).0 e)) a
  | inr v ↦ elim (Bool-cases (str_eq r role_auditor)) [
    | inl e ↦ subst P (sym ((eq_iff r role_auditor).0 e)) b
    | inr w ↦ elim (Bool-cases (str_eq r role_operator)) [
      | inl e ↦ subst P (sym ((eq_iff r role_operator).0 e)) c
      | inr x ↦ elim (Bool-cases (str_eq r role_admin)) [
        | inl e ↦ subst P (sym ((eq_iff r role_admin).0 e)) d
        | inr y ↦ other r (record { no_viewer = v; no_auditor = w; no_operator = x; no_admin = y })
      ]
    ]
  ]
]

-- The rank's account of a permission.
abbrev ranked : String → String → Bool
ranked r required = ltb 0 (rank required) && leb (rank required) (rank r)

permission_of_viewer : (r : String) → has_permission r role_viewer ≡ ranked r role_viewer
unfolding has_permission
permission_of_viewer =
    by_role (λ r. has_permission r role_viewer ≡ ranked r role_viewer) refl refl refl refl
      (λ r o. rw (o.no_viewer, o.no_auditor, o.no_operator, o.no_admin) refl)

permission_of_auditor : (r : String) → has_permission r role_auditor ≡ ranked r role_auditor
unfolding has_permission
permission_of_auditor =
    by_role (λ r. has_permission r role_auditor ≡ ranked r role_auditor) refl refl refl refl
      (λ r o. rw (o.no_viewer, o.no_auditor, o.no_operator, o.no_admin) refl)

permission_of_operator : (r : String) → has_permission r role_operator ≡ ranked r role_operator
unfolding has_permission
permission_of_operator =
    by_role (λ r. has_permission r role_operator ≡ ranked r role_operator) refl refl refl refl
      (λ r o. rw (o.no_viewer, o.no_auditor, o.no_operator, o.no_admin) refl)

permission_of_admin : (r : String) → has_permission r role_admin ≡ ranked r role_admin
unfolding has_permission
permission_of_admin =
    by_role (λ r. has_permission r role_admin ≡ ranked r role_admin) refl refl refl refl
      (λ r o. rw (o.no_viewer, o.no_auditor, o.no_operator, o.no_admin) refl)

-- A role has a permission exactly if the required text is a role and stands no higher than it in the
-- order viewer, auditor, operator, admin, in which every other text stands below all four. A text is
-- valid exactly if it has the permission of a viewer.
pub has_permission-rank :
    (r required : String)
    → (has_permission r required ≡ (ltb 0 (rank required) && leb (rank required) (rank r)))
      × (is_valid r ≡ has_permission r role_viewer)
unfolding has_permission is_valid
has_permission-rank r required = (
  by_role (λ q. has_permission r q ≡ ranked r q) (permission_of_viewer r) (permission_of_auditor r)
      (permission_of_operator r) (permission_of_admin r)
      (λ q o. rw (o.no_viewer, o.no_auditor, o.no_operator, o.no_admin) refl) required,
  refl,
)
