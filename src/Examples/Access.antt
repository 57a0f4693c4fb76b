-- ===== src/Examples/Access.antt =====
-- The theorem on roles, at an operator who needs an auditor's permission.
use atb.Prelude.{◌≡◌, true}
use atb.Roles.{
  has_permission, is_valid, has_permission-rank, role_viewer, role_auditor, role_operator,
}

has_permission-rank_example :
    (has_permission role_operator role_auditor ≡ true)
    × (is_valid role_operator ≡ has_permission role_operator role_viewer)
has_permission-rank_example = has_permission-rank role_operator role_auditor
