-- ===== src/Authorization/Tables.antt =====
-- The tables behind src/features/authorization/infrastructure/repositories (role.repository.ts,
-- admin-permission.repository.ts, user-role.repository.ts), with the keys and cascades that the
-- entities declare. A table is the list of its rows; an insertion with `orIgnore` leaves out a row
-- whose key is there.
pub mod Gains
use nest_backend.Common.{
  ℕ, List, [], ◌∷◌, ◌++◌, Option, none, some, Bool, true, false, not, ◌&&◌, if◌then◌else◌, ◌==◌,
  any, length, filter_by,
}
use nest_backend.Common.Text.{Text, text_eq}
use nest_backend.Authorization.{Permission, code, has, add_all}

pub record AdminPermission : Type 0 where
  pub user_id : Text
  pub permission : Permission
  pub granted_by_id : Option Text

pub record Role : Type 0 where
  pub id : Text
  pub name : Text
  pub description : Text
  pub is_system : Bool

pub record RolePermission : Type 0 where
  pub role_id : Text
  pub permission : Permission

pub record UserRoleAssignment : Type 0 where
  pub user_id : Text
  pub role_id : Text
  pub assigned_by_id : Option Text

pub record Tables : Type 0 where
  pub grants : List AdminPermission
  pub roles : List Role
  pub role_permissions : List RolePermission
  pub assignments : List UserRoleAssignment

-- `AdminPermissionRepository.findByUserId`
abbrev pub find_by_user_id : List AdminPermission → Text → List Permission
find_by_user_id [] user_id = []
find_by_user_id (row ∷ rows) user_id =
    let rest = find_by_user_id rows user_id in
    if text_eq row.user_id user_id then row.permission ∷ rest else rest

-- One of the rows of an insertion.
abbrev pub insert_grant :
    List AdminPermission → Text → Permission → Option Text → List AdminPermission
insert_grant rows user_id permission granted_by_id =
    if has (find_by_user_id rows user_id) permission
    then rows
    else rows
      ++ (record { user_id = user_id; permission = permission; granted_by_id = granted_by_id }) ∷ []

abbrev pub grant :
    List AdminPermission → Text → List Permission → Option Text → List AdminPermission
grant rows user_id [] granted_by_id = rows
grant rows user_id (permission ∷ permissions) granted_by_id =
    grant (insert_grant rows user_id permission granted_by_id) user_id permissions granted_by_id

unfoldable pub revoke : List AdminPermission → Text → List Permission → List AdminPermission
revoke rows user_id permissions =
    filter_by (λ row. not (text_eq row.user_id user_id && has permissions row.permission)) rows

-- `RoleRepository.findById`
abbrev pub find_role : List Role → Text → Option Role
find_role [] id = none
find_role (role ∷ roles) id = if text_eq role.id id then some role else find_role roles id

abbrev pub find_by_name : List Role → Text → Option Role
find_by_name [] name = none
find_by_name (role ∷ roles) name =
    if text_eq role.name name then some role else find_by_name roles name

abbrev pub get_or_keep : Option Text → Text → Text
get_or_keep none old = old
get_or_keep (some new) old = new

-- `RoleRepository.update`
abbrev pub update : List Role → Text → Option Text → Option Text → List Role
update [] id name description = []
update (role ∷ roles) id name description =
    let rest = update roles id name description in
    let patched : Role = record role {
      name = get_or_keep name role.name;
      description = get_or_keep description role.description;
    } in
    if text_eq role.id id then patched ∷ rest else role ∷ rest

-- `RoleRepository.permissionsOf`
abbrev pub permissions_of : List RolePermission → Text → List Permission
permissions_of [] role_id = []
permissions_of (row ∷ rows) role_id =
    let rest = permissions_of rows role_id in
    if text_eq row.role_id role_id then row.permission ∷ rest else rest

abbrev pub without_role : List RolePermission → Text → List RolePermission
without_role rows role_id = filter_by (λ row. not (text_eq row.role_id role_id)) rows

abbrev pub insert_permission : List RolePermission → Text → Permission → List RolePermission
insert_permission rows role_id permission =
    if has (permissions_of rows role_id) permission
    then rows
    else rows ++ (record { role_id = role_id; permission = permission }) ∷ []

abbrev pub insert_permissions : List RolePermission → Text → List Permission → List RolePermission
insert_permissions rows role_id [] = rows
insert_permissions rows role_id (permission ∷ permissions) =
    insert_permissions (insert_permission rows role_id permission) role_id permissions

unfoldable pub set_permissions : List RolePermission → Text → List Permission → List RolePermission
set_permissions rows role_id permissions =
    insert_permissions (without_role rows role_id) role_id permissions

-- `RoleRepository.delete`; the permissions of the role go with it.
unfoldable pub delete_rows : Tables → Text → Tables
delete_rows t id = record t {
  roles = filter_by (λ role. not (text_eq role.id id)) t.roles;
  role_permissions = without_role t.role_permissions id;
}

-- The account is assigned the role.
abbrev pub is_assigned : List UserRoleAssignment → Text → Text → Bool
is_assigned rows user_id role_id =
    any (λ row. text_eq row.user_id user_id && text_eq row.role_id role_id) rows

unfoldable pub assign :
    List UserRoleAssignment → Text → Text → Option Text → List UserRoleAssignment
assign rows user_id role_id assigned_by_id =
    if is_assigned rows user_id role_id
    then rows
    else rows
      ++ (record { user_id = user_id; role_id = role_id; assigned_by_id = assigned_by_id }) ∷ []

unfoldable pub unassign : List UserRoleAssignment → Text → Text → List UserRoleAssignment
unassign rows user_id role_id =
    filter_by (λ row. not (text_eq row.user_id user_id && text_eq row.role_id role_id)) rows

unfoldable pub count_assignments : List UserRoleAssignment → Text → ℕ
count_assignments rows role_id = length (filter_by (λ row. text_eq row.role_id role_id) rows)

-- The join of `permissionsForUser`.
abbrev pub joined : List RolePermission → List UserRoleAssignment → Text → List Permission
joined [] assignments user_id = []
joined (row ∷ rows) assignments user_id =
    let rest = joined rows assignments user_id in
    if is_assigned assignments user_id row.role_id then row.permission ∷ rest else rest

unfoldable pub permissions_for_user : Tables → Text → List Permission
permissions_for_user t user_id = add_all [] (joined t.role_permissions t.assignments user_id)
