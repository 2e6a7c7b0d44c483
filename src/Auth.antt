-- ===== src/Auth.antt =====
-- internal/auth/context.go and the access checks of internal/api/api.go.
use openlocal_api.Prelude.{
  ℕ, ◌≡◌, true, false, ◌||◌, List, Option, none, some, String, str_eq, if◌then◌else◌, arith,
}
use openlocal_api.Api.{fiber, Result, ok, err, ◌>>=◌, role_allowed}

-- auth.Context, without the profile fields that only UpsertUserFromClerk reads.
pub record AuthContext : Type 0 where
  pub clerk_user_id : String
  pub clerk_org_id : String
  pub org_role : String
  pub role : String
  pub user_id : ℕ

-- What a request is checked against: its context, the `users` row of a Clerk user
-- (UpsertUserFromClerk makes it when it is missing) and the role in `business_members` joined with
-- the business's organization (GetBusinessMemberRole).
pub record Session : Type 0 where
  pub context : Option AuthContext
  pub user_of : String → ℕ
  pub member_role : ℕ → ℕ → String → Option String

-- MapClerkRole
pub map_clerk_role : String → String
map_clerk_role role =
    if str_eq role "org:admin" || str_eq role "admin" || str_eq role "owner"
    then "owner"
    else if str_eq role "manager"
    then "manager"
    else if str_eq role "org:member" || str_eq role "member" || str_eq role "staff"
    then "staff"
    else ""

-- CurrentUser
unfoldable pub current_user : Session → Result AuthContext
current_user s = elim s.context [
  | none ↦ err (fiber 401 "missing auth context")
  | some a ↦
      if str_eq a.clerk_user_id ""
      then err (fiber 401 "missing auth context")
      else ok (record a { user_id = s.user_of a.clerk_user_id })
]

unfoldable pub member_check : Option String → List String → AuthContext → Result AuthContext
member_check none allowed a = err (fiber 403 "business membership is required")
member_check (some role) allowed a =
    if role_allowed role allowed then ok a else err (fiber 403 "role is not allowed")

-- RequireBusinessRole
unfoldable pub require_business_role : Session → ℕ → List String → Result AuthContext
unfolding member_check
require_business_role s business allowed = do
  a ← current_user s
  if str_eq a.clerk_org_id "" || str_eq a.role ""
      then err (fiber 403 "active Clerk organization is required")
      else if role_allowed a.role allowed
      then member_check (s.member_role business a.user_id a.clerk_org_id) allowed a
      else err (fiber 403 "role is not allowed")

abbrev pub IsAllowed : String → List String → Type 0
IsAllowed role allowed = role_allowed role allowed ≡ true

-- There is a membership row, and its role is allowed.
abbrev pub HoldsRole : Option String → List String → Type 0
HoldsRole none allowed = ⊥
HoldsRole (some role) allowed = IsAllowed role allowed

-- Access is granted only to a caller whose token names an organization and an allowed role, and whose
-- own row in the database holds an allowed role of that business and organization.
pub require_business_role_sound :
    (s : Session) (business : ℕ) (allowed : List String) {a : AuthContext}
    → require_business_role s business allowed ≡ ok a
    → (a.user_id ≡ s.user_of a.clerk_user_id)
      × IsAllowed a.role allowed
      × (str_eq a.clerk_org_id "" ≡ false)
      × HoldsRole (s.member_role business a.user_id a.clerk_org_id) allowed
unfolding require_business_role current_user
require_business_role_sound s business allowed h = ground arith
