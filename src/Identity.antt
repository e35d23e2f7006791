-- ===== src/Identity.antt =====
-- apps/api/internal/auth/oidc.go: who a token stands for, and
-- apps/api/internal/middleware/auth.go and rbac.go: who passes a route.
-- Keycloak's verifier is a parameter.
pub mod Rights
pub mod Samples
use cledyu.Base.{
  ℕ, String, Bool, true, false, not, ◌&&◌, ◌||◌, List, [], ◌∷◌, Option, none, some, GoMap, lookup,
  str_eq, ltb, ◌==◌, if◌then◌else◌, has_prefix, trim_prefix,
}

pub record Identity : Type 0 where
  pub subject : String
  pub email : String
  pub name : String
  pub roles : List String
  pub groups : List String

pub record Claims : Type 0 where
  pub sub : String
  pub claimed_email : String
  pub claimed_name : String
  pub preferred_username : String
  pub claimed_groups : List String
  pub realm_roles : List String

unfoldable pub identity : Claims → Identity
identity c = record {
  subject = c.sub;
  email = c.claimed_email;
  name = if str_eq c.claimed_name "" then c.preferred_username else c.claimed_name;
  roles = c.realm_roles;
  groups = c.claimed_groups;
}

abbrev pub org_group_prefix : String
org_group_prefix = "org-"

unfoldable pub org_of : List String → String
org_of [] = "public"
org_of (g ∷ l) =
    let name = trim_prefix g "/" in
    let rest = org_of l in if has_prefix name org_group_prefix then name else rest

abbrev pub org : Identity → String
org id = org_of id.groups

abbrev pub has : String → List String → Bool
has want [] = false
has want (r ∷ l) = str_eq r want || has want l

unfoldable pub role : Identity → String
role id =
    if has "admin" id.roles
    then "admin"
    else if has "instructor" id.roles
    then "instructor"
    else "student"

-- A verified token: the nonce that it carries, and its claims, if they can be parsed.
pub record Verified : Type 0 where
  pub nonce : String
  pub claims : Option Claims

pub record Verifier : Type 0 where
  pub id_verify : String → Option Verified
  pub access_verify : String → Option Verified

abbrev pub identity_of : Option Claims → Option Identity
identity_of none = none
identity_of (some c) = some (identity c)

abbrev pub read_claims : Verified → Option Identity
read_claims v = identity_of v.claims

abbrev pub read_verified : Option Verified → Option Identity
read_verified none = none
read_verified (some v) = read_claims v

-- the id_token of a token response, if it has one
unfoldable pub verify_id_token : Verifier → Option String → String → Option Identity
unfolding identity
verify_id_token p none want = none
verify_id_token p (some raw) want = if str_eq raw "" then none else elim (p.id_verify raw) [
  | none ↦ none
  | some v ↦ if str_eq v.nonce want then read_claims v else none
]

unfoldable pub verify_access_token : Verifier → String → Option Identity
unfolding identity
verify_access_token p raw = read_verified (p.access_verify raw)

pub record Request : Type 0 where
  -- the access_token cookie, the Authorization header and the query parameter
  pub cookie : Option String
  pub authorization : String
  pub query_token : String

unfoldable pub extract_token : Request → String
extract_token r = elim r.cookie [
  | some t ↦ t
  | none ↦
      if has_prefix r.authorization "Bearer "
      then trim_prefix r.authorization "Bearer "
      else r.query_token
]

pub record Context : Type 0 where
  pub user_id : String
  pub user_email : String
  pub user_name : String
  pub user_role : String
  pub user_org : String

pub data Outcome : Type 0 where
  next : Context → Outcome
  aborts : ℕ → Outcome

abbrev pub dev_context : Context
dev_context = record {
  user_id = "dev-user";
  user_email = "dev@cledyu.local";
  user_name = "Dev User";
  user_role = "admin";
  user_org = "public";
}

unfoldable pub context_of : Identity → Context
unfolding role org_of
context_of id = record {
  user_id = id.subject;
  user_email = id.email;
  user_name = id.name;
  user_role = role id;
  user_org = org id;
}

abbrev pub admitted : Option Identity → Outcome
admitted none = aborts 401
admitted (some id) = next (context_of id)

unfoldable pub jwt : Option Verifier → Bool → Request → Outcome
unfolding context_of extract_token verify_access_token
jwt none dev r = if dev then next dev_context else aborts 503
jwt (some p) dev r =
    let token = extract_token r in
    if str_eq token "" then aborts 401 else admitted (verify_access_token p token)

abbrev pub role_ranks : GoMap ℕ
role_ranks = ("student", 1) ∷ ("instructor", 2) ∷ ("admin", 3) ∷ []

unfoldable pub role_rank : String → ℕ
role_rank r = elim (lookup r role_ranks) [ some n ↦ n | none ↦ 0 ]

-- whether the role of the context is let through
unfoldable pub allows : String → String → Bool
unfolding role_rank
allows min r = not (role_rank min == 0 || ltb (role_rank r) (role_rank min))

unfoldable pub require_min_role : String → Context → Outcome
unfolding allows
require_min_role min c = if allows min c.user_role then next c else aborts 403

unfoldable pub then_role : String → Outcome → Outcome
unfolding require_min_role
then_role min (next c) = require_min_role min c
then_role min (aborts n) = aborts n

-- a group of routes behind both
unfoldable pub guarded : Option Verifier → Bool → String → Request → Outcome
unfolding jwt then_role
guarded p dev min r = then_role min (jwt p dev r)
