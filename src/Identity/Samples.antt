-- ===== src/Identity/Samples.antt =====
-- Instances of the theorems on concrete requests.
use cledyu.Base.{◌≡◌, refl, true, false, [], ◌∷◌, none, some, str_eq, if◌then◌else◌, lookup}
use cledyu.Identity.{
  Claims, has, Verified, Verifier, Request, extract_token, next, context_of, identity, guarded,
}
use cledyu.Identity.Rights.{guarded-admin}

abbrev admin_claims : Claims
admin_claims = record {
  sub = "u1";
  claimed_email = "a@b";
  claimed_name = "";
  preferred_username = "ann";
  claimed_groups = "/staff" ∷ "/org-kt" ∷ "/org-a" ∷ [];
  realm_roles = "student" ∷ "admin" ∷ [];
}

abbrev keycloak : Verifier
keycloak = record {
  id_verify = λ t. none;
  access_verify = λ t.
      if str_eq t "good" then some (record { nonce = ""; claims = some admin_claims }) else none;
}

abbrev request : Request
request = record { cookie = none; authorization = "Bearer good"; query_token = "" }

passes : guarded (some keycloak) false "admin" request ≡ next (context_of (identity admin_claims))
unfolding guarded str_eq lookup
passes = refl

guarded-admin_example :
    (v : Verifier) × (t : Verified) × (k : Claims) × (some keycloak ≡ some v)
    × (v.access_verify (extract_token request) ≡ some t)
    × (t.claims ≡ some k)
    × (has "admin" k.realm_roles ≡ true)
    × ((context_of (identity admin_claims)).user_id ≡ k.sub)
guarded-admin_example =
    guarded-admin (some keycloak) request (context_of (identity admin_claims)) passes
