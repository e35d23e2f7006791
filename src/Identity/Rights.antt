-- ===== src/Identity/Rights.antt =====
-- Which roles pass, and what a request that passes has shown.
use cledyu.Base.{
  String, ◌≡◌, refl, sym, ap, subst, ◌∙◌, Bool, true, false, ◌||◌, List, [], ◌∷◌, ◌++◌, Option,
  none, some, arith, lookup, str_eq, if◌then◌else◌, has_prefix, trim_prefix, All,
}
use cledyu.Identity.{
  Identity, identity, Claims, org_group_prefix, org_of, has, role, Verified, Verifier,
  verify_access_token, Request, extract_token, Context, next, aborts, context_of, admitted, jwt,
  role_rank, allows, require_min_role, guarded, identity_of, read_verified, then_role,
}

-- What a route that asks for `min` asks of the roles of a user.
abbrev pub meant : String → List String → Bool
meant min roles =
    if str_eq "student" min
    then true
    else if str_eq "instructor" min
    then has "admin" roles || has "instructor" roles
    else if str_eq "admin" min
    then has "admin" roles
    else false

ranks : (role_rank "student" ≡ 1) × (role_rank "instructor" ≡ 2) × (role_rank "admin" ≡ 3)
unfolding role_rank lookup str_eq
ranks = (refl, refl, refl)

rank_of :
    (min : String)
    → role_rank min ≡ (
        if str_eq "student" min
        then 1
        else if str_eq "instructor" min
        then 2
        else if str_eq "admin" min
        then 3
        else 0)
unfolding role_rank lookup
rank_of min = ground arith

admin_meant : (id : Identity) → allows "admin" (role id) ≡ true → has "admin" id.roles ≡ true
unfolding allows role
admin_meant id h = ground (arith, ranks.0, ranks.1, ranks.2)

-- A route lets a user's role through exactly where it should: student routes let everyone through,
-- instructor routes instructors and admins, admin routes admins, and a route with an unknown minimum
-- no one.
pub allows-role : (min : String) (id : Identity) → allows min (role id) ≡ meant min id.roles
unfolding allows role
allows-role min id = ground (arith, rank_of min, ranks.0, ranks.1, ranks.2)

identity_by :
    (o : Option Claims) (id : Identity)
    → identity_of o ≡ some id
    → (k : Claims) × (o ≡ some k) × (identity k ≡ id)
identity_by none id h = absurd (ground arith)
identity_by (some k) id h = (k, refl, ground arith)

verified_by :
    (o : Option Verified) (id : Identity)
    → read_verified o ≡ some id
    → (t : Verified) × (k : Claims) × (o ≡ some t) × (t.claims ≡ some k) × (identity k ≡ id)
verified_by none id h = absurd (ground arith)
verified_by (some t) id h = let (k, e, q) = identity_by t.claims id h in (t, k, refl, e, q)

if_next :
    (b : Bool) (x c : Context) → (if b then next x else aborts 403) ≡ next c → (b ≡ true) × (x ≡ c)
if_next true x c h = (refl, ground arith)
if_next false x c h = absurd (ground arith)

-- what a request has shown that passes with the identity `o`
then_admitted :
    (o : Option Identity) (c : Context)
    → then_role "admin" (admitted o) ≡ next c
    → (id : Identity) × (o ≡ some id) × (has "admin" id.roles ≡ true) × (c.user_id ≡ id.subject)
unfolding then_role require_min_role context_of
then_admitted none c h = absurd (ground arith)
then_admitted (some id) c h =
    let (e, q) = if_next (allows "admin" (role id)) (context_of id) c h in
    (id, refl, admin_meant id e, ap (λ x. x.user_id) (sym q))

-- Where a release runs, a request passes an admin route only with a token that Keycloak verifies and
-- whose realm roles have "admin", as the user of that token; without a provider none passes.
pub guarded-admin :
    (p : Option Verifier) (r : Request) (c : Context)
    → guarded p false "admin" r ≡ next c
    → (v : Verifier) × (t : Verified) × (k : Claims) × (p ≡ some v)
      × (v.access_verify (extract_token r) ≡ some t)
      × (t.claims ≡ some k)
      × (has "admin" k.realm_roles ≡ true)
      × (c.user_id ≡ k.sub)
unfolding guarded jwt then_role verify_access_token identity
guarded-admin none r c h = absurd (ground arith)
guarded-admin (some v) r c h =
    let (id, o, a, s) = then_admitted (verify_access_token v (extract_token r)) c (ground arith) in
    let (t, k, e, q, same) = verified_by (v.access_verify (extract_token r)) id o in
    (
      v,
      t,
      k,
      refl,
      e,
      q,
      subst (λ x. has "admin" x.roles ≡ true) (sym same) a,
      s ∙ ap (λ x. x.subject) (sym same),
    )

skipped :
    (l r : List String)
    → All (λ g. has_prefix (trim_prefix g "/") org_group_prefix ≡ false) l
    → org_of (l ++ r) ≡ org_of r
unfolding org_of
skipped [] r h = refl
skipped (g ∷ l) r (h, hs) = rw (h, skipped l r hs) refl

-- The organisation is that of the first group of one in the order of the claim, whatever comes behind.
pub org_of-first :
    (l r : List String) (g : String)
    → All (λ x. has_prefix (trim_prefix x "/") org_group_prefix ≡ false) l
    → has_prefix (trim_prefix g "/") org_group_prefix ≡ true
    → org_of (l ++ g ∷ r) ≡ trim_prefix g "/"
unfolding org_of
org_of-first l r g h e = skipped l (g ∷ r) h ∙ rw e refl
