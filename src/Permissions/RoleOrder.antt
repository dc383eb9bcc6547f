-- ===== src/Permissions/RoleOrder.antt =====
-- The order of a member's roles does not matter to `calculate` of js/permissions/evaluator.mjs.
use fount_p2p.Base.{
  ◌≡◌, refl, Option, none, some, List, [], ◌∷◌, Bool, true, false, arith, ◌&&◌, ◌||◌, not,
  Bool-cases, inl, inr, sym, ◌∙◌, subst,
}
use fount_p2p.Base.JsMap.{get}
use fount_p2p.Core.HexIds.{Text, text_dec, decided, IsIn}
use fount_p2p.Permissions.{
  Override, Overrides, Schema, Roles, role_overrides, calculate, prepend_found,
}
use fount_p2p.Permissions.Evaluator.{
  flag, role_flag, role_grants, any_allows, any_denies, in_scope, calculate_lem,
}

abbrev pub any_of : (Text → Bool) → List Text → Bool
any_of f [] = false
any_of f (id ∷ ids) = f id || any_of f ids

any_of-IsIn :
    (f : Text → Bool) (id : Text) (ids : List Text)
    → IsIn id ids
    → f id ≡ true
    → any_of f ids ≡ true
any_of-IsIn f id [] h k = absurd h
any_of-IsIn f id (x ∷ ids) (inl e) k = ground (arith, subst (λ y. f y ≡ true) (sym e) k)
any_of-IsIn f id (x ∷ ids) (inr h) k = ground (arith, any_of-IsIn f id ids h k)

any_of-Includes :
    (f : Text → Bool) (xs ys : List Text)
    → ((id : Text) → IsIn id xs → IsIn id ys)
    → any_of f xs ≡ true
    → any_of f ys ≡ true
any_of-Includes f [] ys there h = cc
any_of-Includes f (x ∷ xs) ys there h = elim (Bool-cases (f x)) [
  | inl holds ↦ any_of-IsIn f x ys (there x (inl refl)) holds
  | inr fails ↦ any_of-Includes f xs ys (λ id k. there id (inr k)) (ground arith)
]

any_of_agrees :
    (f : Text → Bool) (xs ys : List Text)
    → ((id : Text) → IsIn id xs → IsIn id ys)
    → ((id : Text) → IsIn id ys → IsIn id xs)
    → any_of f xs ≡ any_of f ys
any_of_agrees f xs ys there back = elim (Bool-cases (any_of f xs)) [
  | inl holds ↦ holds ∙ sym (any_of-Includes f xs ys there holds)
  | inr fails ↦ elim (Bool-cases (any_of f ys)) [
    | inl holds ↦ cc (any_of-Includes f ys xs back holds, fails)
    | inr also ↦ fails ∙ sym also
  ]
]

role_grants-any_of :
    (roles : Roles) (ids : List Text) (p : Text)
    → role_grants roles ids p ≡ any_of (λ id. role_flag (get text_dec id roles) p) ids
role_grants-any_of roles [] p = refl
role_grants-any_of roles (id ∷ ids) p = ground (arith, role_grants-any_of roles ids p)

abbrev allowed_by : Option Override → Text → Bool
allowed_by none p = false
allowed_by (some o) p = flag o.allow p

abbrev denied_by : Option Override → Text → Bool
denied_by none p = false
denied_by (some o) p = flag o.deny p

any_allows-prepend_found :
    (o : Option Override) (os : List Override) (p : Text)
    → any_allows (prepend_found o os) p ≡ (allowed_by o p || any_allows os p)
any_allows-prepend_found none os p = refl
any_allows-prepend_found (some o) os p = refl

any_denies-prepend_found :
    (o : Option Override) (os : List Override) (p : Text)
    → any_denies (prepend_found o os) p ≡ (denied_by o p || any_denies os p)
any_denies-prepend_found none os p = refl
any_denies-prepend_found (some o) os p = refl

any_allows-any_of :
    (e : Text) (os : Overrides) (ids : List Text) (p : Text)
    → any_allows (role_overrides e os ids) p
      ≡ any_of (λ id. not (decided (text_dec id e)) && allowed_by (get text_dec id os) p) ids
unfolding role_overrides
any_allows-any_of e os [] p = refl
any_allows-any_of e os (id ∷ ids) p = ground (
  arith,
  any_allows-any_of e os ids p,
  any_allows-prepend_found (get text_dec id os) (role_overrides e os ids) p,
)

any_denies-any_of :
    (e : Text) (os : Overrides) (ids : List Text) (p : Text)
    → any_denies (role_overrides e os ids) p
      ≡ any_of (λ id. not (decided (text_dec id e)) && denied_by (get text_dec id os) p) ids
unfolding role_overrides
any_denies-any_of e os [] p = refl
any_denies-any_of e os (id ∷ ids) p = ground (
  arith,
  any_denies-any_of e os ids p,
  any_denies-prepend_found (get text_dec id os) (role_overrides e os ids) p,
)

module _ (xs ys : List Text) (there : (id : Text) → IsIn id xs → IsIn id ys)
    (back : (id : Text) → IsIn id ys → IsIn id xs) where
  role_grants_agrees : (roles : Roles) (p : Text) → role_grants roles xs p ≡ role_grants roles ys p
  role_grants_agrees roles p =
      role_grants-any_of roles xs p
      ∙ any_of_agrees (λ id. role_flag (get text_dec id roles) p) xs ys there back
      ∙ sym (role_grants-any_of roles ys p)

  in_scope_agrees :
      (e : Text) (overrides : Option Overrides) (base : Bool) (p : Text)
      → in_scope e overrides xs base p ≡ in_scope e overrides ys base p
  in_scope_agrees e none base p = refl
  in_scope_agrees e (some os) base p = cc (
    any_allows-any_of e os xs p,
    any_allows-any_of e os ys p,
    any_denies-any_of e os xs p,
    any_denies-any_of e os ys p,
    any_of_agrees (λ id. not (decided (text_dec id e)) && allowed_by (get text_dec id os) p) xs ys
        there back,
    any_of_agrees (λ id. not (decided (text_dec id e)) && denied_by (get text_dec id os) p) xs ys
        there back,
  )

-- Two members with the same roles, in any order and with any repetition, have the same permissions.
pub calculate_agrees :
    (s : Schema) (xs ys : List Text) (roles : Roles) (overrides : Option Overrides) (p : Text)
    → ((id : Text) → IsIn id xs → IsIn id ys)
    → ((id : Text) → IsIn id ys → IsIn id xs)
    → calculate s xs roles overrides p ≡ calculate s ys roles overrides p
calculate_agrees s xs ys roles overrides p there back = cc (
  calculate_lem s xs roles overrides p,
  calculate_lem s ys roles overrides p,
  role_grants_agrees xs ys there back roles s.superuser_name,
  role_grants_agrees xs ys there back roles p,
  in_scope_agrees xs ys there back s.everyone_role_id overrides (role_grants roles ys p) p,
)
