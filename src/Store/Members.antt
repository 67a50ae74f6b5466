-- ===== src/Store/Members.antt =====
-- "Membership operations" of oidc-gateway/src/store.rs. A membership stands under a key by tenant,
-- and its role under a key by user.
use jetauth.Kv.{Kv, put, delete}
use jetauth.Action.{Action, ◌>>◌}
use jetauth.Store.Types.{Membership}
use jetauth.Store.Wire.{Wire}
use jetauth.Store.Access.{kv_get, kv_write, memberships}
use jetauth.Prelude.{
  Text, str, Result, ok, err, Option, none, some, List, [], strip_prefix, ◌∷◌, ◌++◌,
}

-- The key by tenant.
abbrev pub member_key : Text → Text → Text
member_key tenant_id user_id = str "tenant:" ++ (tenant_id ++ (str ":user:" ++ user_id))

abbrev pub user_prefix : Text → Text
user_prefix user_id = str "user:" ++ (user_id ++ str ":tenant:")

-- The key by user.
abbrev pub reverse_key : Text → Text → Text
reverse_key user_id tenant_id = user_prefix user_id ++ tenant_id

module _ {Payload : Type 0} (kv : Kv Payload) (wire : Wire Payload) where
  unfoldable pub add_membership : Membership → Action kv.State (Unit {0})
  add_membership m =
      kv_write kv (put (wire.membership.encode m) none) memberships
        (member_key m.tenant_id m.user_id)
      >> kv_write kv (put (wire.raw m.role) none) memberships (reverse_key m.user_id m.tenant_id)

  unfoldable pub get_membership : Text → Text → kv.State → Result (Option Membership)
  get_membership tenant_id user_id =
      kv_get kv wire.membership memberships (member_key tenant_id user_id)

  unfoldable pub remove_membership : Text → Text → Action kv.State (Unit {0})
  remove_membership tenant_id user_id =
      kv_write kv delete memberships (member_key tenant_id user_id)
      >> kv_write kv delete memberships (reverse_key user_id tenant_id)

  abbrev push_found :
      Result (Option Membership) → Result (List Membership) → Result (List Membership)
  push_found (err e) rest = err e
  push_found (ok none) rest = rest
  push_found (ok (some m)) (ok ms) = ok (m ∷ ms)
  push_found (ok (some m)) (err e) = err e

  -- The loop of `list_user_tenants` over the keys by user.
  unfoldable pub collect_tenants : Text → List Text → kv.State → Result (List Membership)
  unfolding get_membership
  collect_tenants user_id [] s = ok []
  collect_tenants user_id (key ∷ keys) s =
      let rest = collect_tenants user_id keys s in
      elim (strip_prefix (user_prefix user_id) key) [
        | none ↦ rest
        | some tenant_id ↦ push_found (get_membership tenant_id user_id s) rest
      ]

  unfoldable pub list_user_tenants : Text → kv.State → Result (List Membership)
  unfolding collect_tenants
  list_user_tenants user_id s = elim (kv.prefix_keys memberships (user_prefix user_id) s) [
    | ok keys ↦ collect_tenants user_id keys s
    | err e ↦ err e
  ]
