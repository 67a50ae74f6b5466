-- ===== src/Token/Rotation/Replay.antt =====
-- A refresh token that comes again after `handle_refresh` of oidc-gateway/src/token.rs has rotated
-- it.
use jetauth.Prelude.{
  Text, text_beq_iff, ltb, ℕ, refl, Bool, true, false, none, some, arith, ◌≤◌, ◌≡◌, ◌⊎◌, ◌∙◌,
  text_eq,
}
use jetauth.Kv.{Kv}
use jetauth.Action.{Action, ◌>>◌, bind-ok}
use jetauth.Store.Wire.{Wire}
use jetauth.Store.Access.{sessions}
use jetauth.Store.Refresh.{refresh_key, consume_refresh_token}
use jetauth.Token.Types.{Host, Request, hex_sha256}
use jetauth.Token.Rotation.{expire_if, reissue, rotate, rotate_or_reject, handle_refresh}
use jetauth.Token.Rotation.Family.{check_binding_iff}
use jetauth.Token.Rotation.Success.{Rotates}

module _ {Payload : Type 0} (kv : Kv Payload) (wire : Wire Payload) (hash : Text) where
  -- The entry of the token is gone, or is a consumed marker.
  abbrev pub IsUsed : kv.State → Type 0
  IsUsed s =
      (kv.view s sessions (refresh_key hash) ≡ none)
      ⊎ ((u : Text) × (q : ℕ) × (kv.view s sessions (refresh_key hash)
            ≡ some (wire.consumed_by u, q)))

module _ {Payload : Type 0} (kv : Kv Payload) (wire : Wire Payload) (host : Host kv.State)
    (absolute_max : ℕ) where
  expire_if-passes :
      {A : Type 0} (b : Bool) (e hash : Text) (m : Action kv.State A) (s : kv.State)
      → b ≡ false
      → (expire_if kv wire b e hash >> m) s ≡ m s
  unfolding expire_if
  expire_if-passes true e hash m s h = cc
  expire_if-passes false e hash m s h = bind-ok _ _ s refl

  not_lt : (a b : ℕ) → b ≤ a → ltb a b ≡ false
  not_lt a b h = ground arith

  pub handle_refresh-reissue :
      (req : Request) (s : kv.State) (r : Rotates kv wire host absolute_max req s)
      → handle_refresh kv wire host absolute_max req s
        ≡ reissue kv wire host absolute_max req
            (hex_sha256 host r.refresh_token)
            r.entry
            (consume_refresh_token kv wire
              (hex_sha256 host r.refresh_token)
              r.revision
              r.entry.user_id
              s).1
  unfolding handle_refresh rotate_or_reject rotate
  handle_refresh-reissue req s r =
      let (same, bound, live, in_time) = r.accepted in
      bind-ok _ _ s {a = r.refresh_token} (rw r.has_token refl)
      ∙ bind-ok _ _ s {a = tt} (rw r.may_use_grant refl)
      ∙ bind-ok _ _ s {a = some (r.entry, r.revision)} r.stored
      ∙ bind-ok _ _ s {a = tt}
          (rw ((text_beq_iff r.entry.client_id req.client.client_id).1 same) refl)
      ∙ bind-ok _ _ s ((check_binding_iff r.entry.dpop_jkt req.dpop_jkt).1 bound)
      ∙ expire_if-passes _ _ _ _ s (not_lt _ _ live)
      ∙ expire_if-passes _ _ _ _ s (not_lt _ _ in_time)
      ∙ bind-ok _ _ s {a = tt} (rw r.consumed refl)
