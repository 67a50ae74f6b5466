-- ===== src/Token/Rotation/Success.antt =====
-- What a token response of `handle_refresh` of oidc-gateway/src/token.rs rests on.
use jetauth.Prelude.{
  Text, str, text_beq_iff, contains, ltb, Result, ok, err, ℕ, refl, ap, Bool, true, false, Option,
  none, some, arith, ◌≤◌, ◌≡◌, ◌≢◌, ◌∙◌, text_eq,
}
use jetauth.Kv.{Kv}
use jetauth.Action.{Action, ◌>>◌, tested-eq-ok, map_err-eq-ok, bind-eq-ok}
use jetauth.Util.Query.{form_value}
use jetauth.Store.Types.{User, RefreshEntry}
use jetauth.Store.Wire.{Wire}
use jetauth.Store.Users.{get_user}
use jetauth.Store.Refresh.{get_refresh_token_cas, consume_refresh_token}
use jetauth.Token.Types.{Response, Host, Request, hex_sha256}
use jetauth.Token.Issue.{require_user}
use jetauth.Token.Code.Success.{ok_or-eq-ok, required-eq-ok}
use jetauth.Token.Rotation.{
  expire_if, require_active, reject_missing, reissue, rotate, rotate_or_reject, handle_refresh,
}
use jetauth.Token.Rotation.Family.{Accepts, check_binding_iff}

module _ {Payload : Type 0} (kv : Kv Payload) (wire : Wire Payload) where
  -- A block that goes on behind `expire_if` has failed no test and changed nothing there.
  pub expire_if-then :
      {A : Type 0} (b : Bool) (e hash : Text) (m : Action kv.State A) (s : kv.State) {a : A}
      → ((expire_if kv wire b e hash >> m) s).0 ≡ ok a
      → (b ≡ false) × ((m s).0 ≡ ok a)
  unfolding expire_if
  expire_if-then true e hash m s h =
      let (_, failed, _) = bind-eq-ok _ _ s h in let (_, _, k) = bind-eq-ok _ _ s failed in cc
  expire_if-then false e hash m s h = let (_, _, k) = bind-eq-ok _ _ s h in (refl, k)

  pub require_active-eq-ok :
      (b : Bool) (user_id : Text) (now : ℕ) (s : kv.State) {u : Unit {0}}
      → (require_active kv wire b user_id now s).0 ≡ ok u
      → (b ≡ true) × ((require_active kv wire b user_id now s).1 ≡ s)
  unfolding require_active
  require_active-eq-ok true user_id now s h = (refl, refl)
  require_active-eq-ok false user_id now s h = let (_, _, k) = bind-eq-ok _ _ s h in cc

  pub reject_missing-fails :
      (req : Request) (r : Result (Option Text)) (s : kv.State) (response : Response)
      → (reject_missing kv wire req r s).0 ≢ ok response
  unfolding reject_missing
  reject_missing-fails req (ok (some user_id)) s response h =
      let (_, _, h1) = bind-eq-ok _ _ s h in let (_, _, h2) = bind-eq-ok _ _ _ h1 in cc
  reject_missing-fails req (ok none) s response h = cc
  reject_missing-fails req (err e) s response h = cc

module _ {Payload : Type 0} (kv : Kv Payload) (wire : Wire Payload) (host : Host kv.State)
    (absolute_max : ℕ) where
  -- The refresh token of the request, as it stands in the store, with what the handler does before
  -- the user is looked up.
  pub record Rotates (req : Request) (s : kv.State) : Type 0 where
    pub refresh_token : Text
    pub entry : RefreshEntry
    pub revision : ℕ
    pub has_token : form_value req.form (str "refresh_token") ≡ some refresh_token
    pub may_use_grant : contains req.client.grant_types (str "refresh_token") ≡ true
    pub stored :
        get_refresh_token_cas kv wire (hex_sha256 host refresh_token) s
        ≡ ok (some (entry, revision))
    pub accepted : Accepts absolute_max req entry
    pub consumed :
        (consume_refresh_token kv wire (hex_sha256 host refresh_token) revision entry.user_id s).0
        ≡ ok tt
    pub user : User
    pub has_user :
        get_user kv wire entry.user_id
          (consume_refresh_token kv wire (hex_sha256 host refresh_token) revision entry.user_id s).1
        ≡ ok (some user)
    pub active : user.status ≡ str "active"

  lt-eq-false : (a b : ℕ) → ltb a b ≡ false → b ≤ a
  lt-eq-false a b h = ground arith

  rotate-rotates :
      (req : Request) (hash : Text) (entry : RefreshEntry) (revision : ℕ) (s : kv.State)
      (response : Response)
      → (rotate kv wire host absolute_max req hash entry revision s).0 ≡ ok response
      → Accepts absolute_max req entry
        × ((consume_refresh_token kv wire hash revision entry.user_id s).0 ≡ ok tt)
        × ((user : User) × (get_user kv wire entry.user_id
                (consume_refresh_token kv wire hash revision entry.user_id s).1
              ≡ ok (some user))
            × (user.status ≡ str "active"))
  unfolding rotate reissue require_user
  rotate-rotates req hash entry revision s response h =
      let (_, same, h1) = bind-eq-ok _ _ s h in
      let (_, bound, h2) = bind-eq-ok _ _ s h1 in
      let (live, h3) = expire_if-then kv wire _ _ hash _ s h2 in
      let (in_time, h4) = expire_if-then kv wire _ _ hash _ s h3 in
      let (_, consumed, h5) = bind-eq-ok _ _ s h4 in
      let (user, has_user, h6) = bind-eq-ok _ _ _ h5 in
      let (_, active, _) = bind-eq-ok _ _ _ h6 in
      (
        (
          (text_beq_iff entry.client_id req.client.client_id).0 (tested-eq-ok _ _ same),
          (check_binding_iff entry.dpop_jkt req.dpop_jkt).0 bound,
          lt-eq-false _ _ live,
          lt-eq-false _ _ in_time,
        ),
        map_err-eq-ok _ _ consumed,
        (
          user,
          required-eq-ok _ _ _ has_user,
          (text_beq_iff user.status (str "active")).0
              (require_active-eq-ok kv wire _ _ _ _ active).0,
        ),
      )

  rotate_or_reject-rotate :
      (req : Request) (hash : Text) (read : Option (RefreshEntry × ℕ)) (s : kv.State)
      (response : Response)
      → (rotate_or_reject kv wire host absolute_max req hash read s).0 ≡ ok response
      → (entry : RefreshEntry) × (revision : ℕ) × (read ≡ some (entry, revision))
        × ((rotate kv wire host absolute_max req hash entry revision s).0 ≡ ok response)
  unfolding rotate_or_reject
  rotate_or_reject-rotate req hash none s response h =
      absurd (reject_missing-fails kv wire req _ s response h)
  rotate_or_reject-rotate req hash (some (entry, revision)) s response h =
      (entry, revision, refl, h)

  -- A refresh that is answered with tokens rotates a stored token: the client may use the grant and
  -- is the token's own, the proof is made with the key that the token is bound to if there is one,
  -- neither the token nor its family has expired, the token has been consumed, and its user is
  -- there and active.
  pub handle_refresh-Rotates :
      (req : Request) (s : kv.State) (response : Response)
      → (handle_refresh kv wire host absolute_max req s).0 ≡ ok response
      → Rotates req s
  unfolding handle_refresh
  handle_refresh-Rotates req s response h =
      let (refresh_token, has_token, h1) = bind-eq-ok _ _ s h in
      let (_, may, h2) = bind-eq-ok _ _ s h1 in
      let (read, stored, h3) = bind-eq-ok _ _ s h2 in
      let (entry, revision, same, h4) = rotate_or_reject-rotate req _ read s response h3 in
      let (accepted, consumed, (user, has_user, active)) =
        rotate-rotates req _ entry revision s response h4 in
      record {
        refresh_token = refresh_token;
        entry = entry;
        revision = revision;
        has_token = ok_or-eq-ok _ _ _ has_token;
        may_use_grant = tested-eq-ok _ _ may;
        stored = stored ∙ ap ok same;
        accepted = accepted;
        consumed = consumed;
        user = user;
        has_user = has_user;
        active = active;
      }
