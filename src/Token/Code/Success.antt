-- ===== src/Token/Code/Success.antt =====
-- What a token response of `handle_code_exchange` of oidc-gateway/src/token.rs rests on.
use jetauth.Prelude.{
  Text, str, text_beq_iff, contains, Result, ok, err, ok_or, ℕ, ap, true, Option, none, some, ◌≡◌,
  text_eq,
}
use jetauth.Kv.{Kv}
use jetauth.Action.{tested-eq-ok, map_err-eq-ok, bind-eq-ok}
use jetauth.Util.Query.{form_value}
use jetauth.Store.Types.{User, AuthCode}
use jetauth.Store.Wire.{Wire}
use jetauth.Store.Users.{get_user}
use jetauth.Store.Codes.{get_auth_code_cas, consume_auth_code}
use jetauth.Token.Types.{Response, Host, Request}
use jetauth.Token.Issue.{required, require_user}
use jetauth.Token.Code.{check_auth_code, issue_for_code, redeem_code, handle_code_exchange}
use jetauth.Token.Code.Checks.{IsRedeemable, check_auth_code_iff}

pub ok_or-eq-ok {ℓ} : {A : Type ℓ} (o : Option A) (e : Text) (a : A) → ok_or o e ≡ ok a → o ≡ some a
ok_or-eq-ok none e a h = cc
ok_or-eq-ok (some b) e a h = cc

pub required-eq-ok {ℓ} :
    {A : Type ℓ} (e : Text) (r : Result (Option A)) (a : A) → required e r ≡ ok a → r ≡ ok (some a)
required-eq-ok e (ok o) a h = ap ok (ok_or-eq-ok o e a h)
required-eq-ok e (err x) a h = cc

module _ {Payload : Type 0} (kv : Kv Payload) (wire : Wire Payload) (host : Host kv.State) where
  -- The code of the request, as it stands in the store, with what the handler does before the user
  -- is looked up.
  pub record Redeemed (req : Request) (s : kv.State) : Type 0 where
    pub code : Text
    pub redirect_uri : Text
    pub auth_code : AuthCode
    pub revision : ℕ
    pub has_code : form_value req.form (str "code") ≡ some code
    pub has_redirect_uri : form_value req.form (str "redirect_uri") ≡ some redirect_uri
    pub may_use_grant : contains req.client.grant_types (str "authorization_code") ≡ true
    pub stored : get_auth_code_cas kv wire code s ≡ ok (some (auth_code, revision))
    pub redeemable :
        IsRedeemable host req.client redirect_uri
          (form_value req.form (str "code_verifier"))
          (req.now 0)
          auth_code
    pub consumed : (consume_auth_code kv wire code revision s).0 ≡ ok tt
    pub user : User
    pub has_user :
        get_user kv wire auth_code.user_id (consume_auth_code kv wire code revision s).1
        ≡ ok (some user)
    pub active : user.status ≡ str "active"

  redeem_code-redeems :
      (req : Request) (code redirect_uri : Text) (auth_code : AuthCode) (revision : ℕ)
      (s : kv.State) (response : Response)
      → (redeem_code kv wire host req code redirect_uri (auth_code, revision) s).0 ≡ ok response
      → (check_auth_code host req.client redirect_uri
            (form_value req.form (str "code_verifier"))
            (req.now 0)
            auth_code
          ≡ ok tt)
        × ((consume_auth_code kv wire code revision s).0 ≡ ok tt)
        × ((user : User) × (get_user kv wire auth_code.user_id
                (consume_auth_code kv wire code revision s).1
              ≡ ok (some user))
            × (user.status ≡ str "active"))
  unfolding redeem_code issue_for_code require_user
  redeem_code-redeems req code redirect_uri auth_code revision s response h =
      let (_, checked, h1) = bind-eq-ok _ _ s h in
      let (_, consumed, h2) = bind-eq-ok _ _ s h1 in
      let (user, has_user, h3) = bind-eq-ok _ _ (consume_auth_code kv wire code revision s).1 h2 in
      let (_, active, _) = bind-eq-ok _ _ (consume_auth_code kv wire code revision s).1 h3 in
      (
        checked,
        map_err-eq-ok _ _ consumed,
        (
          user,
          required-eq-ok _ _ _ has_user,
          (text_beq_iff user.status (str "active")).0 (tested-eq-ok _ _ active),
        ),
      )

  -- A grant that is answered with tokens redeems a stored code: the client may use the grant, the
  -- code passes every test, it has been consumed, and its user is there and active.
  pub handle_code_exchange-Redeemed :
      (req : Request) (s : kv.State) (response : Response)
      → (handle_code_exchange kv wire host req s).0 ≡ ok response
      → Redeemed req s
  unfolding handle_code_exchange
  handle_code_exchange-Redeemed req s response h =
      let (code, has_code, h1) = bind-eq-ok _ _ _ h in
      let (redirect_uri, has_uri, h2) = bind-eq-ok _ _ s h1 in
      let (_, may, h3) = bind-eq-ok _ _ s h2 in
      let ((auth_code, revision), stored, h4) = bind-eq-ok _ _ s h3 in
      let (checked, consumed, (user, has_user, active)) =
        redeem_code-redeems req code redirect_uri auth_code revision s response h4 in
      record {
        code = code;
        redirect_uri = redirect_uri;
        auth_code = auth_code;
        revision = revision;
        has_code = ok_or-eq-ok _ _ _ has_code;
        has_redirect_uri = ok_or-eq-ok _ _ _ has_uri;
        may_use_grant = tested-eq-ok _ _ may;
        stored = required-eq-ok _ _ _ stored;
        redeemable = (check_auth_code_iff host req.client redirect_uri _ _ auth_code).0 checked;
        consumed = consumed;
        user = user;
        has_user = has_user;
        active = active;
      }
