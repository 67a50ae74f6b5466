-- ===== src/Tests/Authorization.antt =====
-- A concrete request to /authorize: it is answered with the page for the login, and a session that
-- waits for it.
use jetauth.Prelude.{Text, str, err, true, none, some, [], ◌∷◌}
use jetauth.Kv.Memory.{Table}
use jetauth.Store.Records.{AuthSession}
use jetauth.Authorize.Flow.{Answer, login_page}
use jetauth.Authorize.Handle.{Host}
use jetauth.Tests.{Value, client_value, client}

abbrev host : Host (Table Value)
host = record {
  same_client = λ a b. true;
  from_slice = λ t. err (str "no JSON");
  verify_token_scoped = λ raw issuer client_id s. err (str "no token");
  sha256_hex = λ t. t;
  clock = λ place. 100;
  draws = record {
    now = 100;
    code = str "c1";
    sid = str "s1";
    csrf_token = str "x1";
    session_id = str "a1";
    account_token = str "t1";
    account_csrf = str "y1";
    sha256_hex = λ t. t;
  };
}

abbrev clients_stored : Table Value
clients_stored = (str "clients:client:app", (client_value client, 1)) ∷ []

abbrev query : Text
query = str "client_id=app&redirect_uri=https://app/cb&response_type=code&code_challenge=ch"

abbrev waiting_session : AuthSession
waiting_session = record {
  client_id = str "app";
  redirect_uri = str "https://app/cb";
  code_challenge = str "ch";
  code_challenge_method = str "S256";
  state = [];
  scope = str "openid";
  nonce = [];
  max_age = none;
  acr_values = [];
  requested_id_token_claims = [];
  requested_userinfo_claims = [];
  hinted_user_id = none;
  hinted_email = none;
  created_at = 100;
  needs_consent = true;
  prompt = none;
  sid = some (str "s1");
}

abbrev login_shown : Answer
login_shown = login_page (str "a1") waiting_session
