-- ===== src/Tests/Introspection.antt =====
-- A concrete introspection by a client with a secret.
use jetauth.Prelude.{Text, str, Result, ok, ℕ, true, some, [], ◌∷◌}
use jetauth.Json.{Json, Fields, bool, text, obj, field, end}
use jetauth.Kv.Memory.{Table}
use jetauth.Store.Types.{OidcClient}
use jetauth.Tests.{Value, client_value, client}

abbrev secret_client : OidcClient
secret_client = record client { client_secret = some (str "#secret") }

abbrev clients_stored : Table Value
clients_stored = (str "clients:client:app", (client_value secret_client, 1)) ∷ []

abbrev token_claims : Json
token_claims = obj (
    field (str "sub") (text (str "u1"))
      (field (str "token_type") (text (str "access")) (field (str "aud") (text (str "app")) end)))

abbrev verified_as : Text → Table Value → Result Json
verified_as token s = ok token_claims

abbrev ask_now : ℕ → ℕ
ask_now place = 120

abbrev told : Fields
told = field (str "active") (bool true) (
    field (str "sub") (text (str "u1")) (
      field (str "token_type") (text (str "access"))
        (field (str "aud") (text (str "app")) (field (str "client_id") (text (str "app")) end))))
