-- ===== src/Lib.antt =====
-- JetAuth: an OpenID Connect provider. oidc-gateway is the server; it keeps all of its state in a
-- key-value service (jetcache) that it reaches over TCP, and answers the endpoints of OAuth 2.1 and
-- OpenID Connect. This library models the core of the server and proves what makes it correct.
--
-- The parts, and the files that model them:
--   * Util models oidc-gateway/src/util.rs: percent coding (Util/Percent), query strings and forms
--     (Util/Query), HTML and JavaScript escaping (Util/Html, Util/Script), the authorization
--     response (Util/Redirect), and the test for private and reserved addresses (Util/Address).
--     Util/Utf8 is `String::from_utf8_lossy` of the standard library.
--   * Kv is what oidc-gateway/src/store.rs relies on of the key-value service: a record of requests
--     and laws. A request may fail with or without having been applied. Kv/Memory is the in-memory
--     service that the tests of store.rs run against, which fills the record (Kv/Memory/Laws).
--   * Store models oidc-gateway/src/store.rs: the records (Store/Types), the typed requests
--     (Store/Access), authorization codes, refresh tokens and revocation markers, users with their
--     registration and updates (Store/Accounts), memberships, clients, consents, sessions, the
--     lockout of accounts (Store/Lockout), known addresses, and the values that are used once
--     (Store/OneTime). Store/Wire stands for serde_json: a codec for each record.
--   * Token models oidc-gateway/src/token.rs: `handle` (Token/Endpoint), which authenticates the client
--     and asks the limiter, `handle_code_exchange` (Token/Code), `handle_refresh`
--     (Token/Rotation), the grants of devices (Token/Device) and clients
--     (Token/ClientCredentials), `handle_revoke` (Token/Revoke),
--     `handle_introspect` (Token/Introspect), `build_claims` (Token/Claims),
--     `map_token_error` (Token/Errors), and the
--     helpers for hashes and PKCE (Token/Types). The steps that the grants share are in Token/Issue.
--   * ClientAuth models oidc-gateway/src/client_auth.rs: the secrets, the claims of assertions, and the
--     choice of the method (ClientAuth/Methods). Jwt models the verification with published keys
--     of oidc-gateway/src/jwt.rs, and Dpop the proofs of possession of oidc-gateway/src/dpop.rs.
--   * Authorize models `handle` of oidc-gateway/src/authorize.rs: the claims parameter
--     (Authorize/Claims), the tests before and after the redirect URI (Authorize/Redirect), the
--     browser session of oidc-gateway/src/account.rs (Authorize/Session), what is answered then
--     (Authorize/Flow), and the whole handler (Authorize/Handle). Par models `handle_par` of
--     oidc-gateway/src/par.rs, whose entries that handler reads.
--   * Device models oidc-gateway/src/device.rs: the request of a device (Device/Start), the entry of a
--     user code (Device/Submit), and the confirmation (Device/Confirm).
--   * Totp models oidc-gateway/src/totp.rs: base32, the comparison in constant time, the codes and
--     the window of their steps.
--   * Services/Authz models oidc-gateway/src/services/authz.rs: roles, callers, and what they may do.
--     Services/Tenants models the members of a tenant and its life
--     (Services/Tenants/Lifecycle; oidc-gateway/src/services/tenants.rs), in the
--     shape of Services/Api: functions of the state to a value or an API error.
--   * Abuse models oidc-gateway/src/abuse.rs: the rate limiter (`check_rate`), with five attempts.
--   * Json is the part of serde_json that the claims use, and Action the shape of the handlers:
--     functions from the state of the service to a result and the next state, in which what was
--     written before an error stays written.
--   * Prelude holds the shared names: texts as lists of bytes, Boolean tests, and results.
--   * Tests holds concrete inputs: the theorems are applied there to requests that run.
--
-- How the code corresponds to the definitions: a function keeps its name, `?` and early returns are
-- the bind of Action, `let _ = m` is `ignore`, and a loop is a recursion over the list that it runs
-- over. A clock reading is a function of the place that reads it, so that time may pass between any
-- two of them. Random texts, SHA-256, HMAC, base64, JSON parsing and signatures are fields of
-- Token/Types.Host, Token/Types.Request, Jwt.Crypto, ClientAuth.Verifier and Authorize/Handle.Host;
-- nothing is assumed of them but where a theorem says so.
--
-- Bounds: the digits of a number n are written with fuel n + 1 (Abuse), which is enough since each
-- step divides by ten, and the loops of the limiter, of the
-- lockout and of the user's update have the five attempts of the code; nothing else needs
-- fuel. The table of the tenants has its default name.
-- Times are natural numbers; the sums that a configured duration enters are taken modulo 2 ^ 64, and a clock is taken to be far enough below 2 ^ 64 that adding
-- thirty days does not wrap. Bytes are natural numbers, with the range as a hypothesis where it
-- matters.
--
-- Not modelled: the transport of the requests (TCP, retries, multi-region routing), metrics and
-- back-channel notifications, which write to other services, the audit log, the texts of cookies and
-- pages, the signing keys, the other endpoints (login and consent, management, SAML, SCIM, passkeys,
-- the admin panel), and the
-- listings of the store.
pub mod Prelude
pub mod Totp
pub mod Device
pub mod Jwt
pub mod Authorize
pub mod Par
pub mod ClientAuth
pub mod Dpop
pub mod Util
pub mod Json
pub mod Kv
pub mod Action
pub mod Store
pub mod Token
pub mod Abuse
pub mod Services
pub mod Tests
