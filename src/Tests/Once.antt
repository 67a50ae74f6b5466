-- ===== src/Tests/Once.antt =====
-- Values that are used once, failed logins, registrations and consents on the in-memory service.
use jetauth.Prelude.{
  Text, str, text_beq, contains_text, contains, ok, ℕ, refl, true, none, some, List, [], ◌+◌, ◌≤◌,
  ◌≡◌, ◌↔◌, ◌∷◌, ◌>>=◌,
}
use jetauth.Kv.Memory.{Table, find}
use jetauth.Store.OneTime.{is_mismatch, take, check_and_record_jti}
use jetauth.Store.OneTime.Taken
use jetauth.Store.OneTime.Taken.{taken-le-one, handed}
use jetauth.Store.OneTime.Recorded
use jetauth.Store.OneTime.Recorded.{accepted-le-one, accepted_by}
use jetauth.Store.Lockout.{Policy, record_failed_login}
use jetauth.Store.Accounts.{create_user, initial_user}
use jetauth.Store.Accounts.Registered.{Registers, create_user-Registers}
use jetauth.Store.Consents.{save_user_consent, has_user_consented, get_user_consent}
use jetauth.Store.Consents.Granted.{Covers, has_user_consented-save_user_consent}
use jetauth.Tests.{Value, string_value, kv, wire, user}

abbrev saved : Table Value
saved = (str "sessions:gcsrf:t", (string_value (str "session"), 3)) ∷ []

-- A request that has read the value takes it.
abbrev after_take : Taken.System kv (str "gcsrf:t") → Taken.System kv (str "gcsrf:t")
after_take y =
    let out = take kv is_mismatch (str "gcsrf:t") (some (str "session", 3)) y.store in
    record { store = out.1; taken = y.taken + handed kv (str "gcsrf:t") out.0 }

abbrev waiting : Taken.System kv (str "gcsrf:t")
waiting = record { store = saved; taken = 0 }

-- Two requests have read it, and both try; the first one gets it.
first_taken : (after_take waiting).taken ≡ 1
unfolding jetauth.Store.OneTime.kv_cas_delete jetauth.Store.Access.kv_write jetauth.Kv.Memory.write
    find jetauth.Prelude.text_beq
first_taken = refl

both_take : Taken.Run kv (str "gcsrf:t") waiting (after_take (after_take waiting))
both_take =
    Taken.next (Taken.next Taken.here (Taken.deletes is_mismatch (str "session") 3))
      (Taken.deletes is_mismatch (str "session") 3)

taken-le-one_example : (after_take (after_take waiting)).taken ≤ 1
taken-le-one_example = taken-le-one kv (str "gcsrf:t") saved both_take

abbrev nobody : Table Value
nobody = []

-- Two requests with the same identifier, where the first one is accepted.
abbrev after_jti : Recorded.System kv wire (str "j") → Recorded.System kv wire (str "j")
after_jti y =
    let out = check_and_record_jti kv wire 100 (str "j") 300 y.store in
    record { store = out.1; accepted = y.accepted + accepted_by kv wire (str "j") out.0 }

abbrev unseen : Recorded.System kv wire (str "j")
unseen = record { store = nobody; accepted = 0 }

first_accepted : (after_jti unseen).accepted ≡ 1
unfolding check_and_record_jti jetauth.Store.Access.kv_write jetauth.Kv.Memory.write find
first_accepted = refl

both_present : Recorded.Run kv wire (str "j") unseen (after_jti (after_jti unseen))
both_present =
    Recorded.next (Recorded.next Recorded.here (Recorded.presents 100 300))
      (Recorded.presents 100 300)

accepted-le-one_example : (after_jti (after_jti unseen)).accepted ≤ 1
accepted-le-one_example = accepted-le-one kv wire (str "j") nobody both_present

abbrev policy : Policy
policy = record { max_failures = 2; duration = 900 }

abbrev clock : ℕ → ℕ → ℕ
clock left place = 100

abbrev once_missed : Table Value
once_missed = (record_failed_login kv wire policy clock (str "u1") nobody).1

abbrev hmac_email : Text → Text
hmac_email email = b'#' ∷ email

registered : (create_user kv wire hmac_email true user nobody).0 ≡ ok tt
unfolding create_user jetauth.Action.◌>>=◌ jetauth.Store.Access.kv_write jetauth.Kv.Memory.write
    find jetauth.Prelude.text_beq
registered = refl

create_user-Registers_example :
    Registers kv wire hmac_email
      (initial_user true user)
      nobody
      (create_user kv wire hmac_email true user nobody).1
create_user-Registers_example = create_user-Registers kv wire hmac_email true user nobody registered

abbrev scopes : List Text
scopes = str "openid" ∷ str "email" ∷ []

consent_missing : get_user_consent kv wire (str "u1") (str "app") nobody ≡ ok none
unfolding get_user_consent jetauth.Store.Access.kv_get jetauth.Kv.Memory.get find
    jetauth.Prelude.contains_text
consent_missing = refl

consent_saved : (save_user_consent kv wire 100 (str "u1") (str "app") scopes nobody).0 ≡ ok tt
unfolding save_user_consent jetauth.Action.◌>>=◌ jetauth.Store.Access.kv_get jetauth.Kv.Memory.get
    find jetauth.Prelude.contains_text jetauth.Store.Access.kv_write jetauth.Kv.Memory.write
consent_saved = refl

consented :
    has_user_consented kv wire
      (str "u1")
      (str "app")
      (str "email openid")
      (save_user_consent kv wire 100 (str "u1") (str "app") scopes nobody).1
    ≡ ok true
unfolding has_user_consented jetauth.Store.Access.kv_get jetauth.Kv.Memory.get find
    save_user_consent jetauth.Action.◌>>=◌ jetauth.Prelude.contains_text
    jetauth.Store.Access.kv_write jetauth.Kv.Memory.write jetauth.Prelude.text_beq
    jetauth.Prelude.contains
consented = refl

has_user_consented-save_user_consent_example :
    (true ≡ true) ↔ Covers kv wire [] scopes (str "email openid")
has_user_consented-save_user_consent_example =
    has_user_consented-save_user_consent kv wire 100 (str "u1") (str "app") scopes
      (str "email openid") none nobody true consent_missing consent_saved consented
