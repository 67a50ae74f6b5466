-- ===== src/Store/Consents/Granted.antt =====
-- What a consent that `save_user_consent` of oidc-gateway/src/store.rs saves covers.
use jetauth.Prelude.{
  Text, is_empty, text_beq_iff, All, contains, Bool-cases, Result, ok, err, ℕ, refl, sym, ap, inl,
  inr, Bool, true, not, Option, none, some, List, [], map, arith, split_whitespace, ok_injective,
  ◌≡◌, ◌≢◌, ◌↔◌, ◌⊎◌, ◌&&◌, ◌||◌, ◌∷◌, ◌++◌, ◌∙◌, if◌then◌else◌, text_eq,
}
use jetauth.Kv.{Kv, put}
use jetauth.Action.{bind-ok}
use jetauth.Store.Types.{UserConsent}
use jetauth.Store.Wire.{Wire}
use jetauth.Store.Access.{users, kv_write}
use jetauth.Store.Access.Effects.{kv_write-done, kv_get-stands}
use jetauth.Store.Consents.{
  add_scope, add_scopes, scopes_of, all_granted, covered, get_user_consent, save_user_consent,
  has_user_consented, consent_key, record_of,
}
use jetauth.Abuse.{trim_start, trim_end}

abbrev trimmed : Text → Text
trimmed s = trim_end (trim_start s)

-- A scope that had been granted before, or that is now and is more than white space.
abbrev pub IsGranted : (before now : List Text) → Text → Type 0
IsGranted before now w =
    (contains before w ≡ true) ⊎ ((w ≢ []) × (contains (map trimmed now) w ≡ true))

contains-append :
    (xs ys : List Text) (w : Text) → contains (xs ++ ys) w ≡ (contains xs w || contains ys w)
unfolding contains
contains-append [] ys w = refl
contains-append (x ∷ xs) ys w = ground (arith, contains-append xs ys w)

contains-push_iff :
    (xs : List Text) (t w : Text)
    → (contains (xs ++ (t ∷ [])) w ≡ true) ↔ ((contains xs w ≡ true) ⊎ (t ≡ w))
unfolding contains
contains-push_iff xs t w = ground (arith, contains-append xs (t ∷ []) w, text_beq_iff t w)

push_iff :
    (xs : List Text) (t w : Text)
    → (contains (if not (is_empty t) && not (contains xs t) then xs ++ (t ∷ []) else xs) w ≡ true)
      ↔ ((contains xs w ≡ true) ⊎ ((w ≢ []) × (t ≡ w)))
push_iff xs [] w = (inl, λ g. elim g [ inl h ↦ h | inr (n, e) ↦ absurd (n (sym e)) ])
push_iff xs (c ∷ t) w = elim (Bool-cases (contains xs (c ∷ t))) [
  | inl there ↦ rw there (inl, λ g. elim g [ inl h ↦ h | inr (_, e) ↦ rw (← e) there ])
  | inr new ↦ rw new (
    λ h. elim ((contains-push_iff xs (c ∷ t) w).0 h) [
      | inl old ↦ inl old
      | inr e ↦ inr (λ n. cc, e)
    ],
    λ g. elim g [
      | inl h ↦ (contains-push_iff xs (c ∷ t) w).1 (inl h)
      | inr (_, e) ↦ (contains-push_iff xs (c ∷ t) w).1 (inr e)
    ],
  )
]

add_scope_iff :
    (xs : List Text) (s w : Text)
    → (contains (add_scope xs s) w ≡ true) ↔ ((contains xs w ≡ true) ⊎ ((w ≢ []) × (trimmed s ≡ w)))
unfolding add_scope
add_scope_iff xs s w = push_iff xs (trimmed s) w

add_scopes_iff :
    (xs new_scopes : List Text) (w : Text)
    → (contains (add_scopes xs new_scopes) w ≡ true) ↔ IsGranted xs new_scopes w
unfolding add_scopes contains
add_scopes_iff xs [] w = ground arith
add_scopes_iff xs (s ∷ new_scopes) w = ground (
  arith,
  add_scopes_iff (add_scope xs s) new_scopes w,
  add_scope_iff xs s w,
  text_beq_iff (trimmed s) w,
)

all_granted_iff :
    (scopes requested : List Text)
    → (all_granted scopes requested ≡ true) ↔ All (λ w. contains scopes w ≡ true) requested
unfolding all_granted
all_granted_iff scopes [] = (λ _. tt, λ _. refl)
all_granted_iff scopes (w ∷ requested) = ground (arith, all_granted_iff scopes requested)

module _ {Payload : Type 0} (kv : Kv Payload) (wire : Wire Payload) where
  -- What a consent that has been saved covers: each of the requested scopes was granted before, or
  -- is now.
  abbrev pub Covers : (before now : List Text) → (requested : Text) → Type 0
  Covers before now requested = All (IsGranted before now) (split_whitespace requested)

  covers_iff :
      (before now requested : List Text)
      → (all_granted (add_scopes before now) requested ≡ true)
        ↔ All (IsGranted before now) requested
  unfolding all_granted
  covers_iff before now [] = (λ _. tt, λ _. refl)
  covers_iff before now (w ∷ requested) =
      ground (arith, covers_iff before now requested, add_scopes_iff before now w)

  -- The consent that is saved, and how it is read again.
  abbrev merged :
      (now : ℕ) (user_id client_id : Text) → List Text → Option UserConsent → UserConsent
  merged now user_id client_id new_scopes existing =
      record_of kv wire user_id client_id (add_scopes (scopes_of existing) new_scopes) now

  save_user_consent-read :
      (now : ℕ) (user_id client_id : Text) (new_scopes : List Text) (existing : Option UserConsent)
      (s : kv.State)
      → get_user_consent kv wire user_id client_id s ≡ ok existing
      → (save_user_consent kv wire now user_id client_id new_scopes s).0 ≡ ok tt
      → let t = (save_user_consent kv wire now user_id client_id new_scopes s).1 in
        (get_user_consent kv wire user_id client_id t
          ≡ ok (some (merged now user_id client_id new_scopes existing)))
        ⊎ ((e : Text) × (get_user_consent kv wire user_id client_id t ≡ err e))
  unfolding save_user_consent get_user_consent
  save_user_consent-read now user_id client_id new_scopes existing s read =
      rw (bind-ok (λ t. (get_user_consent kv wire user_id client_id t, t)) write s read) (λ saved.
        let (q, (_, new)) = kv_write-done kv _ users (consent_key user_id client_id) s saved in
        kv_get-stands kv wire.consent users (consent_key user_id client_id) _ _ q _ new
          (wire.consent.decode-encode (merged now user_id client_id new_scopes existing)))
    where
      write : Option UserConsent → kv.State → Result (Unit {0}) × kv.State
      write o =
          kv_write kv (put (wire.consent.encode (merged now user_id client_id new_scopes o)) none)
            users (consent_key user_id client_id)

  has_user_consented-covered :
      (user_id client_id requested : Text) (t : kv.State) (o : Result (Option UserConsent))
      → get_user_consent kv wire user_id client_id t ≡ o
      → has_user_consented kv wire user_id client_id requested t ≡ covered kv wire requested o
  unfolding has_user_consented
  has_user_consented-covered user_id client_id requested t o e = ap (covered kv wire requested) e

  -- After a consent has been saved with success, an answer about the user and the client says yes
  -- exactly where each requested scope was granted before or has been with it.
  pub has_user_consented-save_user_consent :
      (now : ℕ) (user_id client_id : Text) (new_scopes : List Text) (requested : Text)
      (existing : Option UserConsent) (s : kv.State) (b : Bool)
      → get_user_consent kv wire user_id client_id s ≡ ok existing
      → (save_user_consent kv wire now user_id client_id new_scopes s).0 ≡ ok tt
      → has_user_consented kv wire user_id client_id requested
          (save_user_consent kv wire now user_id client_id new_scopes s).1
        ≡ ok b
      → (b ≡ true) ↔ Covers (scopes_of existing) new_scopes requested
  has_user_consented-save_user_consent now user_id client_id new_scopes requested existing s b read
        saved answer =
      elim (save_user_consent-read now user_id client_id new_scopes existing s read saved) [
        | inl found ↦
            let granted =
              ok_injective _ b
                (sym (has_user_consented-covered user_id client_id requested _ _ found) ∙ answer) in
            rw (← granted) (covers_iff (scopes_of existing) new_scopes (split_whitespace requested))
        | inr (e, failed) ↦ absurd (
            is_err e
              (sym (has_user_consented-covered user_id client_id requested _ _ failed) ∙ answer))
      ]
    where
      is_err : (e : Text) → err e ≢ ok b
      is_err e h = cc
