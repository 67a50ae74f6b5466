-- ===== src/Token/Rotation/Family.antt =====
-- The family of refresh tokens that `handle_refresh` of oidc-gateway/src/token.rs makes of one.
use jetauth.Prelude.{
  Text, text_beq_iff, ok, ℕ, refl, sym, inl, inr, Option, none, some, arith, ◌+◌, ◌≤◌, ◌<◌, ◌≡◌,
  ◌↔◌, ◌⊎◌, ◌∙◌, text_eq, nat_eq,
}
use jetauth.Store.Types.{RefreshEntry}
use jetauth.Token.Types.{Request}
use jetauth.Token.Rotation.{rotated, family_end, family_issued_at, check_binding}

-- A key that the token is bound to, if there is one, is the key of the proof.
abbrev pub IsBound : Option Text → Option Text → Type 0
IsBound none proof = Unit
IsBound (some jkt) proof = proof ≡ some jkt

pub check_binding_iff :
    (expected proof : Option Text) → (check_binding expected proof ≡ ok tt) ↔ IsBound expected proof
unfolding check_binding
check_binding_iff none proof = (λ _. tt, λ _. refl)
check_binding_iff (some jkt) none = ground arith
check_binding_iff (some jkt) (some own) = ground (arith, text_beq_iff own jkt)

module _ (absolute_max : ℕ) where
  -- A request that may rotate the entry: its client, its DPoP key, and both ends in time.
  abbrev pub Accepts : Request → RefreshEntry → Type 0
  Accepts req entry =
      (entry.client_id ≡ req.client.client_id)
      × IsBound entry.dpop_jkt req.dpop_jkt
      × (req.now 0 ≤ entry.expires_at)
      × (req.now 0 ≤ family_end absolute_max (req.now 0) entry)

  -- The entries that rotations make of the first.
  pub data Family (first : RefreshEntry) : RefreshEntry → Type 0 where
    root : Family first first
    rotation :
        {entry : RefreshEntry} (req : Request)
        → Family first entry
        → Accepts req entry
        → Family first (rotated absolute_max req entry)

  rotated-expires_at :
      (req : Request) (entry : RefreshEntry)
      → 0 < entry.issued_at
      → (rotated absolute_max req entry).expires_at ≤ entry.issued_at + absolute_max
  unfolding rotated family_end family_issued_at
  rotated-expires_at req entry positive = ground arith

  rotated-issued_at :
      (req : Request) (entry : RefreshEntry)
      → 0 < entry.issued_at
      → (rotated absolute_max req entry).issued_at ≡ entry.issued_at
  unfolding rotated family_issued_at
  rotated-issued_at req entry positive = ground arith

  -- However often a refresh token is rotated, the tokens of its family keep the user, the client,
  -- the scope, the DPoP key and the time of the first issue; and every one but the first ends at
  -- most `absolute_max` seconds after that time.
  pub Family-bounded :
      (first entry : RefreshEntry)
      → 0 < first.issued_at
      → Family first entry
      → ((entry.user_id ≡ first.user_id)
          × (entry.client_id ≡ first.client_id)
          × (entry.scope ≡ first.scope)
          × (entry.dpop_jkt ≡ first.dpop_jkt)
          × (entry.issued_at ≡ first.issued_at))
        × ((entry ≡ first) ⊎ (entry.expires_at ≤ first.issued_at + absolute_max))
  unfolding rotated
  Family-bounded first entry positive root = ((refl, refl, refl, refl, refl), inl refl)
  Family-bounded first _ positive (rotation {entry = e} req family (same_client, _, _, _)) =
      let ((user, client, scope, jkt, issued), _) = Family-bounded first e positive family in
      (
        (
          user,
          sym same_client ∙ client,
          scope,
          jkt,
          rotated-issued_at req e (rw issued positive) ∙ issued,
        ),
        inr (rw (← issued) (rotated-expires_at req e (rw issued positive))),
      )

  -- No request is accepted with a token of the family later than `absolute_max` seconds after the
  -- first issue.
  pub Family-lifetime :
      (first entry : RefreshEntry) (req : Request)
      → 0 < first.issued_at
      → Family first entry
      → Accepts req entry
      → req.now 0 ≤ first.issued_at + absolute_max
  unfolding family_end family_issued_at
  Family-lifetime first entry req positive family (_, _, _, in_time) =
      let ((_, _, _, _, issued), _) = Family-bounded first entry positive family in ground arith
