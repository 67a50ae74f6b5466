-- ===== src/Totp/ConstantTime.antt =====
-- The comparison of bytes of oidc-gateway/src/totp.rs that does not stop early.
use Prim.Native.Nat.{bit_or, bit_xor}
use jetauth.Prelude.{
  Text, length, All, ltb, Bool-cases, ℕ, refl, ap, inl, inr, Bool, true, false, not, [], arith,
  holds_below, holds_below-lookup, ◌<◌, ◌≡◌, ◌↔◌, ◌&&◌, ◌∷◌, ◌==◌, if◌then◌else◌, nat_eq,
}
use jetauth.Util.Percent.RoundTrip.{IsByte}

-- The loop over the pairs of bytes.
unfoldable pub fold_diff : ℕ → Text → Text → ℕ
fold_diff diff (x ∷ a) (y ∷ b) = fold_diff (bit_or diff (bit_xor x y)) a b
fold_diff diff _ _ = diff

unfoldable pub constant_time_eq : Text → Text → Bool
unfolding fold_diff
constant_time_eq a b = if not (length a == length b) then false else fold_diff 0 a b == 0

abbrev iff : Bool → Bool → Bool
iff true b = b
iff false b = not b

-- Two tests of two bytes, found equal by evaluation.
agree : (ℕ → ℕ → Bool) → (ℕ → ℕ → Bool) → Bool
agree f g = holds_below (λ x. holds_below (λ y. iff (f x y) (g x y)) 256) 256

agree-lookup :
    (f g : ℕ → ℕ → Bool) (x y : ℕ)
    → agree f g ≡ true
    → x < 256
    → y < 256
    → (f x y ≡ true) ↔ (g x y ≡ true)
unfolding agree
agree-lookup f g x y table hx hy =
    ground (arith, holds_below-lookup _ 256 (holds_below-lookup _ 256 table x hx) y hy)

xor_table : agree (λ x y. bit_xor x y == 0) (λ x y. x == y) ≡ true
unfolding agree holds_below
xor_table = refl

or_table : agree (λ x y. bit_or x y == 0) (λ x y. x == 0 && y == 0) ≡ true
unfolding agree holds_below
or_table = refl

range_table : agree (λ x y. ltb (bit_or x y) 256 && ltb (bit_xor x y) 256) (λ x y. true) ≡ true
unfolding agree holds_below
range_table = refl

xor_iff : (x y : ℕ) → x < 256 → y < 256 → (bit_xor x y ≡ 0) ↔ (x ≡ y)
xor_iff x y hx hy = ground (arith, agree-lookup _ _ x y xor_table hx hy)

or_iff : (x y : ℕ) → x < 256 → y < 256 → (bit_or x y ≡ 0) ↔ ((x ≡ 0) × (y ≡ 0))
or_iff x y hx hy = ground (arith, agree-lookup _ _ x y or_table hx hy)

range : (x y : ℕ) → x < 256 → y < 256 → (bit_or x y < 256) × (bit_xor x y < 256)
range x y hx hy = ground (arith, agree-lookup _ _ x y range_table hx hy)

fold_diff_iff :
    (diff : ℕ) (a b : Text)
    → diff < 256
    → All IsByte a
    → All IsByte b
    → length a ≡ length b
    → (fold_diff diff a b ≡ 0) ↔ ((diff ≡ 0) × (a ≡ b))
unfolding fold_diff
fold_diff_iff diff [] [] hd ha hb e = (λ z. (z, refl), λ (z, _). z)
fold_diff_iff diff [] (y ∷ b) hd ha hb e = absurd (omega arith)
fold_diff_iff diff (x ∷ a) [] hd ha hb e = absurd (omega arith)
fold_diff_iff diff (x ∷ a) (y ∷ b) hd (hx, ha) (hy, hb) e =
    let (_, small) = range x y hx hy in
    let (wide, _) = range diff (bit_xor x y) hd small in
    ground (
      arith,
      fold_diff_iff (bit_or diff (bit_xor x y)) a b wide ha hb (omega arith),
      or_iff diff (bit_xor x y) hd small,
      xor_iff x y hx hy,
    )

-- Bytes are found equal exactly where they are.
pub constant_time_eq_iff :
    (a b : Text) → All IsByte a → All IsByte b → (constant_time_eq a b ≡ true) ↔ (a ≡ b)
unfolding constant_time_eq
constant_time_eq_iff a b ha hb = elim (Bool-cases (length a == length b)) [
  | inl e ↦ rw e (ground (arith, fold_diff_iff 0 a b (omega arith) ha hb (ground arith)))
  | inr n ↦ rw n (λ z. cc, λ z. absurd (ground (arith, ap length z)))
]
