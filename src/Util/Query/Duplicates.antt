-- ===== src/Util/Query/Duplicates.antt =====
-- What `check_no_duplicates` decides, and what the lookups then mean.
use jetauth.Prelude.{
  Text, text_beq_iff, All, contains, Bool-cases, ok, refl, ap, inl, inr, false, Option, none, some,
  List, [], arith, ◌≡◌, ◌≢◌, ◌↔◌, ◌∷◌, ◌==◌, text_eq,
}
use jetauth.Util.Query.{Form, form_value, form_values, check_seen, check_no_duplicates}

-- No key stands twice.
abbrev pub Distinct : Form → Type 0
Distinct [] = Unit
Distinct ((k, _) ∷ form) = All (λ (q : Text × Text). q.0 ≢ k) form × Distinct form

-- No key of the form is among the ones seen.
abbrev Fresh : List Text → Form → Type 0
Fresh seen form = All (λ (q : Text × Text). contains seen q.0 ≡ false) form

Fresh-cons :
    (k : Text) (seen : List Text) (form : Form)
    → All (λ (q : Text × Text). q.0 ≢ k) form
    → Fresh seen form
    → Fresh (k ∷ seen) form
unfolding contains
Fresh-cons k seen [] h f = tt
Fresh-cons k seen ((j, v) ∷ form) (n, h) (f, fs) =
    (ground (arith, text_beq_iff k j), Fresh-cons k seen form h fs)

Fresh-cons_inv :
    (k : Text) (seen : List Text) (form : Form)
    → Fresh (k ∷ seen) form
    → All (λ (q : Text × Text). q.0 ≢ k) form × Fresh seen form
unfolding contains
Fresh-cons_inv k seen [] f = (tt, tt)
Fresh-cons_inv k seen ((j, v) ∷ form) (f, fs) =
    let (n, h) = Fresh-cons_inv k seen form fs in
    ((ground (arith, text_beq_iff k j), n), (ground arith, h))

check_seen_sound :
    (seen : List Text) (form : Form)
    → check_seen seen form ≡ ok tt
    → Distinct form × Fresh seen form
unfolding check_seen
check_seen_sound seen [] h = (tt, tt)
check_seen_sound seen ((k, v) ∷ form) h = elim (Bool-cases (contains seen k)) [
  | inl old ↦ ground arith
  | inr new ↦
      let (d, f) = check_seen_sound (k ∷ seen) form (ground arith) in
      let (n, g) = Fresh-cons_inv k seen form f in ((n, d), (new, g))
]

check_seen_complete :
    (seen : List Text) (form : Form)
    → Distinct form
    → Fresh seen form
    → check_seen seen form ≡ ok tt
unfolding check_seen
check_seen_complete seen [] d f = refl
check_seen_complete seen ((k, v) ∷ form) (n, d) (f, fs) =
    rw f (check_seen_complete (k ∷ seen) form d (Fresh-cons k seen form n fs))

Fresh-nil : (form : Form) → Fresh [] form
unfolding contains
Fresh-nil [] = tt
Fresh-nil (_ ∷ form) = (refl, Fresh-nil form)

-- A form passes exactly when no key stands in it twice.
pub check_no_duplicates_iff : (form : Form) → (check_no_duplicates form ≡ ok tt) ↔ Distinct form
unfolding check_no_duplicates
check_no_duplicates_iff form =
    (λ h. (check_seen_sound [] form h).0, λ d. check_seen_complete [] form d (Fresh-nil form))

form_values_of_absent :
    (form : Form) (k : Text) → All (λ (q : Text × Text). q.0 ≢ k) form → form_values form k ≡ []
unfolding form_values
form_values_of_absent [] k h = refl
form_values_of_absent ((j, v) ∷ form) k (n, h) =
    ground (arith, text_beq_iff j k, form_values_of_absent form k h)

abbrev pub as_list : Option Text → List Text
as_list none = []
as_list (some v) = v ∷ []

form_values-of_Distinct :
    (form : Form) (k : Text) → Distinct form → form_values form k ≡ as_list (form_value form k)
unfolding form_values form_value
form_values-of_Distinct [] k d = refl
form_values-of_Distinct ((j, v) ∷ form) k (n, d) = elim (Bool-cases (j == k)) [
  | inl same ↦
      let e : j ≡ k = (text_beq_iff j k).0 same in
      rw same (ap (λ t. v ∷ t) (form_values_of_absent form k (rw e at n)))
  | inr other ↦ rw other (form_values-of_Distinct form k d)
]

-- In a form that passes, the first value of a key is its only one: the reader that takes the first
-- and a reader that takes all agree.
pub form_values-eq-form_value :
    (form : Form) (k : Text)
    → check_no_duplicates form ≡ ok tt
    → form_values form k ≡ as_list (form_value form k)
form_values-eq-form_value form k h =
    form_values-of_Distinct form k ((check_no_duplicates_iff form).0 h)
