-- ===== src/Util/Redirect/Response.antt =====
-- What a client reads from the redirect: the code, the issuer and the state that were put in.
use jetauth.Prelude.{
  Text, str, is_empty, length, All, ℕ, zero, suc, refl, List, [], ◌≡◌, ◌≢◌, ◌∷◌, ◌++◌,
  if◌then◌else◌, nat_eq,
}
use jetauth.Util.Utf8.{IsUtf8}
use jetauth.Util.Percent.{url_decode, percent_encode}
use jetauth.Util.Percent.RoundTrip.{IsByte}
use jetauth.Util.Query.{Form}

abbrev pub drop : ℕ → Text → Text
drop zero s = s
drop (suc n) [] = []
drop (suc n) (_ ∷ s) = drop n s

drop-append : (s t : Text) → drop (length s) (s ++ t) ≡ t
drop-append [] t = refl
drop-append (a ∷ s) t = drop-append s t

-- The parameters of a query as they stand in it.
abbrev parameter : Text → Text → Text
parameter name value = name ++ b'=' ∷ percent_encode value

-- A parameter with a value that the decoder leaves whole.
abbrev pub IsValue : Text → Type 0
IsValue value = All IsByte value × IsUtf8 value

-- A name that the decoder leaves whole and that holds no separator.
abbrev IsName : Text → Type 0
IsName name = All (λ c. c ≢ b'&') name × All (λ c. c ≢ b'=') name × (url_decode name ≡ name)

-- A state is sent only if there is one.
abbrev pub state_parameter : Text → Form
state_parameter [] = []
state_parameter (a ∷ s) = (str "state", a ∷ s) ∷ []

tail_of : Text → Text
tail_of state = if is_empty state then [] else str "&state=" ++ percent_encode state
