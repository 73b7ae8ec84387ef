-- ===== src/Web/Auth/Examples.antt =====
-- The theorems on sessions at a concrete hash and encoding, and tests of the callback.
use Prim.Native.String.{◌++◌}
use agent_dashboard.Common.{
  ◌+◌, String, ◌≡◌, refl, Bool, true, false, Option, none, some, str_eq, leb, is_empty,
  if◌then◌else◌,
}
use agent_dashboard.Web.Auth.{
  SessionClaims, split_dot, denied, Callback, fetch_user_email, create_token, validate_session,
  handle_callback,
}
use agent_dashboard.Web.Auth.Session.{
  validate_session-create_token, IsSigned, validate_session-IsSigned, handle_callback-session,
}

-- A hash that only marks its text, and an encoding of the one session that is tried.
abbrev sign : String → String
sign s = "sig" ++ s

abbrev claims : SessionClaims
claims = record { email = "me@x.org"; expires = 604900 }

abbrev encode : SessionClaims → String
encode c = "e30"

abbrev decode : String → Option SessionClaims
decode s = if str_eq s "e30" then some claims else none

validate_session-create_token_example :
    validate_session sign encode decode 200 (some (create_token sign encode decode 100 "me@x.org"))
    ≡ (if leb 200 (100 + 604800) then some "me@x.org" else none)
unfolding str_eq
validate_session-create_token_example =
    validate_session-create_token sign encode decode 100 200 "me@x.org" refl refl

validate_session-IsSigned_example : IsSigned sign encode decode 200 "e30.sige30" "me@x.org"
unfolding validate_session split_dot str_eq
validate_session-IsSigned_example =
    validate_session-IsSigned sign encode decode 200 "e30.sige30" "me@x.org" refl

forged_test : validate_session sign encode decode 200 (some "e30.sig") ≡ none
unfolding validate_session split_dot str_eq
forged_test = refl

abbrev exchange : String → Option String
exchange c = some c

abbrev user_info : String → Option (String × Bool)
user_info t = some ("me@x.org", true)

abbrev sign_in : Callback
sign_in = record { query_code = "c"; query_state = "n1"; state_cookie = some "n1" }

handle_callback-session_example :
    ("e30.sige30" ≡ create_token sign encode decode 100 "me@x.org")
    × (is_empty sign_in.query_code ≡ false)
    × (is_empty sign_in.query_state ≡ false)
    × (sign_in.state_cookie ≡ some sign_in.query_state)
    × ((access : String) × (exchange sign_in.query_code ≡ some access)
        × (user_info access ≡ some ("me@x.org", true)))
unfolding handle_callback fetch_user_email create_token str_eq
handle_callback-session_example =
    handle_callback-session sign encode decode exchange user_info "me@x.org" 100 sign_in
      "e30.sige30" refl

other_address_test :
    handle_callback sign encode decode exchange user_info "you@x.org" 100 sign_in ≡ denied
unfolding handle_callback fetch_user_email str_eq
other_address_test = refl
