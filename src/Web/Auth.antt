-- ===== src/Web/Auth.antt =====
-- internal/web/auth.go: the session tokens and the callback of the sign-in. Parameters: `sign` is
-- the keyed hash, `encode` and `decode` are the claims as JSON in base64; `exchange` trades a code
-- for an access token, `user_info` asks the provider for the address and whether it is verified,
-- `none` for an error of either.
pub mod Session
mod Examples
use Prim.Native.Char.{code}
use Prim.Native.String.{◌++◌}
use agent_dashboard.Common.{
  ℕ, ◌+◌, String, Bool, true, false, not, ◌||◌, Option, none, some, str_eq, is_empty, ltb, ◌==◌,
  if◌then◌else◌,
}

pub record SessionClaims : Type 0 where
  pub email : String
  pub expires : ℕ

-- `strings.SplitN(s, ".", 2)`, if it has two parts.
unfoldable pub split_dot : String → Option (String × String)
split_dot String.[] = none
split_dot (String.◌∷◌ c s) =
    let rest = split_dot s in
    if code c == 46
    then some ("", s)
    else elim rest [ none ↦ none | some (a, b) ↦ some (String.◌∷◌ c a, b) ]

-- The answers to the browser.
pub data Answer : Type 0 where
  denied : Answer
  session : String → Answer

-- A request to the callback: the query's `code` and `state`, and the cookie `oauth-state`.
pub record Callback : Type 0 where
  pub query_code : String
  pub query_state : String
  pub state_cookie : Option String

-- The e-mail address of the provider's answer, if it is verified.
unfoldable pub fetch_user_email : Option (String × Bool) → Option String
fetch_user_email none = none
fetch_user_email (some (email, verified)) =
    if is_empty email || not verified then none else some email

module _ (sign : String → String) (encode : SessionClaims → String)
    (decode : String → Option SessionClaims) where
  unfoldable pub create_token : ℕ → String → String
  create_token now email =
      let encoded = encode (record { email = email; expires = now + 604800 }) in
      encoded ++ ("." ++ sign encoded)

  -- The test of the expiry.
  abbrev live_email : ℕ → Option SessionClaims → Option String
  live_email now none = none
  live_email now (some claims) = if ltb claims.expires now then none else some claims.email

  -- The address that the cookie `session` stands for; `none` is the result `false`.
  unfoldable pub validate_session : ℕ → Option String → Option String
  validate_session now none = none
  validate_session now (some cookie) = elim (split_dot cookie) [
    | none ↦ none
    | some (payload, signature) ↦
        if str_eq signature (sign payload) then live_email now (decode payload) else none
  ]

  module _ {Token : Type 0} (exchange : String → Option Token)
      (user_info : Token → Option (String × Bool)) (allowed_email : String) where
    unfoldable pub handle_callback : ℕ → Callback → Answer
    unfolding fetch_user_email
    handle_callback now r = if is_empty r.query_code then denied else elim r.state_cookie [
      | none ↦ denied
      | some value ↦
          if is_empty value || not (str_eq r.query_state value)
          then denied
          else elim (exchange r.query_code) [
            | none ↦ denied
            | some token ↦ elim (fetch_user_email (user_info token)) [
              | none ↦ denied
              | some email ↦
                  if str_eq email allowed_email then session (create_token now email) else denied
            ]
          ]
    ]
