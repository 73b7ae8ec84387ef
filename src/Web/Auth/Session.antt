-- ===== src/Web/Auth/Session.antt =====
-- Sessions: which cookies are accepted, for how long, and who gets one.
use Prim.Native.Char.{code}
use Prim.Native.String.{◌++◌}
use text.Mathlib.TextLemmas.{nil-append, cons-append}
use text.Mathlib.TextEquality.{Char-path}
use agent_dashboard.Common.{
  ℕ, ◌+◌, ◌≤◌, String, ◌≡◌, refl, ap, ◌∙◌, sym, Bool, true, false, Option, none, some, str_eq_iff,
  str_eq_refl, is_empty, leb, ◌==◌, arith, if◌then◌else◌, Bool-cases, Option-cases, inl, inr,
}
use agent_dashboard.Web.Auth.{
  SessionClaims, split_dot, session, Callback, fetch_user_email, create_token, validate_session,
  handle_callback,
}

abbrev pub has_dot : String → Bool
has_dot String.[] = false
has_dot (String.◌∷◌ c s) = let rest = has_dot s in if code c == 46 then true else rest

split-join : (a b : String) → has_dot a ≡ false → split_dot (a ++ ("." ++ b)) ≡ some (a, b)
unfolding split_dot
split-join String.[] b h = rw (nil-append ("." ++ b), cons-append "." "" b, nil-append b) refl
split-join (String.◌∷◌ c a) b h =
    rw (cons-append c a ("." ++ b), split-join a b (ground arith)) (ground arith)

join-split : (s a b : String) → split_dot s ≡ some (a, b) → s ≡ a ++ ("." ++ b)
unfolding split_dot
join-split String.[] a b h = absurd (ground arith)
join-split (String.◌∷◌ c s) a b h = elim (Bool-cases (code c == 46)) [
  | inl e ↦
      let same : c ≡ "." = Char-path c "." (ground arith) in
      let first : a ≡ "" = ground arith in
      let second : b ≡ s = ground arith in
      rw (same, first, second)
        (sym (
          nil-append ("." ++ s)
          ∙ (cons-append "." "" s ∙ ap (λ (x : String). String.◌∷◌ "." x) (nil-append s))))
  | inr e ↦ elim (Option-cases (split_dot s)) [
    | inl n ↦ absurd (ground arith)
    | inr ((a', b'), q) ↦
        let first : a ≡ String.◌∷◌ c a' = ground arith in
        let second : b ≡ b' = ground arith in
        rw (first, second)
          (ap (λ (x : String). String.◌∷◌ c x) (join-split s a' b' q)
            ∙ sym (cons-append c a' ("." ++ b')))
  ]
]

module _ (sign : String → String) (encode : SessionClaims → String)
    (decode : String → Option SessionClaims) where
  -- A token is good for exactly the seven days after it was made, and stands for the address that
  -- it was made for, where its claims are read back from their text and that text, which is base64,
  -- has no dot.
  pub validate_session-create_token :
      (now later : ℕ) (email : String)
      → decode (encode (record { email = email; expires = now + 604800 }))
        ≡ some (record { email = email; expires = now + 604800 })
      → has_dot (encode (record { email = email; expires = now + 604800 })) ≡ false
      → validate_session sign encode decode later (some (create_token sign encode decode now email))
        ≡ (if leb later (now + 604800) then some email else none)
  unfolding validate_session create_token
  validate_session-create_token now later email read_back no_dot =
      let text = encode (record { email = email; expires = now + 604800 }) in
      rw (split-join text (sign text) no_dot, validate_session)
        (ground (arith, str_eq_refl (sign text), read_back))

  -- What an accepted cookie is made of.
  pub record IsSigned (now : ℕ) (cookie email : String) : Type 0 where
    pub payload : String
    pub claims : SessionClaims
    pub text : cookie ≡ payload ++ ("." ++ sign payload)
    pub content : decode payload ≡ some claims
    pub of_email : claims.email ≡ email
    pub in_time : now ≤ claims.expires

  -- Every cookie that is accepted is signed: it is some payload, a dot and the signature of just
  -- that payload, and the payload holds the address and an expiry that has not passed.
  pub validate_session-IsSigned :
      (now : ℕ) (cookie email : String)
      → validate_session sign encode decode now (some cookie) ≡ some email
      → IsSigned now cookie email
  unfolding validate_session
  validate_session-IsSigned now cookie email h = elim (Option-cases (split_dot cookie)) [
    | inl n ↦ absurd (ground arith)
    | inr ((p, g), q) ↦ elim (Option-cases (decode p)) [
      | inl n ↦ absurd (ground arith)
      | inr (claims, d) ↦
          let signed : g ≡ sign p = ground (arith, str_eq_iff g (sign p)) in
          record {
            payload = p;
            claims = claims;
            text = join-split cookie p g q ∙ ap (λ (x : String). p ++ ("." ++ x)) signed;
            content = d;
            of_email = ground arith;
            in_time = ground arith;
          }
    ]
  ]

  module _ {Token : Type 0} (exchange : String → Option Token)
      (user_info : Token → Option (String × Bool)) (allowed_email : String) where
    user_email :
        (info : Option (String × Bool)) (email : String)
        → fetch_user_email info ≡ some email
        → (info ≡ some (email, true)) × (is_empty email ≡ false)
    unfolding fetch_user_email
    user_email none email h = absurd (ground arith)
    user_email (some (e, true)) email h = elim (Bool-cases (is_empty e)) [
      | inl q ↦ absurd (ground arith)
      | inr q ↦
          let same : e ≡ email = ground arith in
          (ap (λ (x : String). some (x, true)) same, ap is_empty (sym same) ∙ q)
    ]
    user_email (some (e, false)) email h = absurd (ground arith)

    -- The callback hands out a session only to the one allowed address, and only to the browser
    -- that began the sign-in: the session is the allowed address's; the provider traded the query's
    -- code, which is not empty, for an access token and named that address for it, as a verified
    -- one; and the query's state is what the cookie holds and is not empty.
    pub handle_callback-session :
        (now : ℕ) (r : Callback) (token : String)
        → handle_callback sign encode decode exchange user_info allowed_email now r ≡ session token
        → (token ≡ create_token sign encode decode now allowed_email)
          × (is_empty r.query_code ≡ false)
          × (is_empty r.query_state ≡ false)
          × (r.state_cookie ≡ some r.query_state)
          × ((access : Token) × (exchange r.query_code ≡ some access)
              × (user_info access ≡ some (allowed_email, true)))
    unfolding handle_callback
    handle_callback-session now r token h = elim (Option-cases r.state_cookie) [
      | inl n ↦ absurd (ground arith)
      | inr (value, q) ↦ elim (Option-cases (exchange r.query_code)) [
        | inl n ↦ absurd (ground arith)
        | inr (access, x) ↦ elim (Option-cases (fetch_user_email (user_info access))) [
          | inl n ↦ absurd (ground arith)
          | inr (email, f) ↦
              let same_email : email ≡ allowed_email =
                ground (arith, str_eq_iff email allowed_email) in
              let same_state : r.query_state ≡ value =
                ground (arith, str_eq_iff r.query_state value) in
              (
                ground (arith, ap (create_token sign encode decode now) same_email),
                ground arith,
                ground (arith, ap is_empty same_state),
                q ∙ ap (λ (x : String). some x) (sym same_state),
                (
                  access,
                  x,
                  (user_email (user_info access) email f).0
                      ∙ ap (λ (y : String). some (y, true)) same_email,
                ),
              )
        ]
      ]
    ]
