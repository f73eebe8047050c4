-- ===== src/Network/Handler/Handle/Headers.antt =====
-- The headers of a forwarded request: the rule's static headers, and its auth header over them.
use celily.Prelude.{
  ◌≡◌, ◌≢◌, refl, ◌∙◌, Option, none, some, inl, inr, List, [], ◌∷◌, ◌++◌, Option-cases, All,
}
use celily.Prelude.Text.{Text, to_ascii_lowercase}
use celily.Network.Rule.{AuthConfig, HttpRule}
use celily.Network.Handler.Handle.{
  HeaderMap, Request, CelilyHandler, lookup, unwrap_or, inject, inject_static, inject_auth,
  forwarded,
}

-- Two header names are one, up to ASCII case.
abbrev pub SameName : Text → Text → Type 0
SameName a b = to_ascii_lowercase a ≡ to_ascii_lowercase b

-- What the code relies on of the header map: a header that is put is there, and no other changes.
pub record HeaderLaws (m : HeaderMap) : Type 0 where
  pub get-put_self :
      (h h' : m.Headers) (name value : Text)
      → m.put h name value ≡ some h'
      → m.get h' name ≡ some value
  pub get-put_ne :
      (h h' : m.Headers) (name other value : Text)
      → m.put h name value ≡ some h'
      → ¬ SameName other name
      → m.get h' other ≡ m.get h other

-- The value of the auth header.
abbrev pub auth_value : AuthConfig → Text → Text
auth_value auth secret = unwrap_or auth.prefix [] ++ secret

-- The name is not that of the rule's auth header.
abbrev pub NotAuth : Option AuthConfig → Text → Type 0
NotAuth none name = Unit
NotAuth (some auth) name = ¬ SameName name auth.header

module _ (m : HeaderMap) (laws : HeaderLaws m) where
  get-inject_ne :
      (h : m.Headers) (name other value : Text)
      → ¬ SameName other name
      → m.get (inject m name value h) other ≡ m.get h other
  get-inject_ne h name other value apart = elim (Option-cases (m.put h name value)) [
    | inl failed ↦ rw failed
    | inr (h', done) ↦ rw done (laws.get-put_ne h h' name other value done apart)
  ]

  get-inject_static_ne :
      (headers : List (Text × Text)) (h : m.Headers) (other : Text)
      → All (λ entry. ¬ SameName other entry.0) headers
      → m.get (inject_static m headers h) other ≡ m.get h other
  unfolding inject_static
  get-inject_static_ne [] h other apart = refl
  get-inject_static_ne ((name, value) ∷ rest) h other apart =
      get-inject_static_ne rest (inject m name value h) other apart.1
      ∙ get-inject_ne h name other value apart.0

  get-inject_auth_ne :
      (auth : Option AuthConfig) (secrets : List (Text × Text)) (h : m.Headers) (other : Text)
      → NotAuth auth other
      → m.get (inject_auth m auth secrets h) other ≡ m.get h other
  unfolding inject_auth
  get-inject_auth_ne none secrets h other apart = refl
  get-inject_auth_ne (some auth) secrets h other apart =
      elim (Option-cases (lookup auth.secret secrets)) [
        | inl missing ↦ rw (missing, inject_auth)
        | inr (secret, found) ↦
            rw (found, inject_auth)
              (get-inject_ne h auth.header other (auth_value auth secret) apart)
      ]

  -- With a header map that keeps its laws, a header whose name, up to ASCII case, is none of the
  -- static headers of the rule nor its auth header goes out as it came in.
  pub get-forwarded_ne :
      (handler : CelilyHandler) (rule : HttpRule) (request : Request m) (other : Text)
      → All (λ entry. ¬ SameName other entry.0) rule.headers
      → NotAuth rule.auth other
      → m.get (forwarded m handler rule request).headers other ≡ m.get request.headers other
  unfolding forwarded
  get-forwarded_ne handler rule request other static apart =
      get-inject_auth_ne rule.auth handler.auth_secrets
        (inject_static m rule.headers request.headers) other apart
      ∙ get-inject_static_ne rule.headers request.headers other static

  -- With a header map that keeps its laws, the auth header of a rule goes out with its prefix and
  -- secret, whatever the request and the static headers say, if the secret is known and the header
  -- can be set.
  pub get-forwarded_auth :
      (handler : CelilyHandler) (rule : HttpRule) (request : Request m) (auth : AuthConfig)
      (secret : Text)
      → rule.auth ≡ some auth
      → lookup auth.secret handler.auth_secrets ≡ some secret
      → ((h : m.Headers) → m.put h auth.header (auth_value auth secret) ≢ none)
      → m.get (forwarded m handler rule request).headers auth.header ≡ some (auth_value auth secret)
  unfolding forwarded
  get-forwarded_auth handler rule request auth secret has_auth found settable =
      let h = inject_static m rule.headers request.headers in
      elim (Option-cases (m.put h auth.header (auth_value auth secret))) [
        | inl failed ↦ absurd (settable h failed)
        | inr (h', done) ↦
            rw (has_auth, inject_auth)
              (rw (found, inject_auth)
                (rw done (laws.get-put_self h h' auth.header (auth_value auth secret) done)))
      ]
