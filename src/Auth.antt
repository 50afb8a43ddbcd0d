-- ===== src/Auth.antt =====
-- src/auth.rs. `serde_json::Value` is a type parameter of which the program reads `as_str`; the
-- `jsonwebtoken` crate is the parameter `Jwt`. A `BTreeMap` is read by `get` and `remove` alone.
use ws_fanout.Prelude.{
  ℕ, ◌≡◌, Bool, true, Option, none, some, String, List, [], ◌∷◌, foldl, arith, ◌==◌, if◌then◌else◌,
  ◌⊎◌, refl, Option-cases, inl, inr, nat_eq, string_eq, Result, ok, err,
}
use mathlib.Core.Option
use ws_fanout.Collections.HashMap
use ws_fanout.Collections.HashMap.{HashMap}
use ws_fanout.Snapshot.{latest}

pub record Claims (Value : Type 0) : Type 0 where
  pub subject : String
  pub attributes : HashMap String Value

module _ {Value : Type 0} where
  -- Claims with only a subject.
  unfoldable pub new : String → Claims Value
  new subject = record { subject = subject; attributes = [] }

  unfoldable pub get_str : (Value → Option String) → Claims Value → String → Option String
  get_str as_str c key = elim (HashMap.get key c.attributes) [ none ↦ none | some v ↦ as_str v ]

  -- `AllowAll`, and a closure as an authorizer.
  unfoldable pub allow_all : Claims Value → String → Bool
  allow_all _ _ = true

  unfoldable pub closure : (Claims Value → String → Bool) → Claims Value → String → Bool
  closure f claims channel = f claims channel

pub record StaticToken : Type 0 where
  pub token : String
  pub subject : String

unfoldable pub static_token : String → String → StaticToken
static_token token subject = record { token = token; subject = subject }

unfoldable pub validate_static :
    {Value : Type 0} → StaticToken → String → Result String (Claims Value)
unfolding new
validate_static s token = if token == s.token then ok (new s.subject) else err "invalid token"

-- What the program uses of `jsonwebtoken`: a key from a secret, the HS256 rules, and `decode`.
pub record Jwt (Key Validation Value : Type 0) : Type 0 where
  pub from_secret : List ℕ → Key
  pub hs256 : Validation
  pub set_required_spec_claims : List String → Validation → Validation
  pub decode : String → Key → Validation → Option (List (String × Value))

pub record HmacJwt (Key Validation : Type 0) : Type 0 where
  pub key : Key
  pub validation : Validation

module _ {Key Validation Value : Type 0} (jwt : Jwt Key Validation Value) where
  unfoldable pub hmac_jwt : List ℕ → HmacJwt Key Validation
  hmac_jwt secret = record {
    key = jwt.from_secret secret;
    validation = jwt.set_required_spec_claims ("exp" ∷ "sub" ∷ []) jwt.hs256;
  }

  -- `into_iter().collect()`.
  unfoldable pub collect : List (String × Value) → HashMap String Value
  collect claims = foldl (λ m e. HashMap.insert e.0 e.1 m) [] claims

  -- `Value::String(s)` is the value of which `as_str` is `Some(s)`.
  unfoldable pub validate_jwt :
      (Value → Option String) → HmacJwt Key Validation → String → Result String (Claims Value)
  unfolding collect
  validate_jwt as_str v token = elim (jwt.decode token v.key v.validation) [
    | none ↦ err "invalid token"
    | some claims ↦
        let attributes = collect claims in
        elim (Option.bind (HashMap.get "sub" attributes) as_str) [
          | some s ↦ ok (record { subject = s; attributes = HashMap.remove "sub" attributes })
          | none ↦ err "invalid token"
        ]
  ]

  collect-get :
      (m : HashMap String Value) (claims : List (String × Value)) (key : String)
      → HashMap.get key (foldl (λ t e. HashMap.insert e.0 e.1 t) m claims)
        ≡ latest (HashMap.get key m) key claims
  unfolding latest
  collect-get m [] key = refl
  collect-get m ((k, value) ∷ rest) key =
      rw (collect-get (HashMap.insert k value m) rest key) (rw (HashMap.get-insert k key value m))

  -- A token decodes to claims of which the last "sub" is a string, and then it is accepted, the
  -- subject is that string, and the attribute under a key is the last of the claims under it, but
  -- none under "sub"; or it is refused as invalid, and then it does not decode, or the last "sub"
  -- of its claims is missing or not a string.
  pub validate_jwt-outcome :
      (as_str : Value → Option String) (v : HmacJwt Key Validation) (token key : String)
      → ((claims : List (String × Value)) × (c : Claims Value) × (jwt.decode token v.key
              v.validation
            ≡ some claims)
          × (validate_jwt as_str v token ≡ ok c)
          × (Option.bind (latest none "sub" claims) as_str ≡ some c.subject)
          × (HashMap.get key c.attributes
              ≡ (if "sub" == key then none else latest none key claims)))
        ⊎ ((validate_jwt as_str v token ≡ err "invalid token")
            × ((jwt.decode token v.key v.validation ≡ none)
                ⊎ ((claims : List (String × Value)) × (jwt.decode token v.key v.validation
                      ≡ some claims)
                    × (Option.bind (latest none "sub" claims) as_str ≡ none))))
  unfolding validate_jwt collect HashMap.get
  validate_jwt-outcome as_str v token key =
      elim (Option-cases (jwt.decode token v.key v.validation)) [
        | inl e ↦ inr (ground (arith, e), inl e)
        | inr (claims, e) ↦
            let subject = collect-get [] claims "sub" in
            elim (Option-cases (Option.bind (latest none "sub" claims) as_str)) [
              | inl q ↦ inr (ground (arith, e, q, subject), inr (claims, e, q))
              | inr (s, q) ↦ inl (
                claims,
                record { subject = s; attributes = HashMap.remove "sub" (collect claims) },
                e,
                ground (arith, e, q, subject),
                q,
                ground (
                  arith,
                  HashMap.get-remove "sub" key (collect claims),
                  collect-get [] claims key,
                ),
              )
            ]
      ]
