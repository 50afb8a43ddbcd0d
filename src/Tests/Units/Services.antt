-- ===== src/Tests/Units/Services.antt =====
-- The unit tests of src/auth.rs, src/snapshot.rs and src/server.rs. The test of src/auth.rs that makes a
-- token with the jsonwebtoken crate is left out.
use ws_fanout.Prelude.{
  ℕ, suc, ◌+◌, ◌-◌, ◌*◌, ◌%◌, ◌≤◌, ◌<◌, ◌≡◌, ◌≢◌, ◌↔◌, refl, Bool, true, false, ◌||◌, ◌&&◌, not,
  Option, none, some, String, List, [], ◌∷◌, ◌++◌, map, foldl, arith, Eq, ◌==◌, leb, ltb,
  if◌then◌else◌, length, is_empty, All, Bool-cases, Option-cases, inl, inr, ◌⊎◌, ◌∙◌, ap, sym,
  nat_eq, string_eq, wrapping_add, wrapping_sub, u64_mod, wrapping_add_exact, wrapping_add-lt,
  ==_refl, ==_iff, ==_comm, Result, ok, err, Result-cases, filter_b, filter_b-All, All-filter_b,
  partition, Bool-ext, All-append, length-append,
}
use Prim.Native.Char.{code}
use ws_fanout.Auth
use ws_fanout.Auth.{Claims, static_token, validate_static, closure}
use ws_fanout.Collections.HashMap
use ws_fanout.Error.{Error}
use ws_fanout.Server.Config.{Config, default, validate}
use ws_fanout.Snapshot
use ws_fanout.Snapshot.{LastValue, record_last, snapshot}

-- `validate(token)` with this subject.
unfoldable assert_subject : Result String (Claims String) → String → Bool
assert_subject (ok claims) expected = claims.subject == expected
assert_subject (err _) expected = false

unfoldable is_err : {A E : Type 0} → Result E A → Bool
is_err (ok _) = false
is_err (err _) = true

abbrev static_token_accepts_only_its_token : Bool
static_token_accepts_only_its_token =
    let v = static_token "secret" "alice" in
    assert_subject (validate_static v "secret") "alice"
    && is_err (validate_static {Value = String} v "other")

static_token_accepts_only_its_token_passes : static_token_accepts_only_its_token ≡ true
unfolding assert_subject is_err static_token validate_static Auth.new string_eq
static_token_accepts_only_its_token_passes = refl

unfoldable starts_with : String → String → Bool
starts_with String.[] text = true
starts_with (String.◌∷◌ c prefix) String.[] = false
starts_with (String.◌∷◌ c prefix) (String.◌∷◌ d text) = code c == code d && starts_with prefix text

abbrev only_public : Claims String → String → Bool
only_public c ch = starts_with "public:" ch || c.subject == "admin"

abbrev closures_are_authorizers : Bool
closures_are_authorizers =
    closure only_public (Auth.new "bob") "public:x"
    && not (closure only_public (Auth.new "bob") "private:x")
    && closure only_public (Auth.new "admin") "private:x"

closures_are_authorizers_passes : closures_are_authorizers ≡ true
unfolding closure starts_with Auth.new string_eq nat_eq ws_fanout.Prelude.ℕ_discrete
closures_are_authorizers_passes = refl

unfoldable assert_get : Option String → String → Bool
assert_get none expected = false
assert_get (some payload) expected = payload == expected

unfoldable is_none : {A : Type 0} → Option A → Bool
is_none none = true
is_none (some _) = false

abbrev last_value_serves_the_latest : Bool
last_value_serves_the_latest =
    let s = Snapshot.new {RawValue = String} in
    let nothing = is_none (snapshot s "t") in
    let s = record_last s "t" "1" in
    let s = record_last s "t" "2" in nothing && assert_get (snapshot s "t") "2"

last_value_serves_the_latest_passes : last_value_serves_the_latest ≡ true
unfolding is_none assert_get Snapshot.new record_last snapshot HashMap.get HashMap.insert string_eq
last_value_serves_the_latest_passes = refl

-- tokio's `Semaphore::MAX_PERMITS` on 64 bits.
abbrev max_permits : ℕ
max_permits = 2305843009213693951

abbrev the_default_config_is_valid : Bool
the_default_config_is_valid =
    not (is_err (validate {IoError = String} {WsError = String} max_permits default))

the_default_config_is_valid_passes : the_default_config_is_valid ≡ true
unfolding is_err validate default nat_eq ws_fanout.Prelude.ℕ_discrete
the_default_config_is_valid_passes = refl

abbrev spoils : List (Config → Config)
spoils =
    (λ c. record c { send_queue = 0 })
    ∷ (λ c. record c { heartbeat_interval = 0 })
    ∷ (λ c. record c { max_connections = 0 })
    ∷ (λ c. record c { max_message_size = 0 })
    ∷ (λ c. record c { max_subscriptions = 0 })
    ∷ (λ c. record c { max_channel_len = 0 })
    ∷ []

unfoldable is_config_error : Result (Error String String) (Unit {0}) → Bool
is_config_error (err (Error.config _)) = true
is_config_error _ = false

unfoldable refuses_each : List (Config → Config) → Bool
unfolding is_config_error
refuses_each [] = true
refuses_each (spoil ∷ rest) =
    is_config_error (validate max_permits (spoil default)) && refuses_each rest

abbrev zero_valued_config_is_refused_rather_than_panicking_later : Bool
zero_valued_config_is_refused_rather_than_panicking_later = refuses_each spoils

zero_valued_config_is_refused_rather_than_panicking_later_passes :
    zero_valued_config_is_refused_rather_than_panicking_later ≡ true
unfolding refuses_each is_config_error validate default nat_eq ws_fanout.Prelude.ℕ_discrete
zero_valued_config_is_refused_rather_than_panicking_later_passes = refl
