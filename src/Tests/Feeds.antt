-- ===== src/Tests/Feeds.antt =====
-- src/lib.rs, src/outcry_source.rs and src/auth.rs on the small registry, and a round of a session.
use ws_fanout.Prelude.{
  ℕ, ◌+◌, ◌≡◌, refl, ◌||◌, Option, none, some, String, List, [], ◌∷◌, foldl, arith, ◌==◌, leb,
  if◌then◌else◌, length, ◌⊎◌, nat_eq, string_eq, ok, err,
}
use mathlib.Core.Option
use ws_fanout.Api.{resync}
use ws_fanout.Api.Resync.{notices, resync-get}
use ws_fanout.Snapshot.{latest}
use ws_fanout.Auth.{Claims, Jwt, hmac_jwt, collect, validate_jwt, validate_jwt-outcome}
use ws_fanout.Collections.HashMap
use ws_fanout.Protocol.{ServerMessage, to_frame}
use ws_fanout.Outcry.{Decoded, Idle, Read, Source, consume, strong_count}
use ws_fanout.Outcry.Feeds.{act, acts, with_count, consume-acts, has_failed, consume-ended}
use ws_fanout.Server.Handle.Acknowledges.{after_deliveries}
use ws_fanout.Tests.Queue.{Chan, chan_mpsc}
use ws_fanout.Tests.Sample.{pair, pair-IsValid}
use ws_fanout.Tests.Services.{serde}
use ws_fanout.Tests.Slots.{permits_semaphore}

resync-get_example :
    HashMap.get 1 (resync serde pair ("a" ∷ "b" ∷ [])).0.connections
    ≡ Option.map
        (after_deliveries (
          notices serde pair 1
            (to_frame serde (ServerMessage.resync ("a" ∷ "b" ∷ [])))
            ("a" ∷ "b" ∷ [])))
        (HashMap.get 1 pair.connections)
resync-get_example = resync-get serde pair ("a" ∷ "b" ∷ []) 1 pair-IsValid

-- Every frame is a payload for the channel "a", but the empty one.
abbrev decode : ℕ → List ℕ → ℕ × Option (Decoded String)
decode n [] = (n, none)
decode n (b ∷ bytes) = (n + 1, some (record { channel = "a"; payload = "last" }))

abbrev reads : List Read
reads = Read.frame (1 ∷ []) ∷ Read.empty ∷ Read.overrun 3 ∷ Read.frame [] ∷ []

abbrev source : Source ℕ Chan
source = record {
  buf = 65536;
  idle_polls = 0;
  undecodable = 0;
  decoder = 0;
  registry = pair;
  pauses = [];
}

consume-acts_example :
    (consume serde Idle.spin decode source (with_count 2 reads)).0.registry
    ≡ foldl (act serde Idle.spin decode) pair (acts decode 0 reads)
consume-acts_example = consume-acts serde Idle.spin decode 2 source reads (omega arith)

-- Two sources, and no caller left.
consume-ended_example :
    (consume serde Idle.spin decode source
      (with_count (strong_count 0 2) (Read.empty ∷ Read.empty ∷ []))).1
    ≡ (leb (0 + 2) 1 || has_failed (Read.empty ∷ Read.empty ∷ []))
consume-ended_example = consume-ended serde Idle.spin decode 0 2 source Read.empty (Read.empty ∷ [])

abbrev jwt : Jwt ℕ ℕ String
jwt = record {
  from_secret = length;
  hs256 = 0;
  set_required_spec_claims = λ names v. v;
  decode = λ token key v. some (("sub", "ann") ∷ ("role", token) ∷ []);
}

abbrev ann_claims : Claims String
ann_claims = record { subject = "ann"; attributes = ("role", "x") ∷ [] }

jwt_ok : validate_jwt jwt some (hmac_jwt jwt []) "x" ≡ ok ann_claims
unfolding validate_jwt collect hmac_jwt HashMap.get HashMap.insert HashMap.remove string_eq
    Option.bind
jwt_ok = refl

validate_jwt-outcome_example :
    ((claims : List (String × String)) × (c : Claims String) × (jwt.decode "x"
          (hmac_jwt jwt []).key
          (hmac_jwt jwt []).validation
        ≡ some claims)
      × (validate_jwt jwt some (hmac_jwt jwt []) "x" ≡ ok c)
      × (Option.bind (latest none "sub" claims) some ≡ some c.subject)
      × (HashMap.get "role" c.attributes
          ≡ (if ◌==◌ {A = String} "sub" "role" then none else latest none "role" claims)))
    ⊎ ((validate_jwt jwt some (hmac_jwt jwt []) "x" ≡ err "invalid token")
        × ((jwt.decode "x" (hmac_jwt jwt []).key (hmac_jwt jwt []).validation ≡ none)
            ⊎ ((claims : List (String × String)) × (jwt.decode "x"
                    (hmac_jwt jwt []).key
                    (hmac_jwt jwt []).validation
                  ≡ some claims)
                × (Option.bind (latest none "sub" claims) some ≡ none))))
validate_jwt-outcome_example = validate_jwt-outcome jwt some (hmac_jwt jwt []) "x" "role"
