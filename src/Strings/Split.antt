-- ===== src/Strings/Split.antt =====
-- `str::split_once` at one character, as examples/gateway.rs calls it.
use ws_fanout.Prelude.{
  ◌≡◌, Bool, false, ◌||◌, Option, none, some, arith, ◌==◌, if◌then◌else◌, nat_eq, string_eq,
  ==_refl,
}
use Prim.Native.Char.{Char, code}
use text.Mathlib.TextLemmas.{nil-append, cons-append}
use Prim.Native.String.{String, ◌++◌}

-- Put a character back in front of the first part.
unfoldable pub in_front : Char → Option (String × String) → Option (String × String)
in_front c none = none
in_front c (some (before, after)) = some (String.◌∷◌ c before, after)

unfoldable pub split_once : Char → String → Option (String × String)
unfolding in_front
split_once d String.[] = none
split_once d (String.◌∷◌ c s) =
    let rest = split_once d s in if code c == code d then some (String.[], s) else in_front c rest

-- Whether the character stands in the text.
unfoldable pub has_char : Char → String → Bool
has_char d String.[] = false
has_char d (String.◌∷◌ c s) = code c == code d || has_char d s

pub split_once-append :
    (d : Char) (s t : String)
    → has_char d s ≡ false
    → split_once d (s ++ String.◌∷◌ d t) ≡ some (s, t)
unfolding split_once has_char in_front
split_once-append d String.[] t h = rw (nil-append, split_once) (ground (arith, ==_refl (code d)))
split_once-append d (String.◌∷◌ c s) t h =
    rw (cons-append) (ground (arith, h, split_once-append d s t))
