-- ===== src/Api/Clones.antt =====
-- The clones of a `Server` of src/lib.rs, and what ends with the last one: `Accepting`, whose drop
-- aborts the accept loop, and the threads of src/outcry_source.rs, each of which holds a clone and
-- looks at the count of clones before each round.
use ws_fanout.Prelude.{
  zero, ltb→lt, ℕ, suc, ◌+◌, ◌-◌, ◌<◌, ◌≡◌, refl, Bool, true, false, arith, ◌==◌, ltb,
  if◌then◌else◌, Bool-cases, inl, inr, ◌⊎◌, ◌∙◌, ap, sym, nat_eq, string_eq,
}
use ws_fanout.Outcry.{strong_count}

pub record Clones : Type 0 where
  pub callers : ℕ
  pub sources : ℕ
  pub accepting : Bool

abbrev pub strong : Clones → ℕ
strong c = c.callers + c.sources

-- What `bind` returns.
unfoldable pub bound : Clones
bound = record { callers = 1; sources = 0; accepting = true }

-- `Server::clone`.
unfoldable pub clone : Clones → Clones
clone c = record c { callers = c.callers + 1 }

-- The drop of `Accepting` with the last clone.
unfoldable pub drop_accepting : Clones → Clones
drop_accepting c = if strong c == 0 then record c { accepting = false } else c

-- A caller drops a clone.
unfoldable pub drop_server : Clones → Clones
drop_server c = drop_accepting (record c { callers = c.callers - 1 })

-- The start of a source's thread.
unfoldable pub consume_outcry : Clones → Clones
consume_outcry c = record c { sources = c.sources + 1 }

-- The end of a source's thread.
unfoldable pub end_source : Clones → Clones
unfolding drop_accepting
end_source c = drop_accepting (record c { sources = c.sources - 1 })

-- A source's `while` looks at the count.
unfoldable pub look : Clones → Clones
unfolding end_source strong_count
look c = if ltb 1 (strong_count c.callers c.sources) then c else end_source c

-- One move: a caller needs a clone to do anything with it, and a source needs its thread.
pub data Move (c : Clones) : Clones → Type 0 where
  clones : 0 < c.callers → Move c (clone c)
  drops : 0 < c.callers → Move c (drop_server c)
  consumes : 0 < c.callers → Move c (consume_outcry c)
  looks : 0 < c.sources → Move c (look c)
  fails : 0 < c.sources → Move c (end_source c)

pub data Lives : Clones → Type 0 where
  start : Lives bound
  later : {c d : Clones} → Lives c → Move c d → Lives d

Move-accepting :
    {c d : Clones} → Move c d → c.accepting ≡ ltb 0 (strong c) → d.accepting ≡ ltb 0 (strong d)
unfolding clone drop_server consume_outcry look end_source drop_accepting strong_count
Move-accepting (clones h) e = ground (arith, h, e)
Move-accepting (drops h) e = ground (arith, h, e)
Move-accepting (consumes h) e = ground (arith, h, e)
Move-accepting (looks h) e = ground (arith, h, e)
Move-accepting (fails h) e = ground (arith, h, e)

Lives-accepting : (c : Clones) → Lives c → c.accepting ≡ ltb 0 (strong c)
unfolding bound
Lives-accepting c start = refl
Lives-accepting c (later before m) = Move-accepting m (Lives-accepting _ before)

-- So many looks at the count, by whichever source is left.
unfoldable pub looking : ℕ → Clones → Clones
looking zero c = c
looking (suc n) c = looking n (if ltb 0 c.sources then look c else c)

-- Nothing to see: no source is left, or there are too many clones for one to end.
looking-same :
    (n : ℕ) (c : Clones) → (c.sources ≡ 0) ⊎ (1 < c.callers + c.sources) → looking n c ≡ c
unfolding looking
looking-same zero c h = refl
looking-same (suc n) c h =
    let e : (if ltb 0 c.sources then look c else c) ≡ c =
      unfold look strong_count in ground (arith, h) in
    rw e (looking-same n c h)

-- In whatever the clones of a server come to, where the callers have dropped all of theirs and
-- some sources are left, after any number of looks at the count, but at least one, the accept loop
-- runs exactly if there is more than one source.
pub looking-stops :
    (c : Clones) (n : ℕ)
    → Lives c
    → c.callers ≡ 0
    → 0 < c.sources
    → (looking (suc n) c).accepting ≡ ltb 1 c.sources
unfolding looking
looking-stops c n h none_left some_source = elim (Bool-cases (ltb 1 c.sources)) [
  | inl many ↦
      ap (λ (d : Clones). d.accepting)
        (looking-same (suc n) c (inr (omega (arith, none_left, ltb→lt 1 _ many))))
      ∙ ground (arith, Lives-accepting c h, none_left, many)
  | inr one ↦
      let e : (if ltb 0 c.sources then look c else c)
          ≡ record c { sources = 0; accepting = false } =
        unfold look end_source drop_accepting strong_count in
        ground (arith, none_left, one, some_source) in
      ap (λ d. (looking n d).accepting) e
      ∙ ap (λ (d : Clones). d.accepting)
          (looking-same n (record c { sources = 0; accepting = false }) (inl refl))
      ∙ sym one
]
