-- ===== src/Registry/Index.antt =====
-- The two views of a subscription, src/registry.rs: the index `by_channel` and each connection's
-- own set. How the index changes under `link` and `unlink`, one channel and many.
use ws_fanout.Prelude.{
  foldl, ◌≡◌, ◌≢◌, refl, Bool, true, false, ◌&&◌, none, some, String, List, [], ◌∷◌, arith, ◌==◌,
  if◌then◌else◌, is_empty, nat_eq, string_eq, Option-cases, Bool-cases, inl, inr,
}
use ws_fanout.Collections.HashMap
use ws_fanout.Collections.HashMap.{HashMap, keys}
use ws_fanout.Collections.Keys.{contains-keys}
use ws_fanout.Collections.HashSet
use ws_fanout.Collections.HashSet.{HashSet}
use ws_fanout.Registry.{Connection, ConnectionId, link, unlink}

abbrev pub Index : Type 0
Index = HashMap String (HashSet ConnectionId)

-- Whether the index lists `id` under the channel.
unfoldable pub linked : ConnectionId → String → Index → Bool
linked id ch index = elim (HashMap.get ch index) [
  | none ↦ false
  | some set ↦ HashSet.contains id set
]

-- Whether the connection's own set holds the channel.
unfoldable pub subscribed :
    {Tx : Type 0} → ConnectionId → String → HashMap ConnectionId (Connection Tx) → Bool
subscribed id ch conns = elim (HashMap.get id conns) [
  | none ↦ false
  | some c ↦ HashSet.contains ch c.subscriptions
]

-- No channel is kept with an empty set, and no set lists a connection twice.
pub record IsTidy (index : Index) : Type 0 where
  pub no_empty : (ch : String) → HashMap.get ch index ≢ some []
  pub distinct :
      (ch : String) (s : HashSet ConnectionId) → HashMap.get ch index ≡ some s → HashSet.Distinct s

pub linked-link :
    (i j : ConnectionId) (c d : String) (m : Index)
    → linked j d (link i m c) ≡ (if i == j && c == d then true else linked j d m)
unfolding linked link HashSet.contains
linked-link i j c d m = elim (Option-cases (HashMap.get c m)) [
  | inl e ↦
      ground
        (arith, e, HashMap.get-insert c d (HashSet.insert i []) m, HashSet.contains-insert i j [])
  | inr (s, e) ↦
      ground
        (arith, e, HashMap.get-insert c d (HashSet.insert i s) m, HashSet.contains-insert i j s)
]

is_empty-eq {ℓ} : {A : Type ℓ} (xs : List A) → is_empty xs ≡ true → xs ≡ []
is_empty-eq [] h = refl
is_empty-eq (x ∷ xs) h = ground arith

pub linked-unlink :
    (i j : ConnectionId) (c d : String) (m : Index)
    → linked j d (unlink i m c) ≡ (if i == j && c == d then false else linked j d m)
unfolding linked unlink HashSet.contains
linked-unlink i j c d m = elim (Option-cases (HashMap.get c m)) [
  | inl e ↦ ground (arith, e)
  | inr (s, e) ↦ ground (
    arith,
    e,
    HashMap.get-insert c d (HashSet.remove i s) m,
    HashMap.get-remove c d m,
    HashSet.contains-remove i j s,
    is_empty-eq (HashSet.remove i s),
  )
]

insert-ne-nil : (i : ConnectionId) (s : HashSet ConnectionId) → HashSet.insert i s ≢ []
unfolding HashSet.insert HashSet.contains
insert-ne-nil i [] e = ground arith
insert-ne-nil i (x ∷ s) e = ground arith

pub insert-IsTidy :
    (c : String) (s : HashSet ConnectionId) (m : Index)
    → s ≢ []
    → HashSet.Distinct s
    → IsTidy m
    → IsTidy (HashMap.insert c s m)
insert-IsTidy c s m ne ds t = record {
  no_empty = λ d e. ground (arith, HashMap.get-insert c d s m, t.no_empty d);
  distinct = λ d u e. ground (arith, HashMap.get-insert c d s m, t.distinct d u);
}

remove-IsTidy : (c : String) (m : Index) → IsTidy m → IsTidy (HashMap.remove c m)
remove-IsTidy c m t = record {
  no_empty = λ d e. ground (arith, HashMap.get-remove c d m, t.no_empty d);
  distinct = λ d u e. ground (arith, HashMap.get-remove c d m, t.distinct d u);
}

pub link-IsTidy : (i : ConnectionId) (m : Index) (c : String) → IsTidy m → IsTidy (link i m c)
unfolding link
link-IsTidy i m c t = elim (Option-cases (HashMap.get c m)) [
  | inl e ↦
      rw (e, link)
        (insert-IsTidy c (HashSet.insert i []) m (insert-ne-nil i [])
          (HashSet.insert-Distinct i [] tt) t)
  | inr (s, e) ↦
      rw (e, link)
        (insert-IsTidy c (HashSet.insert i s) m (insert-ne-nil i s)
          (HashSet.insert-Distinct i s (t.distinct c s e)) t)
]

is_empty-ne {ℓ} : {A : Type ℓ} (xs : List A) → is_empty xs ≡ false → xs ≢ []
is_empty-ne [] h e = ground arith
is_empty-ne (x ∷ xs) h e = ground arith

pub unlink-IsTidy : (i : ConnectionId) (m : Index) (c : String) → IsTidy m → IsTidy (unlink i m c)
unfolding unlink
unlink-IsTidy i m c t = elim (Option-cases (HashMap.get c m)) [
  | inl e ↦ rw (e, unlink) t
  | inr (s, e) ↦ elim (Bool-cases (is_empty (HashSet.remove i s))) [
    | inl gone ↦ rw (e, unlink, gone) (remove-IsTidy c m t)
    | inr left ↦
        rw (e, unlink, left)
          (insert-IsTidy c (HashSet.remove i s) m (is_empty-ne (HashSet.remove i s) left)
            (HashSet.remove-Distinct i s (t.distinct c s e)) t)
  ]
]

-- Many channels in turn.
pub linked-link_all :
    (i j : ConnectionId) (d : String) (cs : List String) (m : Index)
    → linked j d (foldl (link i) m cs)
      ≡ (if i == j && HashSet.contains d cs then true else linked j d m)
unfolding HashSet.contains
linked-link_all i j d [] m = ground arith
linked-link_all i j d (c ∷ cs) m =
    ground (arith, linked-link_all i j d cs (link i m c), linked-link i j c d m)

pub linked-unlink_all :
    (i j : ConnectionId) (d : String) (cs : List String) (m : Index)
    → linked j d (foldl (unlink i) m cs)
      ≡ (if i == j && HashSet.contains d cs then false else linked j d m)
unfolding HashSet.contains
linked-unlink_all i j d [] m = ground arith
linked-unlink_all i j d (c ∷ cs) m =
    ground (arith, linked-unlink_all i j d cs (unlink i m c), linked-unlink i j c d m)

pub link_all-IsTidy :
    (i : ConnectionId) (cs : List String) (m : Index) → IsTidy m → IsTidy (foldl (link i) m cs)
link_all-IsTidy i [] m t = t
link_all-IsTidy i (c ∷ cs) m t = link_all-IsTidy i cs (link i m c) (link-IsTidy i m c t)

pub unlink_all-IsTidy :
    (i : ConnectionId) (cs : List String) (m : Index) → IsTidy m → IsTidy (foldl (unlink i) m cs)
unlink_all-IsTidy i [] m t = t
unlink_all-IsTidy i (c ∷ cs) m t = unlink_all-IsTidy i cs (unlink i m c) (unlink-IsTidy i m c t)

-- The set under the channel, empty where there is none.
unfoldable pub members : String → Index → HashSet ConnectionId
members ch index = elim (HashMap.get ch index) [ none ↦ [] | some set ↦ set ]

pub linked-members :
    (id : ConnectionId) (ch : String) (m : Index)
    → linked id ch m ≡ HashSet.contains id (members ch m)
unfolding linked members HashSet.contains
linked-members id ch m = ground arith

pub members-Distinct : (ch : String) (m : Index) → IsTidy m → HashSet.Distinct (members ch m)
unfolding members
members-Distinct ch m t = elim (Option-cases (HashMap.get ch m)) [
  | inl e ↦ rw (e, members) tt
  | inr (s, e) ↦ rw (e, members) (t.distinct ch s e)
]

pub subscribed-known :
    {Tx : Type 0} (id : ConnectionId) (ch : String) (m : HashMap ConnectionId (Connection Tx))
    → subscribed id ch m ≡ true
    → HashSet.contains id (keys m) ≡ true
unfolding subscribed
subscribed-known id ch m h = ground (arith, contains-keys id m)
