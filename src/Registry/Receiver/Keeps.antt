-- ===== src/Registry/Receiver/Keeps.antt =====
-- The receiving end of a queue, src/server.rs, against the registry's connections and subscriptions.
use ws_fanout.Prelude.{◌≡◌, refl, some, arith, Option-cases, inl, inr, nat_eq, string_eq}
use ws_fanout.Collections.HashMap
use ws_fanout.Collections.HashMap.{HashMap}
use ws_fanout.Protocol.{Frame}
use ws_fanout.Mpsc.{Mpsc}
use ws_fanout.Registry.{Registry, Connection, ConnectionId}
use ws_fanout.Registry.Keeps.{Keeps, Keeps-refl, set_of}
use ws_fanout.Registry.Receiver.{with_tx, receive, hang_up}

module _ {Tx : Type 0} ⦃mpsc : Mpsc Tx⦄ where
  pub with_tx-Keeps :
      (r : Registry Tx) (id : ConnectionId) (c : Connection Tx) (t : Tx)
      → HashMap.get id r.connections ≡ some c
      → Keeps r (with_tx r id c t)
  unfolding with_tx set_of
  with_tx-Keeps r id c t e = record {
    index = refl;
    ids = refl;
    active = refl;
    size = HashMap.length-insert_old id (record c { tx = t }) c r.connections e;
    unique = HashMap.insert-Distinct id (record c { tx = t }) r.connections;
    sets = λ j. ground (arith, e, HashMap.get-insert id j (record c { tx = t }) r.connections);
  }

  -- What `receive` has done where it returned a frame.
  pub receive-with_tx :
      (r s : Registry Tx) (id : ConnectionId) (f : Frame)
      → receive r id ≡ some (f, s)
      → (c : Connection Tx) × (t : Tx) × (HashMap.get id r.connections ≡ some c)
        × (mpsc.recv c.tx ≡ some (f, t))
        × (s ≡ with_tx r id c t)
  unfolding receive
  receive-with_tx r s id f e = elim (Option-cases (HashMap.get id r.connections)) [
    | inl absent ↦ absurd (ground (arith, absent))
    | inr (c, known) ↦ elim (Option-cases (mpsc.recv c.tx)) [
      | inl empty ↦ absurd (ground (arith, known, empty))
      | inr ((g, t), got) ↦ (c, t, known, ground (arith, known, got), ground (arith, known, got))
    ]
  ]

  pub hang_up_cases {ℓ} :
      (P : Registry Tx → Type ℓ) (r : Registry Tx) (id : ConnectionId)
      → P r
      → ((c : Connection Tx)
          → HashMap.get id r.connections ≡ some c
          → P (with_tx r id c (mpsc.close c.tx)))
      → P (hang_up r id)
  unfolding hang_up
  hang_up_cases P r id absent known = elim (Option-cases (HashMap.get id r.connections)) [
    | inl e ↦ rw (e, hang_up) absent
    | inr (c, e) ↦ rw (e, hang_up) (known c e)
  ]

  pub hang_up-Keeps : (r : Registry Tx) (id : ConnectionId) → Keeps r (hang_up r id)
  hang_up-Keeps r id =
      hang_up_cases (Keeps r) r id (Keeps-refl r)
        (λ c known. with_tx-Keeps r id c (mpsc.close c.tx) known)
