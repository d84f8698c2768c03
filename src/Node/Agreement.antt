-- ===== src/Node/Agreement.antt =====
-- Interleavings of calls for one room, and what they are answered.
use sample_nodejs_server.Prelude.{
  ℕ, ◌≡◌, refl, sym, ◌∙◌, ◌⊎◌, inl, inr, List, [], ◌∷◌, Option, none, some, ◌==◌, if◌then◌else◌,
  if_elim, length, get_elem?,
}
use sample_nodejs_server.Redis.{Redis, Entry, missing, string, members, value, IsFree, no_entry}
use sample_nodejs_server.Node.Keys.{
  build_room_key, build_room_set_key_of_service, get_node_id, service_sfu,
}
use sample_nodejs_server.Node.Names.{room-room_set}
use sample_nodejs_server.Node.Rooms.{
  Call, asking, listing, choosing, losing, winning, answered, failed, panicked, found, chosen,
  room_expiry, set_or_get_sfu_address_for_room, get_nodes_of_service,
}

-- The key holds something, which reads as the address.
abbrev pub IsTaken : Entry → List ℕ → Type 0
IsTaken e address = (¬ IsFree e) × (value e ≡ address)

-- What the state of a call tells of the room's key.
abbrev pub Knows : Entry → Call → Type 0
Knows e losing = ¬ IsFree e
Knows e (winning connection_id address) = IsTaken e address
Knows e (answered address) = IsTaken e address
Knows e _ = Unit

-- A key that was free, or was not written, keeps what was known.
stays : {e f : Entry} (c : Call) → IsFree e ⊎ (f ≡ e) → Knows e c → Knows f c
stays c (inr same) k = rw same k
stays asking (inl free) k = tt
stays listing (inl free) k = tt
stays (choosing c) (inl free) k = tt
stays losing (inl free) k = absurd (k free)
stays (winning c a) (inl free) k = absurd (k.0 free)
stays (answered a) (inl free) k = absurd (k.0 free)
stays failed (inl free) k = tt
stays panicked (inl free) k = tt

IsFree-cases : (e : Entry) → IsFree e ⊎ (¬ IsFree e)
IsFree-cases missing = inl no_entry
IsFree-cases (string v) = inr (λ f. elim f [ ])
IsFree-cases (members ms) = inr (λ f. elim f [ ])

not_free : (e : Entry) (v : List ℕ) → e ≡ string v → IsTaken e v
not_free e v h = rw h ((λ f. elim f [ ]), refl)

Knows-found : (e : Entry) → Knows e (found (value e))
Knows-found missing = tt
Knows-found (string []) = tt
Knows-found (string (b ∷ v)) = ((λ f. elim f [ ]), refl)
Knows-found (members ms) = tt

Knows-chosen : (e : Entry) (o : Option (List ℕ)) → Knows e (chosen o)
Knows-chosen e none = tt
Knows-chosen e (some c) = tt

-- What a step does to the key, and what the call knows after it.
record Stepped (before after : Entry) (c : Call) : Type 0 where
  wrote : IsFree before ⊎ (after ≡ before)
  knows : Knows after c

module _ (r : Redis) (room : List ℕ) where
  abbrev pub address_at : r.Store → Entry
  address_at s = r.look s (build_room_key room)

  choosing-Stepped :
      (intn : ℕ → ℕ) (s : r.Store) (c : List ℕ)
      → let next = set_or_get_sfu_address_for_room r room intn s (choosing c) in
        Stepped (address_at s) (address_at next.0) next.1
  unfolding set_or_get_sfu_address_for_room
  choosing-Stepped intn s c = elim (IsFree-cases (address_at s)) [
    | inl free ↦
        let (ok, there) = r.set_nx_free s (build_room_key room) (get_node_id c) room_expiry free in
        record { wrote = inl free; knows = rw ok (not_free _ (get_node_id c) there) }
    | inr taken ↦
        let e = r.set_nx_taken s (build_room_key room) (get_node_id c) room_expiry taken in
        rw e (record { wrote = inr refl; knows = taken })
  ]

  step-Stepped :
      (intn : ℕ → ℕ) (s : r.Store) (c : Call)
      → Knows (address_at s) c
      → let next = set_or_get_sfu_address_for_room r room intn s c in
        Stepped (address_at s) (address_at next.0) next.1
  unfolding set_or_get_sfu_address_for_room
  step-Stepped intn s asking k = record { wrote = inr refl; knows = Knows-found (address_at s) }
  step-Stepped intn s listing k = record {
    wrote = inr refl;
    knows =
        let ids = get_nodes_of_service r s service_sfu in
        if_elim (Knows (address_at s)) (length ids == 0) (λ _. tt)
          (λ _. Knows-chosen (address_at s) (get_elem? ids (intn (length ids))));
  }
  step-Stepped intn s (choosing c) k = choosing-Stepped intn s c
  step-Stepped intn s losing k = record { wrote = inr refl; knows = (k, refl) }
  step-Stepped intn s (winning c a) k =
      let same =
        r.look-s_add s (build_room_set_key_of_service c) (build_room_key room) (build_room_key room)
          (room-room_set room c) in
      record { wrote = inr same; knows = stays (answered a) (inr same) k }
  step-Stepped intn s (answered a) k = record { wrote = inr refl; knows = k }
  step-Stepped intn s failed k = record { wrote = inr refl; knows = tt }
  step-Stepped intn s panicked k = record { wrote = inr refl; knows = tt }

  pub record World : Type 0 where
    pub store : r.Store
    pub calls : ℕ → Call

  abbrev pub replace : (ℕ → Call) → ℕ → Call → ℕ → Call
  replace calls i c j = if j == i then c else calls j

  -- One call does its next step, or something else is done that leaves the room's key alone.
  pub data Happens : World → World → Type 0 where
    steps :
        (w : World) (i : ℕ) (intn : ℕ → ℕ)
        → Happens w (record {
          store = (set_or_get_sfu_address_for_room r room intn w.store (w.calls i)).0;
          calls =
              replace w.calls i (set_or_get_sfu_address_for_room r room intn w.store (w.calls i)).1;
        })
    elsewhere :
        (w : World) (s : r.Store)
        → address_at s ≡ address_at w.store
        → Happens w (record w { store = s })

  pub data Reach : World → World → Type 0 where
    here : (w : World) → Reach w w
    next : (u v w : World) → Reach u v → Happens v w → Reach u w

  AllKnow : World → Type 0
  AllKnow w = (i : ℕ) → Knows (address_at w.store) (w.calls i)

  Happens-AllKnow : (v w : World) → Happens v w → AllKnow v → AllKnow w
  unfolding AllKnow
  Happens-AllKnow v w (steps _ i intn) k j =
      let s = step-Stepped intn v.store (v.calls i) (k i) in
      if_elim
        (Knows (address_at (set_or_get_sfu_address_for_room r room intn v.store (v.calls i)).0))
        (j == i) (λ _. s.knows) (λ _. stays (v.calls j) s.wrote (k j))
  Happens-AllKnow v w (elsewhere _ s same) k j = stays (v.calls j) (inr same) (k j)

  Reach-AllKnow : (v w : World) → Reach v w → AllKnow v → AllKnow w
  Reach-AllKnow v w (here _) k = k
  Reach-AllKnow v w (next _ u _ before step) k =
      Happens-AllKnow u w step (Reach-AllKnow v u before k)

  -- Any number of calls for a room start and take their steps in any order, and nothing else writes
  -- the room's key: what one of them answers is what the key holds, so two answers are the same.
  pub Reach-agreed :
      (s : r.Store) (w : World) (i j : ℕ) (a b : List ℕ)
      → Reach (record { store = s; calls = λ _. asking }) w
      → w.calls i ≡ answered a
      → w.calls j ≡ answered b
      → (a ≡ b) × (value (address_at w.store) ≡ a)
  unfolding AllKnow
  Reach-agreed s w i j a b reach has_a has_b =
      let k = Reach-AllKnow _ w reach (λ _. tt) in
      let x : IsTaken (address_at w.store) a = rw has_a at (k i) in
      let y : IsTaken (address_at w.store) b = rw has_b at (k j) in (sym x.1 ∙ y.1, x.1)
