-- ===== src/Node/Failover.antt =====
-- The cleaner and the calls that look for a node, for a room of a dead node.
use sample_nodejs_server.Prelude.{
  ℕ, zero, suc, ◌≡◌, ◌≢◌, refl, sym, ap, ◌∙◌, Bool, true, false, ◌&&◌, ◌||◌, List, [], ◌∷◌, some,
  arith, if◌then◌else◌, length, get_elem?, ◌==◌,
}
use sample_nodejs_server.Prelude.Strings.{same_text, same_text→eq, same_text_refl}
use sample_nodejs_server.Redis.{
  Redis, Entry, missing, value, elements, listed, IsFree, no_entry, IsCollection,
}
use sample_nodejs_server.Node.Keys.{
  connection_set_key, service_sfu, build_keep_alive_service_key, build_room_key, get_node_id,
  build_room_set_key_of_service, is_service_node,
}
use sample_nodejs_server.Node.Names.{room-connection_set}
use sample_nodejs_server.Node.Cleaner.{Node, is_alive, clean, keep_alive_tick, keep_alive_seconds}
use sample_nodejs_server.Node.Cleaned.{frees, is_freed}
use sample_nodejs_server.Node.Rooms.{
  Call, asking, listing, choosing, winning, answered, found, choose, chosen, after_set_nx,
  of_service, get_nodes_of_service, set_or_get_sfu_address_for_room, room_expiry,
}
use sample_nodejs_server.Node.Dead.{look-clean, members-clean}

listed-elem :
    (l : List (List ℕ)) (i : ℕ) (x : List ℕ)
    → get_elem? l i ≡ some x
    → (listed l x ≡ true) × ((length l == 0) ≡ false)
listed-elem [] i x h = cc
listed-elem (y ∷ ys) zero x h = ground (arith, same_text_refl x)
listed-elem (y ∷ ys) (suc i) x h = ground (arith, listed-elem ys i x h)

listed-of_service :
    (service : List ℕ) (l : List (List ℕ)) (x : List ℕ)
    → listed (of_service service l) x ≡ true
    → listed l x ≡ true
unfolding of_service
listed-of_service service [] x h = h
listed-of_service service (y ∷ ys) x h = ground (arith, listed-of_service service ys x)

module _ (r : Redis) where
  -- A call with nothing in between, as four steps at most.
  abbrev again : List ℕ → (ℕ → ℕ) → r.Store × Call → r.Store × Call
  again room intn (s, c) = set_or_get_sfu_address_for_room r room intn s c

  abbrev pub call_alone : List ℕ → (ℕ → ℕ) → r.Store → r.Store × Call
  call_alone room intn s =
      again room intn (again room intn (again room intn (again room intn (s, asking))))

  free_call :
      (room : List ℕ) (intn : ℕ → ℕ) (s : r.Store) (c : List ℕ)
      → IsFree (r.look s (build_room_key room))
      → get_elem?
          (get_nodes_of_service r s service_sfu)
          (intn (length (get_nodes_of_service r s service_sfu)))
        ≡ some c
      → (call_alone room intn s).1 ≡ answered (get_node_id c)
  unfolding set_or_get_sfu_address_for_room
  free_call room intn s c free pick =
      let key = build_room_key room in
      let (ok, there) = r.set_nx_free s key (get_node_id c) room_expiry free in
      let (_, some_nodes) = listed-elem (get_nodes_of_service r s service_sfu) _ c pick in
      let a : found (value (r.look s key)) ≡ listing =
        ap (λ e. found (value e)) (is_missing free) in
      let b : choose intn (get_nodes_of_service r s service_sfu) ≡ choosing c =
        rw some_nodes (ap chosen pick) in
      let won : (again room intn (s, choosing c)).1 ≡ winning c (get_node_id c) =
        ap (after_set_nx c) ok in
      ap (λ (d : Call). (again room intn (again room intn (again room intn (s, d)))).1) a
      ∙ ap (λ (d : Call). (again room intn (again room intn (s, d))).1) b
      ∙ ap (λ (d : Call). (again room intn ((r.set_nx s key (get_node_id c) room_expiry).0, d)).1)
          won
    where
      is_missing : {e : Entry} → IsFree e → e ≡ missing
      is_missing no_entry = refl

  is_freed_by :
      (s : r.Store) (conns : List (List ℕ)) (j dead : List ℕ)
      → listed conns dead ≡ true
      → frees r s j dead ≡ true
      → is_freed r s conns j ≡ true
  is_freed_by s [] j dead h f = cc
  is_freed_by s (c ∷ cs) j dead h f =
      let at : same_text c dead ≡ true → frees r s j c ≡ true =
        λ e. ap (λ z. frees r s j z) (same_text→eq c dead e) ∙ f in
      let later : listed cs dead ≡ true → is_freed r s cs j ≡ true =
        λ e. is_freed_by s cs j dead e f in
      either h at later
    where
      either :
          {a b p q : Bool}
          → (a || b) ≡ true
          → (a ≡ true → p ≡ true)
          → (b ≡ true → q ≡ true)
          → (p || q) ≡ true
      either h f g = ground (arith, f, g)

  -- A room is listed for an SFU whose key has expired, and no set of rooms or of locks lists the
  -- key of the set of the nodes. After a tick of the cleaner a call for the room, on its own, that
  -- picks one of the SFUs left is answered with that SFU, which is alive.
  pub failover :
      (s : r.Store) (room dead c : List ℕ) (intn : ℕ → ℕ)
      → IsCollection (r.look s connection_set_key)
      → is_freed r s (elements (r.look s connection_set_key)) connection_set_key ≡ false
      → listed (elements (r.look s connection_set_key)) dead ≡ true
      → is_alive r s dead ≡ false
      → is_service_node service_sfu dead ≡ true
      → listed (elements (r.look s (build_room_set_key_of_service dead))) (build_room_key room)
        ≡ true
      → get_elem?
          (get_nodes_of_service r (clean r s) service_sfu)
          (intn (length (get_nodes_of_service r (clean r s) service_sfu)))
        ≡ some c
      → ((call_alone room intn (clean r s)).1 ≡ answered (get_node_id c)) × (is_alive r s c ≡ true)
  unfolding get_nodes_of_service
  failover s room dead c intn set safe here gone sfu has pick =
      let key = build_room_key room in
      let freed : frees r s key dead ≡ true = ground (arith, gone, sfu, has) in
      let at = is_freed_by s (elements (r.look s connection_set_key)) key dead here freed in
      let empty =
        look-clean r s key (room-connection_set room)
        ∙ ap (λ (b : Bool). if b then missing else r.look s key) at in
      let (is_there, _) = listed-elem (get_nodes_of_service r (clean r s) service_sfu) _ c pick in
      let left =
        listed-of_service service_sfu (elements (r.look (clean r s) connection_set_key)) c
          is_there in
      let (_, members) = members-clean r s c set safe in
      (free_call room intn (clean r s) c (rw empty no_entry) pick, ground (arith, left, members))

  -- A node that has just ticked stays in the set of the nodes when the cleaner runs, when its key
  -- is not that of the set and no set of rooms or of locks lists that key.
  pub ticked_stays :
      (n : Node) (s : r.Store)
      → build_keep_alive_service_key n.service n.node_id ≢ connection_set_key
      → IsCollection (r.look s connection_set_key)
      → is_freed r
          (keep_alive_tick r n s)
          (elements (r.look (keep_alive_tick r n s) connection_set_key))
          connection_set_key
        ≡ false
      → listed
          (elements (r.look (clean r (keep_alive_tick r n s)) connection_set_key))
          (build_keep_alive_service_key n.service n.node_id)
        ≡ true
  unfolding keep_alive_tick is_alive
  ticked_stays n s ne set safe =
      let key = build_keep_alive_service_key n.service n.node_id in
      let added = r.s_add s connection_set_key key in
      let t = keep_alive_tick r n s in
      let same = r.look-set added key [] keep_alive_seconds connection_set_key (λ e. ne (sym e)) in
      let (p, q) = r.s_add_lem s connection_set_key key key set in
      let (_, members) = members-clean r t key (rw same p) safe in
      let there : listed (elements (r.look t connection_set_key)) key ≡ true =
        ap (λ e. listed (elements e) key) same
        ∙ (q ∙ first (listed (elements (r.look s connection_set_key)) key) (same_text_refl key)) in
      let alive : is_alive r t key ≡ true = rw (r.ttl-set added key [] 8) refl in
      members ∙ both there alive
    where
      first : {a : Bool} (b : Bool) → a ≡ true → (a || b) ≡ true
      first b h = ground (arith, h)

      both : {a b : Bool} → a ≡ true → b ≡ true → (a && b) ≡ true
      both h k = ground (arith, h, k)
