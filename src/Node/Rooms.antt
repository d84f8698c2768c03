-- ===== src/Node/Rooms.antt =====
-- controller/pkg/node/discovery.go, lines 54 to 142: the node that serves a room, and the
-- controller that has a camera. A call of `SetOrGetSFUAddressForRoom` sends one command to Redis in
-- each step, so that calls can interleave. A client of Redis that is nil is left out.
use sample_nodejs_server.Prelude.{
  ℕ, ◌*◌, Bool, true, false, List, [], ◌∷◌, Option, none, some, ◌==◌, if◌then◌else◌, length,
  get_elem?,
}
use sample_nodejs_server.Redis.{Redis, value, elements}
use sample_nodejs_server.Node.Keys.{
  connection_set_key, service_sfu, service_controller, build_keep_alive_service_key, get_node_id,
  is_service_node, build_room_set_key_of_service, build_room_key, build_rtsp_connection_set_key,
  build_rtsp_connection_key,
}

unfoldable pub of_service : List ℕ → List (List ℕ) → List (List ℕ)
unfolding is_service_node
of_service service [] = []
of_service service (connection_id ∷ rest) =
    let others = of_service service rest in
    if is_service_node service connection_id then connection_id ∷ others else others

-- Where a call stands. `choosing` has a connection, `winning` has it and the identifier that it
-- wrote, `failed` has the error that there is no node; `panicked` is an index out of range.
pub data Call : Type 0 where
  asking : Call
  listing : Call
  choosing : List ℕ → Call
  losing : Call
  winning : List ℕ → List ℕ → Call
  answered : List ℕ → Call
  failed : Call
  panicked : Call

abbrev pub found : List ℕ → Call
found [] = listing
found (b ∷ address) = answered (b ∷ address)

abbrev pub chosen : Option (List ℕ) → Call
chosen none = panicked
chosen (some connection_id) = choosing connection_id

-- `intn` is `rand.Intn`.
abbrev pub choose : (ℕ → ℕ) → List (List ℕ) → Call
choose intn ids = if length ids == 0 then failed else chosen (get_elem? ids (intn (length ids)))

-- 15 minutes, in seconds.
abbrev pub room_expiry : ℕ
room_expiry = 15 * 60

abbrev pub after_set_nx : List ℕ → Bool → Call
after_set_nx connection_id true = winning connection_id (get_node_id connection_id)
after_set_nx connection_id false = losing

module _ (r : Redis) where
  unfoldable pub get_nodes_of_service : r.Store → List ℕ → List (List ℕ)
  unfolding of_service
  get_nodes_of_service s service = of_service service (elements (r.look s connection_set_key))

  -- The next command of a call, and where it stands after it.
  unfoldable pub set_or_get_sfu_address_for_room :
      List ℕ → (ℕ → ℕ) → r.Store → Call → r.Store × Call
  unfolding get_nodes_of_service
  set_or_get_sfu_address_for_room room_name intn s asking =
      (s, found (value (r.look s (build_room_key room_name))))
  set_or_get_sfu_address_for_room room_name intn s listing =
      (s, choose intn (get_nodes_of_service s service_sfu))
  set_or_get_sfu_address_for_room room_name intn s (choosing connection_id) =
      let (t, ok) = r.set_nx s (build_room_key room_name) (get_node_id connection_id) room_expiry in
      (t, after_set_nx connection_id ok)
  set_or_get_sfu_address_for_room room_name intn s losing =
      (s, answered (value (r.look s (build_room_key room_name))))
  set_or_get_sfu_address_for_room room_name intn s (winning connection_id sfu_node_id) = (
    r.s_add s (build_room_set_key_of_service connection_id) (build_room_key room_name),
    answered sfu_node_id,
  )
  set_or_get_sfu_address_for_room room_name intn s (answered address) = (s, answered address)
  set_or_get_sfu_address_for_room room_name intn s failed = (s, failed)
  set_or_get_sfu_address_for_room room_name intn s panicked = (s, panicked)

  unfoldable pub remove_room : r.Store → List ℕ → List ℕ → r.Store
  remove_room s node_id room_name =
      let room_key = build_room_key room_name in
      r.s_rem (r.del s room_key)
        (build_room_set_key_of_service (build_keep_alive_service_key service_sfu node_id)) room_key

  -- The goroutine that adds the lock to the set of the node, done at once.
  abbrev pub list_lock : r.Store → List ℕ → List ℕ → Bool → r.Store
  list_lock s rtsp_connection_key node_id true =
      let connection_id = build_keep_alive_service_key service_controller node_id in
      r.s_add s (build_rtsp_connection_set_key connection_id) rtsp_connection_key
  list_lock s rtsp_connection_key node_id false = s

  unfoldable pub set_rtsp_connection : r.Store → List ℕ → List ℕ → r.Store × Bool
  set_rtsp_connection s connection_url node_id =
      let rtsp_connection_key = build_rtsp_connection_key connection_url in
      let (t, ok) = r.set_nx s rtsp_connection_key node_id 0 in
      (list_lock t rtsp_connection_key node_id ok, ok)

  unfoldable pub delete_rtsp_connection : r.Store → List ℕ → r.Store
  delete_rtsp_connection s connection_url = r.del s (build_rtsp_connection_key connection_url)

  unfoldable pub get_rtsp_connection_node_id : r.Store → List ℕ → List ℕ
  get_rtsp_connection_node_id s connection_url =
      value (r.look s (build_rtsp_connection_key connection_url))
