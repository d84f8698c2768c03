-- ===== src/Node/Cleaner.antt =====
-- controller/pkg/node/node.go: a node keeps itself alive, and a cleaner frees what dead nodes left.
-- The cleaner reads first and deletes in one pipeline at the end.
use sample_nodejs_server.Prelude.{ℕ, Bool, List, [], ◌∷◌, ◌++◌, map, if◌then◌else◌}
use sample_nodejs_server.Prelude.Int.{pos, ltb_ℤ}
use sample_nodejs_server.Prelude.Strings.{same_text}
use sample_nodejs_server.Redis.{Redis, value, elements}
use sample_nodejs_server.Node.Keys.{
  connection_set_key, service_sfu, service_controller, build_keep_alive_service_key, get_node_id,
  is_service_node, build_room_set_key_of_service, build_rtsp_connection_set_key,
}

pub record Node : Type 0 where
  pub node_id : List ℕ
  pub service : List ℕ

-- The commands of the pipeline.
pub data Command : Type 0 where
  del : List ℕ → Command
  s_rem : List ℕ → List ℕ → Command

abbrev pub keep_alive_seconds : ℕ
keep_alive_seconds = 9

module _ (r : Redis) where
  abbrev pub exec_one : r.Store → Command → r.Store
  exec_one s (del k) = r.del s k
  exec_one s (s_rem k m) = r.s_rem s k m

  unfoldable pub exec : r.Store → List Command → r.Store
  exec s [] = s
  exec s (c ∷ cs) = exec (exec_one s c) cs

  -- Before the first tick.
  unfoldable pub keep_alive_start : Node → r.Store → r.Store
  keep_alive_start n s =
      r.s_add s connection_set_key (build_keep_alive_service_key n.service n.node_id)

  unfoldable pub keep_alive_tick : Node → r.Store → r.Store
  keep_alive_tick n s =
      let key = build_keep_alive_service_key n.service n.node_id in
      r.set (r.s_add s connection_set_key key) key [] keep_alive_seconds

  unfoldable pub is_alive : r.Store → List ℕ → Bool
  is_alive s connection = ltb_ℤ (pos 0) (r.ttl s connection)

  unfoldable pub clean_sfu : r.Store → List ℕ → List Command
  clean_sfu s connection =
      let room_of_service_key = build_room_set_key_of_service connection in
      if is_service_node service_sfu connection
      then map del (elements (r.look s room_of_service_key)) ++ (del room_of_service_key ∷ [])
      else []

  -- The locks of the node are deleted, and those that another node has now are kept.
  unfoldable pub clean_locks : r.Store → List ℕ → List (List ℕ) → List Command
  clean_locks s connection [] = []
  clean_locks s connection (k ∷ ks) =
      let rest = clean_locks s connection ks in
      if same_text (value (r.look s k)) (get_node_id connection) then del k ∷ rest else rest

  unfoldable pub clean_controller : r.Store → List ℕ → List Command
  unfolding clean_locks
  clean_controller s connection =
      let rtsp_connection_set = build_rtsp_connection_set_key connection in
      if is_service_node service_controller connection
      then clean_locks s connection (elements (r.look s rtsp_connection_set))
        ++ (del rtsp_connection_set ∷ [])
      else []

  unfoldable pub clean_node : r.Store → List ℕ → List Command
  unfolding is_alive clean_sfu clean_controller
  clean_node s connection =
      if is_alive s connection
      then []
      else clean_sfu s connection
        ++ (clean_controller s connection ++ (s_rem connection_set_key connection ∷ []))

  unfoldable pub clean_nodes : r.Store → List (List ℕ) → List Command
  unfolding clean_node
  clean_nodes s [] = []
  clean_nodes s (connection ∷ rest) = clean_node s connection ++ clean_nodes s rest

  -- One tick of the cleaner.
  unfoldable pub clean : r.Store → r.Store
  unfolding exec clean_nodes
  clean s = exec s (clean_nodes s (elements (r.look s connection_set_key)))

  -- What `NewHandler` of controller/apps/controller/controller.go deletes before the controller
  -- starts: the locks that are listed for it, and their set.
  unfoldable pub flush : r.Store → List ℕ → r.Store
  unfolding exec
  flush s node_id =
      let rtsp_connection_set_key =
        build_rtsp_connection_set_key (build_keep_alive_service_key service_controller node_id) in
      exec s (
        map del (elements (r.look s rtsp_connection_set_key)) ++ (del rtsp_connection_set_key ∷ []))
