-- ===== src/Node/Keys.antt =====
-- controller/pkg/node/discovery.go, lines 13 to 52 and 115 to 121: the keys in Redis.
use sample_nodejs_server.Prelude.{
  ℕ, Bool, false, List, [], ◌∷◌, ◌++◌, ltb, if◌then◌else◌, length, get_or,
}
use sample_nodejs_server.Prelude.Strings.{text, same_text, split}

abbrev pub keep_alive_service_prefix : List ℕ
keep_alive_service_prefix = text "redis_service_keep_alive"

abbrev pub connection_set_key : List ℕ
connection_set_key = text "redis_service_connection_set"

abbrev pub room_prefix : List ℕ
room_prefix = text "redis_sfu_room"

abbrev pub room_set_prefix : List ℕ
room_set_prefix = text "redis_sfu_room_set"

abbrev pub rtsp_connection_prefix : List ℕ
rtsp_connection_prefix = text "redis_rtsp_connection"

abbrev pub rtsp_connection_set_prefix : List ℕ
rtsp_connection_set_prefix = text "redis_rtsp_connection_set"

-- The colon.
abbrev pub seperator : ℕ
seperator = 58

abbrev pub service_sfu : List ℕ
service_sfu = text "sfu"

abbrev pub service_controller : List ℕ
service_controller = text "controller"

unfoldable pub build_keep_alive_service_key : List ℕ → List ℕ → List ℕ
build_keep_alive_service_key service node_id =
    keep_alive_service_prefix ++ (seperator ∷ (service ++ (seperator ∷ node_id)))

unfoldable pub get_node_id : List ℕ → List ℕ
unfolding split
get_node_id id =
    let components = split seperator id in
    if ltb (length components) 3 then [] else get_or components 2 []

unfoldable pub is_service_node : List ℕ → List ℕ → Bool
unfolding split
is_service_node service id =
    let components = split seperator id in
    if ltb (length components) 2 then false else same_text service (get_or components 1 [])

unfoldable pub build_room_set_key_of_service : List ℕ → List ℕ
build_room_set_key_of_service post_fix = room_set_prefix ++ (seperator ∷ post_fix)

unfoldable pub build_room_key : List ℕ → List ℕ
build_room_key room_name = room_prefix ++ (seperator ∷ room_name)

unfoldable pub build_rtsp_connection_set_key : List ℕ → List ℕ
build_rtsp_connection_set_key post_fix = rtsp_connection_set_prefix ++ (seperator ∷ post_fix)

unfoldable pub build_rtsp_connection_key : List ℕ → List ℕ
build_rtsp_connection_key connection_url = rtsp_connection_prefix ++ (seperator ∷ connection_url)
