-- ===== src/Node/Tests.antt =====
-- Each theorem at a concrete table.
use sample_nodejs_server.Prelude.{
  ℕ, ◌≡◌, refl, ap, true, List, [], ◌∷◌, arith, get_or, if◌then◌else◌,
}
use sample_nodejs_server.Prelude.Strings.{text, split}
use sample_nodejs_server.Redis.{missing, string, value, some_members}
use sample_nodejs_server.Redis.Table.{Table, table, empty}
use sample_nodejs_server.Node.Keys.{
  build_rtsp_connection_key, build_rtsp_connection_set_key, service_sfu,
  build_keep_alive_service_key, get_node_id, is_service_node, build_room_key,
  build_room_set_key_of_service, build_rtsp_connection_set_key,
}
use sample_nodejs_server.Node.Names.{get_node_id-build}
use sample_nodejs_server.Node.Rooms.{
  delete_rtsp_connection, asking, answered, of_service, get_nodes_of_service,
  set_or_get_sfu_address_for_room, set_rtsp_connection,
}
use sample_nodejs_server.Node.Agreement.{World, Reach, here, next, steps, replace, Reach-agreed}
use sample_nodejs_server.Node.Cleaner.{
  flush, Node, exec, keep_alive_start, keep_alive_tick, is_alive, clean_sfu, clean_locks,
  clean_controller, clean_node, clean_nodes, clean,
}
use sample_nodejs_server.Node.Dead.{look-clean}
use sample_nodejs_server.Node.Restart.{flush_frees}
use sample_nodejs_server.Node.Failover.{call_alone, failover}

abbrev node_a : Node
node_a = record { node_id = text "a"; service = service_sfu }

abbrev node_b : Node
node_b = record { node_id = text "b"; service = service_sfu }

-- The key of `a` has expired, the one of `b` has not.
abbrev two_nodes : Table
two_nodes = keep_alive_tick table node_b (keep_alive_start table node_a empty)

abbrev room : List ℕ
room = text "r"

abbrev key_a : List ℕ
key_a = build_keep_alive_service_key service_sfu (text "a")

abbrev key_b : List ℕ
key_b = build_keep_alive_service_key service_sfu (text "b")

-- The room is on `a`.
abbrev with_room : Table
with_room = (call_alone table room (λ _. 1) two_nodes).0

with_room_a : value (table.look with_room (build_room_key room)) ≡ text "a"
unfolding keep_alive_tick keep_alive_start set_or_get_sfu_address_for_room get_nodes_of_service
    of_service is_service_node split build_keep_alive_service_key get_node_id build_room_key
    build_room_set_key_of_service
with_room_a = refl

get_node_id-build_example :
    (get_node_id (build_keep_alive_service_key (text "sfu") (text "n:1")) ≡ text "n")
    × (is_service_node (text "sfu") (build_keep_alive_service_key (text "sfu") (text "n:1")) ≡ true)
get_node_id-build_example = get_node_id-build (text "sfu") (text "n:1") (text "sfu") refl

failover_example :
    ((call_alone table room (λ _. 0) (clean table with_room)).1 ≡ answered (get_node_id key_b))
    × (is_alive table with_room key_b ≡ true)
unfolding keep_alive_tick keep_alive_start set_or_get_sfu_address_for_room get_nodes_of_service
    of_service is_service_node split build_keep_alive_service_key get_node_id build_room_key
    build_room_set_key_of_service build_rtsp_connection_set_key is_alive clean exec clean_nodes
    clean_node clean_sfu clean_controller clean_locks
failover_example =
    failover table with_room room key_a key_b (λ _. 0) (some_members _) refl refl refl refl refl
      refl

look-clean_example :
    table.look (clean table with_room) (build_room_key room)
    ≡ (if true then missing else string (text "a"))
unfolding keep_alive_tick keep_alive_start set_or_get_sfu_address_for_room get_nodes_of_service
    of_service is_service_node split build_keep_alive_service_key get_node_id build_room_key
    build_room_set_key_of_service build_rtsp_connection_set_key is_alive
look-clean_example =
    look-clean table with_room (build_room_key room) (λ h. differ (ap (λ k. get_or k 7 0) h))
  where
    differ : ¬ (◌≡◌ {A = ℕ} 102 101)
    differ h = omega (arith, h)

-- Two calls start, and the second is answered before the first has chosen.
abbrev at_start : World table room
at_start = record { store = two_nodes; calls = λ _. asking }

abbrev after_step : ℕ → ℕ → World table room → World table room
after_step i n w = record {
  store = (set_or_get_sfu_address_for_room table room (λ _. n) w.store (w.calls i)).0;
  calls =
      replace table room w.calls i
        (set_or_get_sfu_address_for_room table room (λ _. n) w.store (w.calls i)).1;
}

-- The calls that step, with the node that each picks.
abbrev follow : List (ℕ × ℕ) → World table room → World table room
follow [] w = w
follow ((i, n) ∷ rest) w = follow rest (after_step i n w)

Reach-follow :
    (l : List (ℕ × ℕ)) (u w : World table room)
    → Reach table room u w
    → Reach table room u (follow l w)
Reach-follow [] u w reach = reach
Reach-follow ((i, n) ∷ rest) u w reach =
    Reach-follow rest u (after_step i n w) (next u w (after_step i n w) reach (steps w i (λ _. n)))

abbrev order : List (ℕ × ℕ)
order = (1, 0) ∷ ((0, 1) ∷ ((0, 1) ∷ ((1, 0) ∷ ((0, 1) ∷ ((1, 0) ∷ ((1, 0) ∷ ((0, 1) ∷ [])))))))

Reach-agreed_example :
    (text "a" ≡ text "a")
    × (value (table.look (follow order at_start).store (build_room_key room)) ≡ text "a")
unfolding keep_alive_tick keep_alive_start set_or_get_sfu_address_for_room get_nodes_of_service
    of_service is_service_node split build_keep_alive_service_key get_node_id build_room_key
    build_room_set_key_of_service
Reach-agreed_example =
    Reach-agreed table room two_nodes (follow order at_start) 0 1 (text "a") (text "a")
      (Reach-follow order at_start at_start (here at_start)) refl refl

-- The first controller was disconnected from the camera, and the second has it.
abbrev taken_over : Table
taken_over =
    (set_rtsp_connection table
      (delete_rtsp_connection table (set_rtsp_connection table empty (text "d") (text "1")).0
        (text "d"))
      (text "d") (text "2")).0

flush_frees_example :
    (table.look (flush table taken_over (text "1")) (build_rtsp_connection_key (text "d"))
      ≡ missing)
    × ((set_rtsp_connection table (flush table taken_over (text "1")) (text "d") (text "1")).1
        ≡ true)
unfolding set_rtsp_connection delete_rtsp_connection build_keep_alive_service_key
    build_rtsp_connection_key build_rtsp_connection_set_key
flush_frees_example =
    flush_frees table taken_over (text "1") (text "d") (text "2") (text "1") refl refl
