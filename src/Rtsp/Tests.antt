-- ===== src/Rtsp/Tests.antt =====
-- Each theorem at a concrete table.
use sample_nodejs_server.Prelude.{
  ℕ, ◌≡◌, ◌≢◌, refl, ap, true, false, List, [], some, none, arith, get_or, ◌∷◌, [], List,
}
use sample_nodejs_server.Prelude.Int.{pos}
use sample_nodejs_server.Prelude.Strings.{text, split}
use sample_nodejs_server.Redis.{missing, string, no_entry}
use sample_nodejs_server.Redis.Table.{Table, table, empty}
use sample_nodejs_server.Node.Keys.{
  service_sfu, build_keep_alive_service_key, get_node_id, is_service_node, build_room_key,
  build_room_set_key_of_service, build_rtsp_connection_key, build_rtsp_connection_set_key,
}
use sample_nodejs_server.Node.Rooms.{
  of_service, get_nodes_of_service, set_or_get_sfu_address_for_room, set_rtsp_connection,
  delete_rtsp_connection,
}
use sample_nodejs_server.Node.Cleaner.{keep_alive_start}
use sample_nodejs_server.Rtsp.Service.{
  disabled, at, RtspClientService, Attempt, unreachable, started, new_client, connect, run_on_close,
  close, give_up, enter, try, relay_address, connect_rtsp_client, disconnect_rtsp_client,
  internal_disconnect_rtsp_client,
}
use sample_nodejs_server.Rtsp.Locks.{
  LaterAttempt, in_turn, all_refused, connect_excludes, failed_connect_locks,
}
use sample_nodejs_server.Rtsp.Relay.{relay_reused}
use sample_nodejs_server.Rtsp.Events.{stale_event}

-- One SFU is there.
abbrev one_sfu : Table
one_sfu = keep_alive_start table (record { node_id = text "s"; service = service_sfu }) empty

abbrev service_of : List ℕ → RtspClientService
service_of node_id = record {
  node_id = node_id;
  clients = λ id. none;
  objects = λ n. new_client [] [] disabled false;
  next = 0;
  events = [];
}

abbrev first_node : RtspClientService
first_node = service_of (text "1")

abbrev second_node : RtspClientService
second_node = service_of (text "2")

abbrev works : Attempt
works = started (λ n. 0) true

abbrev door : List ℕ
door = text "d"

abbrev gate : List ℕ
gate = text "g"

abbrev yard : List ℕ
yard = text "y"

abbrev url : List ℕ
url = text "u"

differ : door ≢ url
differ h = numbers (ap (λ k. get_or k 0 0) h)
  where
    numbers : ¬ (◌≡◌ {A = ℕ} 100 117)
    numbers e = omega (arith, e)

-- The other controller tries, and then the first one again.
abbrev two_attempts : List LaterAttempt
two_attempts =
    record { service = second_node; address = url; relay = false; attempt = works }
    ∷ (record { service = first_node; address = url; relay = true; attempt = works } ∷ [])

connect_excludes_example :
    let o = connect_rtsp_client table first_node door url true works one_sfu in
    (in_turn table door two_attempts o.store ≡ all_refused table two_attempts o.store)
    × (table.look
          (disconnect_rtsp_client table o.service door url o.store).1
          (build_rtsp_connection_key door)
        ≡ missing)
unfolding keep_alive_start connect_rtsp_client try enter give_up close run_on_close connect
    relay_address set_rtsp_connection delete_rtsp_connection disconnect_rtsp_client
    set_or_get_sfu_address_for_room get_nodes_of_service of_service is_service_node split
    build_keep_alive_service_key get_node_id build_room_key build_room_set_key_of_service
    build_rtsp_connection_key build_rtsp_connection_set_key
connect_excludes_example =
    connect_excludes table first_node door url true works two_attempts one_sfu (at (pos 1)) no_entry
      refl

failed_connect_locks_example :
    let o = connect_rtsp_client table first_node door url false unreachable one_sfu in
    (in_turn table door two_attempts o.store ≡ all_refused table two_attempts o.store)
    × (table.look o.store (build_rtsp_connection_key door) ≡ string (text "1"))
unfolding keep_alive_start connect_rtsp_client try enter give_up close run_on_close connect
    relay_address set_rtsp_connection delete_rtsp_connection disconnect_rtsp_client
    set_or_get_sfu_address_for_room get_nodes_of_service of_service is_service_node split
    build_keep_alive_service_key get_node_id build_room_key build_room_set_key_of_service
    build_rtsp_connection_key build_rtsp_connection_set_key
failed_connect_locks_example =
    failed_connect_locks table first_node door url false unreachable two_attempts one_sfu no_entry
      differ refl

relay_reused_example : pos 2 ≡ pos 2
unfolding keep_alive_start connect_rtsp_client try enter give_up close run_on_close connect
    relay_address set_rtsp_connection delete_rtsp_connection disconnect_rtsp_client
    set_or_get_sfu_address_for_room get_nodes_of_service of_service is_service_node split
    build_keep_alive_service_key get_node_id build_room_key build_room_set_key_of_service
    build_rtsp_connection_key build_rtsp_connection_set_key
relay_reused_example =
    relay_reused table first_node one_sfu door url gate url yard url works works works (pos 1)
      (pos 2) (pos 2) refl refl refl

-- The camera is the object 0, and the next one is 1.
abbrev with_door : RtspClientService
with_door = record first_node { clients = λ id. some 0; next = 1 }

stale_event_example :
    let (left, t) = disconnect_rtsp_client table with_door door url one_sfu in
    let o = connect_rtsp_client table left door url false works t in
    let (last, _) = internal_disconnect_rtsp_client table o.service door o.store in
    ((last.objects 1).closed ≡ true)
    × (((last.objects 0).closed ≡ false) × (last.clients door ≡ none))
unfolding keep_alive_start connect_rtsp_client try enter give_up close run_on_close connect
    relay_address set_rtsp_connection delete_rtsp_connection disconnect_rtsp_client
    set_or_get_sfu_address_for_room get_nodes_of_service of_service is_service_node split
    build_keep_alive_service_key get_node_id build_room_key build_room_set_key_of_service
    build_rtsp_connection_key build_rtsp_connection_set_key
stale_event_example =
    stale_event table with_door door url false works one_sfu 0 disabled refl (λ h. omega (arith, h))
      refl refl
