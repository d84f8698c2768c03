-- ===== src/Rtsp/Service.antt =====
-- rtsp_client_service.go and the life of a `Client` of rtsp_client.go. A pointer to a client is a
-- number. What a connection attempt meets outside is its argument. A goroutine that the service
-- starts and does not wait for is run at once.
use sample_nodejs_server.Prelude.{
  ℕ, suc, Bool, true, false, ◌&&◌, List, [], ◌∷◌, ◌++◌, Option, none, some, ◌==◌, if◌then◌else◌,
}
use sample_nodejs_server.Prelude.Int.{ℤ}
use sample_nodejs_server.Prelude.Strings.{text, same_text}
use sample_nodejs_server.Redis.{Redis}
use sample_nodejs_server.Node.Keys.{
  service_controller, build_keep_alive_service_key, build_rtsp_connection_set_key,
}
use sample_nodejs_server.Node.Rooms.{Call, answered, set_rtsp_connection, delete_rtsp_connection}
use sample_nodejs_server.Node.Failover.{call_alone}

abbrev pub domain_counter_key : List ℕ
domain_counter_key = text "redis_rtsp_relay_domain_counter"

-- "Disable", or the address of the relay that ends in the number.
pub data Relay : Type 0 where
  disabled : Relay
  at : ℤ → Relay

pub record Client : Type 0 where
  pub client_id : List ℕ
  pub client_address : List ℕ
  pub rtsp_relay_address : Relay
  pub enable_rtsp_relay : Bool
  pub closed : Bool
  pub on_close : Bool  -- the service has set the handler

pub record RtspClientService : Type 0 where
  pub node_id : List ℕ
  pub clients : List ℕ → Option ℕ
  pub objects : ℕ → Client
  pub next : ℕ
  pub events : List (List ℕ × List ℕ)  -- published, the last one last

-- How an attempt goes: it ends before the pipeline and the SFU, or it looks for the SFU of the room
-- of the camera, and then all else works or not.
pub data Attempt : Type 0 where
  unreachable : Attempt
  started : (ℕ → ℕ) → Bool → Attempt

pub data Reply : Type 0 where
  busy : Reply  -- "Client is connected on another controller node", without an error
  connected : Relay → Reply
  error : Reply

-- A change of a map or of the heap.
abbrev pub put_client : (List ℕ → Option ℕ) → List ℕ → Option ℕ → List ℕ → Option ℕ
put_client clients id c j = if same_text j id then c else clients j

abbrev pub put_object : (ℕ → Client) → ℕ → Client → ℕ → Client
put_object objects n c m = if m == n then c else objects m

abbrev pub new_client : List ℕ → List ℕ → Relay → Bool → Client
new_client client_id client_address relay enable_rtsp_relay = record {
  client_id = client_id;
  client_address = client_address;
  rtsp_relay_address = relay;
  enable_rtsp_relay = enable_rtsp_relay;
  closed = false;
  on_close = false;
}

-- With a new object on the heap.
abbrev pub made : RtspClientService → Client → RtspClientService
made svc client = record svc {
  objects = put_object svc.objects svc.next client;
  next = suc svc.next;
}

abbrev pub succeeds : Call → Bool
succeeds (answered address) = true
succeeds _ = false

module _ (r : Redis) where
  pub record Outcome : Type 0 where
    pub service : RtspClientService
    pub store : r.Store
    pub reply : Reply

  -- `Client.Connect`: the store after it, and whether it connected.
  unfoldable pub connect : List ℕ → Attempt → r.Store → r.Store × Bool
  connect client_address unreachable s = (s, false)
  connect client_address (started intn works) s =
      let (t, call) = call_alone r client_address intn s in (t, succeeds call && works)

  -- The handler that the service sets.
  unfoldable pub run_on_close : List ℕ → Bool → r.Store → r.Store
  run_on_close node_id enable_rtsp_relay s =
      let t =
        r.del s (
          build_rtsp_connection_set_key
            (build_keep_alive_service_key service_controller node_id)) in
      if enable_rtsp_relay then (r.decr t domain_counter_key).0 else t

  -- `Client.Close`.
  unfoldable pub close : RtspClientService → ℕ → r.Store → RtspClientService × r.Store
  unfolding run_on_close
  close svc n s =
      let c = svc.objects n in
      let ended = record svc { objects = put_object svc.objects n (record c { closed = true }) } in
      if c.closed
      then (svc, s)
      else (ended, if c.on_close then run_on_close svc.node_id c.enable_rtsp_relay s else s)

  -- What is left when `Connect` fails. `close` in it finds no handler.
  unfoldable pub give_up : RtspClientService → ℕ → List ℕ → r.Store → Outcome
  unfolding close
  give_up svc n connect_client_address s =
      let t = delete_rtsp_connection r (r.decr s domain_counter_key).0 connect_client_address in
      let (ended, u) = close svc n t in record { service = ended; store = u; reply = error }

  unfoldable pub enter : RtspClientService → ℕ → List ℕ → Relay → r.Store → Outcome
  enter svc n client_id relay s = record {
    service = record svc {
      objects = put_object svc.objects n (record (svc.objects n) { on_close = true });
      clients = put_client svc.clients client_id (some n);
    };
    store = s;
    reply = connected relay;
  }

  -- With the lock, the new client and its relay address.
  unfoldable pub try :
      RtspClientService → List ℕ → List ℕ → Relay → Bool → Attempt → r.Store → Outcome
  unfolding connect give_up enter
  try svc client_id connect_client_address relay enable_rtsp_relay attempt s =
      let new = made svc (new_client client_id connect_client_address relay enable_rtsp_relay) in
      let (t, works) = connect connect_client_address attempt s in
      if works
      then enter new svc.next client_id relay t
      else give_up new svc.next connect_client_address t

  unfoldable pub relay_address : Bool → r.Store → r.Store × Relay
  relay_address true s = let (t, counter) = r.incr s domain_counter_key in (t, at counter)
  relay_address false s = (s, disabled)

  abbrev pub locked :
      RtspClientService → List ℕ → List ℕ → Bool → Attempt → r.Store × Bool → Outcome
  locked svc client_id connect_client_address enable_rtsp_relay attempt (s, false) = record {
    service = svc;
    store = s;
    reply = busy;
  }
  locked svc client_id connect_client_address enable_rtsp_relay attempt (s, true) =
      let (t, relay) = relay_address enable_rtsp_relay s in
      try svc client_id connect_client_address relay enable_rtsp_relay attempt t

  unfoldable pub connect_rtsp_client :
      RtspClientService → List ℕ → List ℕ → Bool → Attempt → r.Store → Outcome
  unfolding relay_address try
  connect_rtsp_client svc client_id connect_client_address enable_rtsp_relay attempt s =
      locked svc client_id connect_client_address enable_rtsp_relay attempt
        (set_rtsp_connection r s client_id svc.node_id)

  -- The answer is the error of the publication, which is left out.
  unfoldable pub disconnect_rtsp_client :
      RtspClientService → List ℕ → List ℕ → r.Store → RtspClientService × r.Store
  disconnect_rtsp_client svc client_id connect_client_address s = (
    record svc { events = svc.events ++ ((client_id, connect_client_address) ∷ []) },
    delete_rtsp_connection r s client_id,
  )

  -- With what `GetRTSPClient` found; false is its error.
  abbrev pub end_found :
      RtspClientService → List ℕ → Option ℕ → r.Store → RtspClientService × (r.Store × Bool)
  end_found svc client_id none s = (svc, (s, false))
  end_found svc client_id (some n) s =
      let (ended, t) = close svc n s in
      (record ended { clients = put_client ended.clients client_id none }, (t, true))

  unfoldable pub internal_disconnect_rtsp_client :
      RtspClientService → List ℕ → r.Store → RtspClientService × (r.Store × Bool)
  internal_disconnect_rtsp_client svc client_id s =
      end_found svc client_id (svc.clients client_id) s
