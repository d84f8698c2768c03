-- ===== src/Rtsp/Frames.antt =====
-- The keys that a part of the service leaves alone.
use sample_nodejs_server.Prelude.{
  ℕ, ◌≡◌, ◌≢◌, refl, ap, ◌∙◌, Bool, true, false, List, arith, get_or,
}
use sample_nodejs_server.Redis.{Redis}
use sample_nodejs_server.Node.Keys.{
  service_controller, build_keep_alive_service_key, build_room_key, build_room_set_key_of_service,
  build_rtsp_connection_key, build_rtsp_connection_set_key, get_node_id,
}
use sample_nodejs_server.Node.Names.{lock-room, lock-room_set}
use sample_nodejs_server.Node.Rooms.{
  Call, asking, listing, choosing, losing, winning, answered, failed, panicked, room_expiry,
  set_or_get_sfu_address_for_room, set_rtsp_connection, list_lock,
}
use sample_nodejs_server.Node.Failover.{call_alone}
use sample_nodejs_server.Rtsp.Service.{domain_counter_key, Attempt, unreachable, started, connect}

-- No key of a room or of the rooms of a node.
pub record IsElsewhere (j : List ℕ) : Type 0 where
  pub no_room : (name : List ℕ) → j ≢ build_room_key name
  pub no_room_set : (post_fix : List ℕ) → j ≢ build_room_set_key_of_service post_fix

pub lock-IsElsewhere : (url : List ℕ) → IsElsewhere (build_rtsp_connection_key url)
lock-IsElsewhere url = record { no_room = lock-room url; no_room_set = lock-room_set url }

byte : ℕ → List ℕ → ℕ
byte i s = get_or s i 0

clash : (i : ℕ) (a b : List ℕ) → byte i a ≢ byte i b → a ≢ b
clash i a b ne h = ne (ap (byte i) h)

pub counter-IsElsewhere : IsElsewhere domain_counter_key
unfolding build_room_key build_room_set_key_of_service byte
counter-IsElsewhere = record {
  no_room = λ name. clash 6 _ _ (λ h. omega (arith, h));
  no_room_set = λ post_fix. clash 6 _ _ (λ h. omega (arith, h));
}

pub counter-lock : (url : List ℕ) → domain_counter_key ≢ build_rtsp_connection_key url
unfolding build_rtsp_connection_key byte
counter-lock url = clash 11 _ _ (λ h. omega (arith, h))

pub counter-lock_set :
    (post_fix : List ℕ) → domain_counter_key ≢ build_rtsp_connection_set_key post_fix
unfolding build_rtsp_connection_set_key byte
counter-lock_set post_fix = clash 11 _ _ (λ h. omega (arith, h))

module _ (r : Redis) where
  pub record IsSame (j : List ℕ) (s t : r.Store) : Type 0 where
    pub look : r.look t j ≡ r.look s j
    pub count : r.count t j ≡ r.count s j

  pub and_IsSame : {j : List ℕ} {s t u : r.Store} → IsSame j s t → IsSame j t u → IsSame j s u
  and_IsSame a b = record { look = b.look ∙ a.look; count = b.count ∙ a.count }

  step-IsSame :
      (j room : List ℕ) (intn : ℕ → ℕ) (s : r.Store) (c : Call)
      → IsElsewhere j
      → IsSame j s (set_or_get_sfu_address_for_room r room intn s c).0
  unfolding set_or_get_sfu_address_for_room
  step-IsSame j room intn s asking e = record { look = refl; count = refl }
  step-IsSame j room intn s listing e = record { look = refl; count = refl }
  step-IsSame j room intn s (choosing c) e = record {
    look = r.look-set_nx s (build_room_key room) (get_node_id c) room_expiry j (e.no_room room);
    count = r.count-set_nx s (build_room_key room) (get_node_id c) room_expiry j (e.no_room room);
  }
  step-IsSame j room intn s losing e = record { look = refl; count = refl }
  step-IsSame j room intn s (winning c a) e =
      let key = build_room_set_key_of_service c in
      record {
        look = r.look-s_add s key (build_room_key room) j (e.no_room_set c);
        count = r.count-s_add s key (build_room_key room) j (e.no_room_set c);
      }
  step-IsSame j room intn s (answered a) e = record { look = refl; count = refl }
  step-IsSame j room intn s failed e = record { look = refl; count = refl }
  step-IsSame j room intn s panicked e = record { look = refl; count = refl }

  call_alone-IsSame :
      (j room : List ℕ) (intn : ℕ → ℕ) (s : r.Store)
      → IsElsewhere j
      → IsSame j s (call_alone r room intn s).0
  call_alone-IsSame j room intn s e =
      let next : r.Store × Call → r.Store × Call =
        λ p. set_or_get_sfu_address_for_room r room intn p.0 p.1 in
      let at : (p : r.Store × Call) → IsSame j p.0 (next p).0 =
        λ p. step-IsSame j room intn p.0 p.1 e in
      let p0 : r.Store × Call = (s, asking) in
      and_IsSame (at p0)
        (and_IsSame (at (next p0)) (and_IsSame (at (next (next p0))) (at (next (next (next p0))))))

  pub connect-IsSame :
      (j address : List ℕ) (attempt : Attempt) (s : r.Store)
      → IsElsewhere j
      → IsSame j s (connect r address attempt s).0
  unfolding connect
  connect-IsSame j address unreachable s e = record { look = refl; count = refl }
  connect-IsSame j address (started intn works) s e = call_alone-IsSame j address intn s e

  -- Taking a lock leaves the counter.
  pub count-set_rtsp_connection :
      (s : r.Store) (id node : List ℕ)
      → r.count (set_rtsp_connection r s id node).0 domain_counter_key
        ≡ r.count s domain_counter_key
  unfolding set_rtsp_connection
  count-set_rtsp_connection s id node =
      let key = build_rtsp_connection_key id in
      let (t, ok) = r.set_nx s key node 0 in
      listed_count t key node ok ∙ r.count-set_nx s key node 0 domain_counter_key (counter-lock id)
    where
      listed_count :
          (t : r.Store) (key node : List ℕ) (ok : Bool)
          → r.count (list_lock r t key node ok) domain_counter_key ≡ r.count t domain_counter_key
      listed_count t key node true =
          r.count-s_add t
            (build_rtsp_connection_set_key (build_keep_alive_service_key service_controller node))
            key domain_counter_key
            (counter-lock_set (build_keep_alive_service_key service_controller node))
      listed_count t key node false = refl
