-- ===== src/Rtsp/Locks.antt =====
-- The lock of a camera after an attempt to connect it.
use sample_nodejs_server.Prelude.{
  ℕ, ◌≡◌, ◌≢◌, refl, sym, ap, ◌∙◌, Bool, true, false, ◌⊎◌, inl, inr, List, [], ◌∷◌, map, if_elim,
  ◌==◌, eq→==,
}
use sample_nodejs_server.Redis.{Redis, Entry, missing, string, IsFree}
use sample_nodejs_server.Node.Keys.{
  service_controller, build_keep_alive_service_key, build_rtsp_connection_key,
  build_rtsp_connection_set_key,
}
use sample_nodejs_server.Node.Names.{lock-lock_set, lock_injective}
use sample_nodejs_server.Node.Rooms.{set_rtsp_connection, list_lock, delete_rtsp_connection}
use sample_nodejs_server.Rtsp.Service.{
  domain_counter_key, Relay, disabled, at, RtspClientService, Attempt, busy, connected, error,
  new_client, made, Outcome, connect, close, give_up, enter, try, locked, connect_rtsp_client,
  disconnect_rtsp_client,
}
use sample_nodejs_server.Rtsp.Frames.{lock-IsElsewhere, counter-lock, connect-IsSame}

-- An attempt of some controller to connect a camera, with its address.
pub record LaterAttempt : Type 0 where
  pub service : RtspClientService
  pub address : List ℕ
  pub relay : Bool
  pub attempt : Attempt

module _ (r : Redis) where
  lock_at : r.Store → List ℕ → Entry
  lock_at s id = r.look s (build_rtsp_connection_key id)

  -- Nothing is done, and the reply is that another controller has the camera.
  abbrev pub refused : RtspClientService → r.Store → Outcome r
  refused svc s = record { service = svc; store = s; reply = busy }

  taken : (e : Entry) (v : List ℕ) → e ≡ string v → ¬ IsFree e
  taken e v h = rw h (λ f. elim f [ ])

  held_refuses :
      (svc : RtspClientService) (id address : List ℕ) (relay : Bool) (attempt : Attempt)
      (s : r.Store) (v : List ℕ)
      → lock_at s id ≡ string v
      → connect_rtsp_client r svc id address relay attempt s ≡ refused svc s
  unfolding connect_rtsp_client set_rtsp_connection lock_at
  held_refuses svc id address relay attempt s v h =
      let e = r.set_nx_taken s (build_rtsp_connection_key id) svc.node_id 0 (taken _ v h) in
      ap
        (λ (p : r.Store × Bool).
          locked r svc id address relay attempt
            (list_lock r p.0 (build_rtsp_connection_key id) svc.node_id p.1, p.1))
        e

  -- Attempts to connect a camera, one after the other, and nothing else.
  abbrev pub in_turn : List ℕ → List LaterAttempt → r.Store → r.Store × List (Outcome r)
  in_turn id [] s = (s, [])
  in_turn id (l ∷ ls) s =
      let o = connect_rtsp_client r (l.service) id (l.address) l.relay (l.attempt) s in
      let (t, outcomes) = in_turn id ls o.store in (t, o ∷ outcomes)

  -- Each is refused and leaves the store and its controller as they were.
  abbrev pub all_refused : List LaterAttempt → r.Store → r.Store × List (Outcome r)
  all_refused laters s = (s, map (λ (l : LaterAttempt). refused (l.service) s) laters)

  held_in_turn :
      (id : List ℕ) (laters : List LaterAttempt) (s : r.Store) (v : List ℕ)
      → lock_at s id ≡ string v
      → in_turn id laters s ≡ all_refused laters s
  held_in_turn id [] s v h = refl
  held_in_turn id (l ∷ ls) s v h =
      let e = held_refuses (l.service) id (l.address) l.relay (l.attempt) s v h in
      ap (λ (o : Outcome r). let (t, outcomes) = in_turn id ls o.store in (t, o ∷ outcomes)) e
      ∙ ap (λ (p : r.Store × List (Outcome r)). (p.0, refused (l.service) s ∷ p.1))
          (held_in_turn id ls s v h)

  -- A client without the handler leaves the store when it is closed.
  close_quiet :
      (svc : RtspClientService) (n : ℕ) (s : r.Store)
      → (svc.objects n).on_close ≡ false
      → (close r svc n s).1 ≡ s
  unfolding close
  close_quiet svc n s h =
      if_elim (λ (p : RtspClientService × r.Store). p.1 ≡ s) (svc.objects n).closed (λ _. refl)
        (λ _. rw h refl)

  lock-give_up :
      (svc : RtspClientService) (n : ℕ) (id address : List ℕ) (s : r.Store)
      → (svc.objects n).on_close ≡ false
      → id ≢ address
      → lock_at (give_up r svc n address s).store id ≡ lock_at s id
  unfolding give_up delete_rtsp_connection lock_at
  lock-give_up svc n id address s quiet ne =
      let key = build_rtsp_connection_key id in
      let t = (r.decr s domain_counter_key).0 in
      ap (λ (u : r.Store). r.look u key)
        (close_quiet svc n (r.del t (build_rtsp_connection_key address)) quiet)
      ∙ (r.look-del t (build_rtsp_connection_key address) key
            (λ h. ne (lock_injective id address h))
          ∙ r.look-decr s domain_counter_key key (λ h. counter-lock id (sym h)))

  pub no_client :
      (svc : RtspClientService) (n : ℕ) (address : List ℕ) (s : r.Store) (y : Relay)
      → ¬ ((give_up r svc n address s).reply ≡ connected y)
  unfolding give_up
  no_client svc n address s y h = cc

  lock-try :
      (svc : RtspClientService) (id address : List ℕ) (relay : Relay) (enable : Bool)
      (attempt : Attempt) (s : r.Store)
      → let o = try r svc id address relay enable attempt s in
        id ≢ address ⊎ ((y : Relay) × (o.reply ≡ connected y)) → lock_at o.store id ≡ lock_at s id
  unfolding try enter lock_at
  lock-try svc id address relay enable attempt s =
      let key = build_rtsp_connection_key id in
      let self : (svc.next == svc.next) ≡ true = eq→== svc.next svc.next refl in
      let kept = (connect-IsSame r key address attempt s (lock-IsElsewhere id)).look in
      let new = made svc (new_client id address relay enable) in
      if_elim
        (λ (o : Outcome r).
          id ≢ address ⊎ ((y : Relay) × (o.reply ≡ connected y))
          → r.look o.store key ≡ r.look s key)
        (connect r address attempt s).1 (λ works _. kept)
        (λ fails how. elim how [
          | inl ne ↦
              lock-give_up new svc.next id address (connect r address attempt s).0 (rw self refl) ne
              ∙ kept
          | inr (y, h) ↦ absurd (no_client new svc.next address (connect r address attempt s).0 y h)
        ])

  -- The lock of the camera after an attempt that began without one.
  lock-connect :
      (svc : RtspClientService) (id address : List ℕ) (relay : Bool) (attempt : Attempt)
      (s : r.Store)
      → let o = connect_rtsp_client r svc id address relay attempt s in
        IsFree (lock_at s id)
        → id ≢ address ⊎ ((y : Relay) × (o.reply ≡ connected y))
        → lock_at o.store id ≡ string svc.node_id
  unfolding connect_rtsp_client set_rtsp_connection lock_at
  lock-connect svc id address relay attempt s free =
      let key = build_rtsp_connection_key id in
      let set_key =
        build_rtsp_connection_set_key
          (build_keep_alive_service_key service_controller svc.node_id) in
      let (ok, there) = r.set_nx_free s key svc.node_id 0 free in
      let t = (r.set_nx s key svc.node_id 0).0 in
      let listed =
        r.look-s_add t set_key key key
          (lock-lock_set id (build_keep_alive_service_key service_controller svc.node_id)) in
      rw ok (λ how. after_lock relay (r.s_add t set_key key) how ∙ (listed ∙ there))
    where
      after_lock :
          (relay : Bool) (t : r.Store)
          → let o = locked r svc id address relay attempt (t, true) in
            id ≢ address ⊎ ((y : Relay) × (o.reply ≡ connected y))
            → r.look o.store (build_rtsp_connection_key id)
              ≡ r.look t (build_rtsp_connection_key id)
      after_lock false t how = lock-try svc id address disabled false attempt t how
      after_lock true t how =
          let (u, number) = r.incr t domain_counter_key in
          lock-try svc id address (at number) true attempt u how
          ∙ r.look-incr t domain_counter_key (build_rtsp_connection_key id)
              (λ h. counter-lock id (sym h))

  -- A controller connects a camera that has no lock. As long as nothing else changes the store, every
  -- attempt that follows to connect it, by any controllers and any number of times, is told that
  -- another controller has it, and changes neither the store nor its controller; and if the camera
  -- is disconnected next, by the controller that has it, its lock is gone.
  pub connect_excludes :
      (svc : RtspClientService) (id address : List ℕ) (relay : Bool) (attempt : Attempt)
      (laters : List LaterAttempt) (s : r.Store) (y : Relay)
      → let o = connect_rtsp_client r svc id address relay attempt s in
        IsFree (r.look s (build_rtsp_connection_key id))
        → o.reply ≡ connected y
        → (in_turn id laters o.store ≡ all_refused laters o.store)
          × (r.look
                (disconnect_rtsp_client r o.service id address o.store).1
                (build_rtsp_connection_key id)
              ≡ missing)
  unfolding lock_at disconnect_rtsp_client delete_rtsp_connection
  connect_excludes svc id address relay attempt laters s y free h =
      let o = connect_rtsp_client r svc id address relay attempt s in
      let held = lock-connect svc id address relay attempt s free (inr (y, h)) in
      (
        held_in_turn id laters o.store svc.node_id held,
        r.del_lem o.store (build_rtsp_connection_key id),
      )

  -- The attempt of a controller on a camera that has no lock fails, and the identifier of the camera
  -- is not its address. The lock stays with the controller: as long as nothing else changes the
  -- store, every attempt that follows to connect the camera, by any controllers and any number of
  -- times, the first controller too, is told that another has it, and changes neither the store
  -- nor its controller.
  pub failed_connect_locks :
      (svc : RtspClientService) (id address : List ℕ) (relay : Bool) (attempt : Attempt)
      (laters : List LaterAttempt) (s : r.Store)
      → let o = connect_rtsp_client r svc id address relay attempt s in
        IsFree (r.look s (build_rtsp_connection_key id))
        → id ≢ address
        → o.reply ≡ error
        → (in_turn id laters o.store ≡ all_refused laters o.store)
          × (r.look o.store (build_rtsp_connection_key id) ≡ string svc.node_id)
  unfolding lock_at
  failed_connect_locks svc id address relay attempt laters s free ne _ =
      let o = connect_rtsp_client r svc id address relay attempt s in
      let held = lock-connect svc id address relay attempt s free (inl ne) in
      (held_in_turn id laters o.store svc.node_id held, held)
