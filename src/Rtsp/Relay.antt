-- ===== src/Rtsp/Relay.antt =====
-- The number in the address of a relay, which counts the relays.
use sample_nodejs_server.Prelude.{
  ℕ, suc, ◌≡◌, ◌≢◌, refl, sym, ap, ◌∙◌, Bool, true, false, List, arith, if_elim, ◌==◌, ne→==, eq→==,
}
use sample_nodejs_server.Prelude.Int.{ℤ, inc, dec, dec-inc}
use sample_nodejs_server.Redis.{Redis}
use sample_nodejs_server.Node.Keys.{
  service_controller, build_keep_alive_service_key, build_rtsp_connection_set_key,
}
use sample_nodejs_server.Node.Rooms.{set_rtsp_connection}
use sample_nodejs_server.Rtsp.Service.{
  domain_counter_key, at, RtspClientService, Attempt, busy, connected, error, Outcome, connect,
  run_on_close, close, give_up, enter, try, relay_address, locked, connect_rtsp_client,
}
use sample_nodejs_server.Rtsp.Frames.{
  counter-IsElsewhere, counter-lock_set, connect-IsSame, count-set_rtsp_connection,
}

module _ (r : Redis) where
  counter : r.Store → ℤ
  counter s = r.count s domain_counter_key

  -- The attempt ended with a client, whose relay has the number x.
  record IsEntered (svc : RtspClientService) (o : Outcome r) (x : ℤ) : Type 0 where
    counted : counter (o.store) ≡ x
    open_client : (o.service.objects svc.next).closed ≡ false
    has_handler : (o.service.objects svc.next).on_close ≡ true
    has_relay : (o.service.objects svc.next).enable_rtsp_relay ≡ true
    others : (m : ℕ) → m ≢ svc.next → o.service.objects m ≡ svc.objects m
    following : o.service.next ≡ suc svc.next

  unequal : {x : ℤ} → ¬ (busy ≡ connected (at x))
  unequal h = cc

  no_error : {x : ℤ} → ¬ (error ≡ connected (at x))
  no_error h = cc

  same_number : (x y : ℤ) → connected (at y) ≡ connected (at x) → y ≡ x
  same_number x y h = cc

  try-IsEntered :
      (svc : RtspClientService) (id address : List ℕ) (attempt : Attempt) (s : r.Store) (x y : ℤ)
      → counter s ≡ y
      → (try r svc id address (at y) true attempt s).reply ≡ connected (at x)
      → IsEntered svc (try r svc id address (at y) true attempt s) x × (y ≡ x)
  unfolding try enter give_up counter
  try-IsEntered svc id address attempt s x y c =
      let self : (svc.next == svc.next) ≡ true = eq→== svc.next svc.next refl in
      let kept =
        (connect-IsSame r domain_counter_key address attempt s counter-IsElsewhere).count in
      if_elim (λ (o : Outcome r). o.reply ≡ connected (at x) → IsEntered svc o x × (y ≡ x))
        (connect r address attempt s).1
        (λ works h. (
          record {
            counted = kept ∙ (c ∙ same_number x y h);
            open_client = rw self refl;
            has_handler = rw self refl;
            has_relay = rw self refl;
            others = λ m ne. rw (ne→== m svc.next ne) refl;
            following = refl;
          },
          same_number x y h,
        ))
        (λ fails h. absurd (no_error h))

  connect-IsEntered :
      (svc : RtspClientService) (id address : List ℕ) (attempt : Attempt) (s : r.Store) (x : ℤ)
      → let o = connect_rtsp_client r svc id address true attempt s in
        o.reply ≡ connected (at x) → IsEntered svc o x × (x ≡ inc (counter s))
  unfolding connect_rtsp_client relay_address counter
  connect-IsEntered svc id address attempt s x =
      go (set_rtsp_connection r s id svc.node_id) (count-set_rtsp_connection r s id svc.node_id)
    where
      go :
          (p : r.Store × Bool)
          → r.count p.0 domain_counter_key ≡ r.count s domain_counter_key
          → (locked r svc id address true attempt p).reply ≡ connected (at x)
          → IsEntered svc (locked r svc id address true attempt p) x
            × (x ≡ inc (r.count s domain_counter_key))
      go (t, false) kept h = absurd (unequal h)
      go (t, true) kept h =
          let (number, counted) = r.incr_lem t domain_counter_key in
          let (entered, same) =
            try-IsEntered svc id address attempt (r.incr t domain_counter_key).0 x
              (r.incr t domain_counter_key).1 (counted ∙ sym number) h in
          (entered, sym same ∙ (number ∙ ap inc kept))

  -- The end of a client with a relay takes one off the counter.
  counter-close :
      (svc : RtspClientService) (n : ℕ) (s : r.Store)
      → (svc.objects n).closed ≡ false
      → (svc.objects n).on_close ≡ true
      → (svc.objects n).enable_rtsp_relay ≡ true
      → counter (close r svc n s).1 ≡ dec (counter s)
  unfolding close run_on_close counter
  counter-close svc n s live handler relay =
      let key =
        build_rtsp_connection_set_key
          (build_keep_alive_service_key service_controller svc.node_id) in
      rw (live, handler, relay)
        (r.decr_lem (r.del s key) domain_counter_key
          ∙ ap dec (
              r.count-del s key domain_counter_key
                (counter-lock_set (build_keep_alive_service_key service_controller svc.node_id))))

  -- Two cameras are connected with a relay, one after the other; the first is closed, and then a
  -- third is connected with a relay. The third gets the address that the second still has.
  pub relay_reused :
      (svc : RtspClientService) (s : r.Store) (a a_address b b_address c c_address : List ℕ)
      (first second third : Attempt) (x y z : ℤ)
      → let o = connect_rtsp_client r svc a a_address true first s in
        let p = connect_rtsp_client r o.service b b_address true second o.store in
        let (ended, t) = close r p.service svc.next p.store in
        let q = connect_rtsp_client r ended c c_address true third t in
        o.reply ≡ connected (at x) → p.reply ≡ connected (at y) → q.reply ≡ connected (at z) → z ≡ y
  unfolding counter
  relay_reused svc s a a_address b b_address c c_address first second third x y z got_x got_y
        got_z =
      let o = connect_rtsp_client r svc a a_address true first s in
      let p = connect_rtsp_client r o.service b b_address true second o.store in
      let t = (close r p.service svc.next p.store).1 in
      let ended = (close r p.service svc.next p.store).0 in
      let (e, _) = connect-IsEntered svc a a_address first s x got_x in
      let (f, y_is) = connect-IsEntered o.service b b_address second o.store y got_y in
      let (_, z_is) = connect-IsEntered ended c c_address third t z got_z in
      let other : svc.next ≢ o.service.next = λ h. omega (arith, h, e.following) in
      let old = f.others svc.next other in
      let closing =
        counter-close p.service svc.next p.store (ap (λ d. d.closed) old ∙ e.open_client)
          (ap (λ d. d.on_close) old ∙ e.has_handler)
          (ap (λ d. d.enable_rtsp_relay) old ∙ e.has_relay) in
      let back : counter t ≡ x =
        closing ∙ (ap dec (f.counted ∙ (y_is ∙ ap inc e.counted)) ∙ dec-inc x) in
      z_is ∙ (ap inc back ∙ (ap inc (sym e.counted) ∙ sym y_is))
