-- ===== src/Rtsp/Events.antt =====
-- A disconnection releases the lock at once and ends the client when its event comes back. What
-- happens when the camera is connected in between.
use sample_nodejs_server.Prelude.{
  ℕ, ◌≡◌, ◌≢◌, refl, ap, ◌∙◌, Bool, true, false, List, some, none, if_elim, ◌==◌, eq→==, ne→==,
}
use sample_nodejs_server.Prelude.Strings.{same_text_refl}
use sample_nodejs_server.Redis.{Redis}
use sample_nodejs_server.Node.Rooms.{set_rtsp_connection}
use sample_nodejs_server.Rtsp.Service.{
  Relay, disabled, at, RtspClientService, Attempt, connected, new_client, made, Outcome, connect,
  close, enter, try, locked, connect_rtsp_client, disconnect_rtsp_client,
  internal_disconnect_rtsp_client, domain_counter_key,
}
use sample_nodejs_server.Rtsp.Locks.{no_client}

module _ (r : Redis) where
  -- The attempt put its client, which is open, in the map.
  record IsHere (svc : RtspClientService) (id : List ℕ) (o : Outcome r) : Type 0 where
    mapped : o.service.clients id ≡ some svc.next
    is_open : (o.service.objects svc.next).closed ≡ false
    others : (m : ℕ) → m ≢ svc.next → o.service.objects m ≡ svc.objects m

  try-IsHere :
      (svc : RtspClientService) (id address : List ℕ) (relay y : Relay) (enable : Bool)
      (attempt : Attempt) (s : r.Store)
      → let o = try r svc id address relay enable attempt s in
        o.reply ≡ connected y → IsHere svc id o
  unfolding try enter
  try-IsHere svc id address relay y enable attempt s =
      let self : (svc.next == svc.next) ≡ true = eq→== svc.next svc.next refl in
      if_elim (λ (o : Outcome r). o.reply ≡ connected y → IsHere svc id o)
        (connect r address attempt s).1
        (λ works h. record {
          mapped = rw (same_text_refl id) refl;
          is_open = rw self refl;
          others = λ m ne. rw (ne→== m svc.next ne) refl;
        })
        (λ fails h. absurd (
          no_client r (made svc (new_client id address relay enable)) svc.next address
            (connect r address attempt s).0 y h))

  connect-IsHere :
      (svc : RtspClientService) (id address : List ℕ) (relay : Bool) (attempt : Attempt)
      (s : r.Store) (y : Relay)
      → let o = connect_rtsp_client r svc id address relay attempt s in
        o.reply ≡ connected y → IsHere svc id o
  unfolding connect_rtsp_client
  connect-IsHere svc id address relay attempt s y =
      go relay (set_rtsp_connection r s id svc.node_id)
    where
      go :
          (relay : Bool) (p : r.Store × Bool)
          → (locked r svc id address relay attempt p).reply ≡ connected y
          → IsHere svc id (locked r svc id address relay attempt p)
      go relay (t, false) h = cc
      go true (t, true) h =
          let (u, number) = r.incr t domain_counter_key in
          try-IsHere svc id address (at number) y true attempt u h
      go false (t, true) h = try-IsHere svc id address disabled y false attempt t h

  closes :
      (svc : RtspClientService) (n : ℕ) (s : r.Store)
      → ((close r svc n s).0.objects n).closed ≡ true
  unfolding close
  closes svc n s =
      if_elim (λ (p : RtspClientService × r.Store). (p.0.objects n).closed ≡ true)
        (svc.objects n).closed (λ old. old) (λ _. rw (eq→== n n refl) refl)

  close_only :
      (svc : RtspClientService) (n m : ℕ) (s : r.Store)
      → m ≢ n
      → (close r svc n s).0.objects m ≡ svc.objects m
  unfolding close
  close_only svc n m s ne =
      if_elim (λ (p : RtspClientService × r.Store). p.0.objects m ≡ svc.objects m)
        (svc.objects n).closed (λ _. refl) (λ _. rw (ne→== m n ne) refl)

  -- A second `Close` does nothing more.
  pub close_twice :
      (svc : RtspClientService) (n : ℕ) (s : r.Store)
      → let (ended, t) = close r svc n s in close r ended n t ≡ (ended, t)
  unfolding close
  close_twice svc n s =
      let (ended, t) = close r svc n s in
      if_elim (λ (p : RtspClientService × r.Store). p ≡ (ended, t)) (ended.objects n).closed
        (λ _. refl) (λ live. absurd (clash (closes svc n s) live))
    where
      clash : {b : Bool} → b ≡ true → ¬ (b ≡ false)
      clash x y = cc

  -- A camera that has a client is disconnected and connected again, and only then does the event of
  -- the disconnection arrive. It closes the new client, and takes the camera out of the map; the
  -- old client, which the map no longer has, stays open.
  pub stale_event :
      (svc : RtspClientService) (id address : List ℕ) (relay : Bool) (attempt : Attempt)
      (s : r.Store) (old : ℕ) (y : Relay)
      → svc.clients id ≡ some old
      → old ≢ svc.next
      → (svc.objects old).closed ≡ false
      → let (left, t) = disconnect_rtsp_client r svc id address s in
        let o = connect_rtsp_client r left id address relay attempt t in
        let (last, _) = internal_disconnect_rtsp_client r o.service id o.store in
        o.reply ≡ connected y
        → ((last.objects svc.next).closed ≡ true)
          × (((last.objects old).closed ≡ false) × (last.clients id ≡ none))
  unfolding internal_disconnect_rtsp_client disconnect_rtsp_client
  stale_event svc id address relay attempt s old y has ne live h =
      let (left, t) = disconnect_rtsp_client r svc id address s in
      let o = connect_rtsp_client r left id address relay attempt t in
      let e = connect-IsHere left id address relay attempt t y h in
      rw (e.mapped) (
        closes o.service svc.next o.store,
        (
          ap (λ c. c.closed) (close_only o.service svc.next old o.store ne ∙ e.others old ne)
              ∙ live,
          rw (same_text_refl id) refl,
        ),
      )
