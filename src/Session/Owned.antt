-- ===== src/Session/Owned.antt =====
-- The owners of the tracks in a session, where the identifiers of a track are of one publisher.
use sample_nodejs_server.Prelude.{
  ℕ, ◌≡◌, refl, sym, ap, ◌∙◌, Bool, true, false, not, ◌&&◌, ◌||◌, List, [], ◌∷◌, ◌++◌, map, arith,
  ◌==◌, if◌then◌else◌, if_elim, Bool-cases, inl, inr,
}
use mathlib.Core.Path.{ap₂}
use sample_nodejs_server.SortedSlice.Slices.{All}
use sample_nodejs_server.Session.{
  Track, Peer, SessionLocal, same_track, has_track, has_track_id, receivers_of, without_id,
  add_down_track, add_each, add_down_tracks, publish_to, subscribe, join, add_receiver, on_track,
  without, unpublished, close_receivers,
}
use sample_nodejs_server.Session.Added.{Covers}
use sample_nodejs_server.Session.Served.{IsServed, IsMesh, all, mapped, All-without_id}

-- A down track of this receiver, and not only of one with the same identifiers.
abbrev pub has_receiver : List Track → Track → Bool
has_receiver [] t = false
has_receiver (s ∷ l) t = (s.owner == t.owner && same_track s t) || has_receiver l t

All-append :
    (P : Track → Type 0) (l : List Track) (t : Track) → All P l → P t → All P (l ++ (t ∷ []))
All-append P [] t a p = (p, tt)
All-append P (x ∷ l) t a p = (a.0, All-append P l t a.1 p)

-- None of those that are taken out is there.
pub gone-without :
    (gone : Track → Bool) (l : List Track) → All (λ t. gone t ≡ false) (without gone l)
gone-without gone [] = tt
gone-without gone (t ∷ l) =
    let rest = gone-without gone l in
    if_elim (All (λ u. gone u ≡ false)) (gone t) (λ _. rest) (λ stays. (stays, rest))

module _ (owner_of : ℕ → ℕ → ℕ) where
  -- The owner of the track is the publisher that has its identifiers.
  abbrev pub IsOwn : Track → Type 0
  IsOwn t = owner_of t.stream_id t.track_id ≡ t.owner

  pub record IsOwned (p : Peer) : Type 0 where
    pub receivers : All IsOwn p.receivers
    pub tracks : All IsOwn p.tracks

  same_ids :
      (s t : Track)
      → same_track s t ≡ true
      → (s.stream_id ≡ t.stream_id) × (s.track_id ≡ t.track_id)
  same_ids s t h = ground (arith, h)

  same_owner : (s t : Track) → IsOwn s → IsOwn t → same_track s t ≡ true → s.owner ≡ t.owner
  same_owner s t own own' h = let (e, f) = same_ids s t h in sym own ∙ (ap₂ owner_of e f ∙ own')

  same_whole : (s t : Track) → IsOwn s → IsOwn t → same_track s t ≡ true → s ≡ t
  same_whole s t own own' h =
      let (e, f) = same_ids s t h in
      ap₂ (λ x y. let z : Track = record { owner = s.owner; stream_id = x; track_id = y } in z) e f
      ∙ ap
          (λ x.
            let z : Track = record { owner = x; stream_id = t.stream_id; track_id = t.track_id } in
            z)
          (same_owner s t own own' h)

  pub has_receiver-has :
      (l : List Track) (t : Track)
      → All IsOwn l
      → IsOwn t
      → has_track l t ≡ true
      → has_receiver l t ≡ true
  has_receiver-has [] t owned own h = h
  has_receiver-has (s ∷ l) t owned own h = elim (Bool-cases (same_track s t)) [
    | inl same ↦ let e = same_owner s t owned.0 own same in ground (arith, same, e)
    | inr other ↦
        let rest = has_receiver-has l t owned.1 own (ground (arith, h, other)) in
        ground (arith, rest)
  ]

  -- Which tracks are taken out depends on the track.
  module _ (gone : Track → Bool) where
    has_track-without :
        (l : List Track) (t : Track)
        → All IsOwn l
        → IsOwn t
        → gone t ≡ false
        → has_track l t ≡ true
        → has_track (without gone l) t ≡ true
    has_track-without [] t owned own stays h = h
    has_track-without (s ∷ l) t owned own stays h =
        let rest : same_track s t ≡ false → has_track (without gone l) t ≡ true =
          λ other. has_track-without l t owned.1 own stays (ground (arith, h, other)) in
        elim (Bool-cases (same_track s t)) [
          | inl same ↦
              let stays_too : gone s ≡ false = ap gone (same_whole s t owned.0 own same) ∙ stays in
              rw stays_too (rw same refl)
          | inr other ↦
              if_elim (λ k. has_track k t ≡ true) (gone s) (λ _. rest other)
                (λ _. rw other (rest other))
        ]

    Covers-without :
        (l receivers : List Track)
        → All IsOwn l
        → All IsOwn receivers
        → Covers l receivers
        → Covers (without gone l) (without gone receivers)
    Covers-without l [] owned own c = tt
    Covers-without l (t ∷ ts) owned own c =
        let rest = Covers-without l ts owned own.1 c.1 in
        if_elim (Covers (without gone l)) (gone t) (λ _. rest)
          (λ stays. (has_track-without l t owned own.0 stays c.0, rest))

    All-without : (P : Track → Type 0) (l : List Track) → All P l → All P (without gone l)
    All-without P [] a = tt
    All-without P (t ∷ l) a =
        let rest = All-without P l a.1 in if_elim (All P) (gone t) (λ _. rest) (λ _. (a.0, rest))

    unpublished-IsOwned : (p : Peer) → IsOwned p → IsOwned (unpublished gone p)
    unpublished-IsOwned p o = record {
      receivers = All-without IsOwn p.receivers o.receivers;
      tracks = All-without IsOwn p.tracks o.tracks;
    }

    pub close_receivers-IsOwned :
        (s : SessionLocal) → All IsOwned s.peers → All IsOwned (close_receivers gone s).peers
    unfolding close_receivers
    close_receivers-IsOwned s o =
        mapped IsOwned (unpublished gone) s.peers (all (λ p h. unpublished-IsOwned p h) s.peers o)

    with_owned :
        {P Q : Peer → Type 0} (l : List Peer)
        → ((p : Peer) → IsOwned p → P p → Q p)
        → All IsOwned l
        → All P l
        → All Q l
    with_owned [] f o a = tt
    with_owned (p ∷ ps) f o a = (f p o.0 a.0, with_owned ps f o.1 a.1)

    unpublished_serves :
        (p q : Peer)
        → IsOwned p
        → IsOwned q
        → IsServed p q
        → IsServed (unpublished gone p) (unpublished gone q)
    unpublished_serves p q op oq s = record {
      served = λ ne publishes want.
          Covers-without q.tracks p.receivers oq.tracks op.receivers (s.served ne publishes want);
    }

    pub close_receivers-IsMesh :
        (s : SessionLocal)
        → All IsOwned s.peers
        → IsMesh s.peers
        → IsMesh (close_receivers gone s).peers
    unfolding close_receivers
    close_receivers-IsMesh s o m =
        mapped (λ p. All (IsServed p) (map (unpublished gone) s.peers)) (unpublished gone) s.peers
          (with_owned s.peers
            (λ p op a.
              mapped (IsServed (unpublished gone p)) (unpublished gone) s.peers
                (with_owned s.peers (λ q oq h. unpublished_serves p q op oq h) o a))
            o m)

  -- The operations keep the owners.
  module _ (accepts : ℕ → Track → Bool) where
    add_down_track-IsOwned :
        (p : Peer) (t : Track) → IsOwned p → IsOwn t → IsOwned (add_down_track accepts p t).0
    unfolding add_down_track
    add_down_track-IsOwned p t o own =
        if_elim (λ (r : Peer × Bool). IsOwned r.0) (has_track p.tracks t) (λ _. o)
          (λ _.
            if_elim (λ (r : Peer × Bool). IsOwned r.0) (accepts p.id t)
              (λ _. record {
                receivers = o.receivers;
                tracks = All-append IsOwn p.tracks t o.tracks own;
              })
              (λ _. o))

    add_each-IsOwned :
        (r : Peer × Bool) (l : List Track)
        → IsOwned r.0
        → All IsOwn l
        → IsOwned (add_each accepts r l)
    unfolding add_each
    add_each-IsOwned (p, ok) [] o own = o
    add_each-IsOwned (p, false) (t ∷ l) o own = o
    add_each-IsOwned (p, true) (t ∷ l) o own =
        add_each-IsOwned (add_down_track accepts p t) l (add_down_track-IsOwned p t o own.0) own.1

    add_down_tracks-IsOwned :
        (p : Peer) (l : List Track)
        → IsOwned p
        → All IsOwn l
        → IsOwned (add_down_tracks accepts p l)
    unfolding add_down_tracks
    add_down_tracks-IsOwned p l o own =
        if_elim IsOwned p.no_auto_subscribe (λ _. o) (λ _. add_each-IsOwned (p, true) l o own)

    subscribe-IsOwned :
        (p : Peer) (ps : List Peer) → IsOwned p → All IsOwned ps → IsOwned (subscribe accepts p ps)
    unfolding subscribe
    subscribe-IsOwned p [] o a = o
    subscribe-IsOwned p (x ∷ ps) o a =
        subscribe-IsOwned (if x.publisher then add_down_tracks accepts p x.receivers else p) ps
          (if_elim IsOwned x.publisher
            (λ _. add_down_tracks-IsOwned p x.receivers o (a.0).receivers) (λ _. o))
          a.1

    pub join-IsOwned :
        (s : SessionLocal) (p : Peer)
        → IsOwned p
        → All IsOwned s.peers
        → All IsOwned (join accepts s p).peers
    unfolding join
    join-IsOwned s p o a =
        let others = All-without_id IsOwned p.id s.peers a in
        (
          if_elim IsOwned p.subscriber (λ _. subscribe-IsOwned p (without_id p.id s.peers) o others)
              (λ _. o),
          others,
        )

    pub on_track-IsOwned :
        (s : SessionLocal) (id : ℕ) (t : Track)
        → IsOwn t
        → All IsOwned s.peers
        → All IsOwned (on_track accepts s id t).peers
    unfolding on_track publish_to
    on_track-IsOwned s id t own a =
        if_elim (λ (z : SessionLocal). All IsOwned z.peers)
          (has_track_id (receivers_of id t.owner s.peers) t.track_id) (λ _. a)
          (λ _.
            mapped IsOwned (λ p. publish_to accepts id t (add_receiver id t p)) s.peers
              (all (λ p o. sent (add_receiver id t p) (received p o)) s.peers a))
      where
        received : (p : Peer) → IsOwned p → IsOwned (add_receiver id t p)
        received p o =
            if_elim IsOwned (p.id == id && p.object == t.owner)
              (λ _. record {
                receivers = All-append IsOwn p.receivers t o.receivers own;
                tracks = o.tracks;
              })
              (λ _. o)

        sent : (p : Peer) → IsOwned p → IsOwned (publish_to accepts id t p)
        sent p o =
            if_elim IsOwned (id == p.id || not p.subscriber) (λ _. o)
              (λ _. add_down_tracks-IsOwned p (t ∷ []) o (own, tt))
