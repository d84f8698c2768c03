-- ===== src/Session/Mesh.antt =====
-- Sequences of joins, new tracks and departures, and who has which tracks after them.
use sample_nodejs_server.Prelude.{
  ℕ, ◌+◌, ◌≡◌, ◌≢◌, refl, Bool, true, false, ◌&&◌, List, [], ◌∷◌, ◌==◌, if_elim, length, map,
}
use sample_nodejs_server.SortedSlice.Slices.{All}
use sample_nodejs_server.Session.{
  Track, Peer, SessionLocal, has_track, without_object, join, on_track, close, remove_peer,
  unpublished, close_receivers, end_track, leave,
}
use sample_nodejs_server.Session.Added.{wants}
use sample_nodejs_server.Session.Owned.{
  IsOwn, IsOwned, has_receiver, has_receiver-has, gone-without, close_receivers-IsOwned,
  close_receivers-IsMesh, join-IsOwned, on_track-IsOwned,
}
use sample_nodejs_server.Session.Served.{IsMesh, IsServed, all, IsMesh-join, IsMesh-on_track}

All-without_object :
    (P : Peer → Type 0) (id object : ℕ) (ps : List Peer)
    → All P ps
    → All P (without_object id object ps)
All-without_object P id object [] a = tt
All-without_object P id object (p ∷ ps) a =
    if_elim (All P) (p.id == id && p.object == object) (λ _. All-without_object P id object ps a.1)
      (λ _. (a.0, All-without_object P id object ps a.1))

-- A peer that leaves, and its session, which is closed when nobody is left.
peers-remove_peer :
    (s : SessionLocal) (id object : ℕ)
    → (remove_peer s id object).peers ≡ without_object id object s.peers
unfolding remove_peer close
peers-remove_peer s id object =
    let left : SessionLocal = record s { peers = without_object id object s.peers } in
    if_elim (λ (z : SessionLocal). z.peers ≡ without_object id object s.peers)
      (length left.peers + length left.relay_peers == 0)
      (λ _.
        if_elim (λ (z : SessionLocal). z.peers ≡ without_object id object s.peers) s.closed
          (λ _. refl) (λ _. refl))
      (λ _. refl)

-- What happens to a session: a peer joins, a publisher gets a track, one of its tracks ends, a peer
-- leaves.
pub data Event : Type 0 where
  joins : ℕ → ℕ → Bool → Bool → Bool → Event
  sends : ℕ → Track → Event
  ends : ℕ → ℕ → Event
  leaves : ℕ → ℕ → Event

abbrev pub new_peer : ℕ → ℕ → Bool → Bool → Bool → Peer
new_peer object id publisher subscriber no_auto_subscribe = record {
  object = object;
  id = id;
  publisher = publisher;
  receivers = [];
  subscriber = subscriber;
  no_auto_subscribe = no_auto_subscribe;
  tracks = [];
}

abbrev pub new_session : SessionLocal
new_session = record { peers = []; relay_peers = []; closed = false; closings = 0 }

abbrev pub happens : (ℕ → Track → Bool) → SessionLocal → Event → SessionLocal
happens accepts s (joins object id publisher subscriber no_auto_subscribe) =
    join accepts s (new_peer object id publisher subscriber no_auto_subscribe)
happens accepts s (sends id t) = on_track accepts s id t
happens accepts s (ends object track_id) = end_track s object track_id
happens accepts s (leaves id object) = leave s id object

abbrev pub run : (ℕ → Track → Bool) → SessionLocal → List Event → SessionLocal
run accepts s [] = s
run accepts s (e ∷ es) = run accepts (happens accepts s e) es

-- The identifiers of the tracks that come are of one publisher each.
abbrev pub IsPublished : (ℕ → ℕ → ℕ) → Event → Type 0
IsPublished owner_of (joins _ _ _ _ _) = Unit
IsPublished owner_of (sends id t) = IsOwn owner_of t
IsPublished owner_of (ends _ _) = Unit
IsPublished owner_of (leaves _ _) = Unit

-- If a peer wants tracks and another one publishes, it has a down track of each of its receivers.
pub record IsSupplied (p q : Peer) : Type 0 where
  pub supplied :
      p.id ≢ q.id
      → p.publisher ≡ true
      → wants q ≡ true
      → All (λ t. has_receiver q.tracks t ≡ true) p.receivers

-- Every peer that wants tracks has a down track of every receiver of every other peer.
abbrev pub IsFullMesh : List Peer → Type 0
IsFullMesh ps = All (λ p. All (IsSupplied p) ps) ps

-- No peer has a down track of this publisher.
abbrev pub IsFreeOf : ℕ → List Peer → Type 0
IsFreeOf object ps =
    All (λ (p : Peer). All (λ (t : Track). (t.owner == object) ≡ false) p.tracks) ps

All-with :
    {A : Type 0} (P Q : A → Type 0) (R : A → Type 0) (l : List A)
    → ((x : A) → P x → Q x → R x)
    → All P l
    → All Q l
    → All R l
All-with P Q R [] f a b = tt
All-with P Q R (x ∷ l) f a b = (f x a.0 b.0, All-with P Q R l f a.1 b.1)

left_free : (s : SessionLocal) (id object : ℕ) → IsFreeOf object (leave s id object).peers
unfolding leave close_receivers
left_free s id object = each (remove_peer s id object).peers
  where
    each : (ps : List Peer) → IsFreeOf object (map (unpublished (λ t. t.owner == object)) ps)
    each [] = tt
    each (p ∷ ps) = (gone-without (λ t. t.owner == object) p.tracks, each ps)

module _ (owner_of : ℕ → ℕ → ℕ) (accepts : ℕ → Track → Bool)
    (takes_all : (id : ℕ) (t : Track) → accepts id t ≡ true) where
  -- The peers of a session in the middle of events.
  record IsFine (s : SessionLocal) : Type 0 where
    mesh : IsMesh s.peers
    owned : All (IsOwned owner_of) s.peers

  IsFine-remove_peer :
      (s : SessionLocal) (id object : ℕ) → IsFine s → IsFine (remove_peer s id object)
  IsFine-remove_peer s id object v = record {
    mesh = rw (peers-remove_peer s id object) (
        All-without_object (λ p. All (IsServed p) (without_object id object s.peers)) id object
          s.peers
          (all (λ p a. All-without_object (IsServed p) id object s.peers a) s.peers v.mesh));
    owned =
        rw (peers-remove_peer s id object)
          (All-without_object (IsOwned owner_of) id object s.peers v.owned);
  }

  IsFine-close_receivers :
      (gone : Track → Bool) (s : SessionLocal) → IsFine s → IsFine (close_receivers gone s)
  IsFine-close_receivers gone s v = record {
    mesh = close_receivers-IsMesh owner_of gone s v.owned v.mesh;
    owned = close_receivers-IsOwned owner_of gone s v.owned;
  }

  happens-IsFine :
      (s : SessionLocal) (e : Event)
      → IsPublished owner_of e
      → IsFine s
      → IsFine (happens accepts s e)
  unfolding leave end_track
  happens-IsFine s (joins object id publisher subscriber no_auto_subscribe) own v =
      let p = new_peer object id publisher subscriber no_auto_subscribe in
      record {
        mesh = IsMesh-join accepts takes_all s p refl v.mesh;
        owned = join-IsOwned owner_of accepts s p (record { receivers = tt; tracks = tt }) v.owned;
      }
  happens-IsFine s (sends id t) own v = record {
    mesh = IsMesh-on_track accepts takes_all s id t v.mesh;
    owned = on_track-IsOwned owner_of accepts s id t own v.owned;
  }
  happens-IsFine s (ends object track_id) own v =
      IsFine-close_receivers (λ t. t.owner == object && t.track_id == track_id) s v
  happens-IsFine s (leaves id object) own v =
      IsFine-close_receivers (λ t. t.owner == object) (remove_peer s id object)
        (IsFine-remove_peer s id object v)

  run-IsFine :
      (s : SessionLocal) (es : List Event)
      → All (IsPublished owner_of) es
      → IsFine s
      → IsFine (run accepts s es)
  run-IsFine s [] own v = v
  run-IsFine s (e ∷ es) own v =
      run-IsFine (happens accepts s e) es own.1 (happens-IsFine s e own.0 v)

  supplies : (p q : Peer) → IsOwned owner_of p → IsOwned owner_of q → IsServed p q → IsSupplied p q
  supplies p q op oq s = record {
    supplied = λ ne publishes want.
        All-with (IsOwn owner_of) (λ t. has_track q.tracks t ≡ true)
          (λ t. has_receiver q.tracks t ≡ true) p.receivers
          (λ t own has. has_receiver-has owner_of q.tracks t oq.tracks own has) op.receivers
          (s.served ne publishes want);
  }

  IsFine-IsFullMesh : (s : SessionLocal) → IsFine s → IsFullMesh s.peers
  IsFine-IsFullMesh s v =
      All-with (IsOwned owner_of) (λ p. All (IsServed p) s.peers) (λ p. All (IsSupplied p) s.peers)
        s.peers
        (λ p op a.
          All-with (IsOwned owner_of) (IsServed p) (IsSupplied p) s.peers
            (λ q oq h. supplies p q op oq h) v.owned a)
        v.owned v.mesh

  -- Peers join a new session, get tracks to publish, stop tracks and leave, in any order, WebRTC takes
  -- every track for every peer, and each pair of identifiers of a stream and a track belongs to one
  -- publisher. Then every peer that wants tracks has a down track of every receiver of every other
  -- peer that publishes; and when a publisher leaves next, no peer keeps a down track of it.
  pub run-IsFullMesh :
      (es : List Event) (id object : ℕ)
      → All (IsPublished owner_of) es
      → let s = run accepts new_session es in
        IsFullMesh s.peers × IsFreeOf object (happens accepts s (leaves id object)).peers
  run-IsFullMesh es id object own =
      let s = run accepts new_session es in
      (
        IsFine-IsFullMesh s (run-IsFine new_session es own (record { mesh = tt; owned = tt })),
        left_free s id object,
      )
