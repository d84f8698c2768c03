-- ===== src/Session.antt =====
-- ion-sfu/pkg/sfu/session.go with `PeerLocal.Join` and `PeerLocal.Close`, and what router.go and
-- subscriber.go do for them: which peers of a session get which tracks. Identifiers are numbers, and so is a pointer to a peer,
-- `object`. Whether WebRTC takes a track for a peer is a parameter. Data channels are left out.
pub mod Added
pub mod Served
pub mod Owned
pub mod Mesh
mod Tests
use sample_nodejs_server.Prelude.{
  ℕ, ◌+◌, Bool, true, false, not, ◌&&◌, ◌||◌, List, [], ◌∷◌, ◌++◌, Option, none, some, map, ◌==◌,
  if◌then◌else◌, length,
}

-- A receiver of the publisher of the peer `owner`, with the identifiers of its track; and a down
-- track of it.
pub record Track : Type 0 where
  pub owner : ℕ
  pub stream_id : ℕ
  pub track_id : ℕ

-- A peer with its publisher's router and its subscriber.
pub record Peer : Type 0 where
  pub object : ℕ
  pub id : ℕ
  pub publisher : Bool
  pub receivers : List Track
  pub subscriber : Bool
  pub no_auto_subscribe : Bool
  pub tracks : List Track

pub record SessionLocal : Type 0 where
  pub peers : List Peer
  pub relay_peers : List ℕ
  pub closed : Bool
  pub closings : ℕ  -- calls of the handler

-- What `AddDownTrack` compares: the identifiers.
abbrev pub same_track : Track → Track → Bool
same_track s t = s.stream_id == t.stream_id && s.track_id == t.track_id

abbrev pub has_track : List Track → Track → Bool
has_track [] t = false
has_track (s ∷ l) t = same_track s t || has_track l t

abbrev pub has_track_id : List Track → ℕ → Bool
has_track_id [] id = false
has_track_id (s ∷ l) id = s.track_id == id || has_track_id l id

abbrev pub receivers_of : ℕ → ℕ → List Peer → List Track
receivers_of id object [] = []
receivers_of id object (p ∷ ps) =
    let rest = receivers_of id object ps in
    if p.id == id && p.object == object then p.receivers else rest

abbrev pub without_id : ℕ → List Peer → List Peer
without_id id [] = []
without_id id (p ∷ ps) = let rest = without_id id ps in if p.id == id then rest else p ∷ rest

abbrev pub without_object : ℕ → ℕ → List Peer → List Peer
without_object id object [] = []
without_object id object (p ∷ ps) =
    let rest = without_object id object ps in
    if p.id == id && p.object == object then rest else p ∷ rest

-- The router of the peer gets the receiver.
abbrev pub add_receiver : ℕ → Track → Peer → Peer
add_receiver id track p =
    if p.id == id && p.object == track.owner
    then record p { receivers = p.receivers ++ (track ∷ []) }
    else p

-- `accepts` tells whether the codec is registered and the transceiver is made.
module _ (accepts : ℕ → Track → Bool) where
  -- `router.AddDownTrack`, with the error as false.
  unfoldable pub add_down_track : Peer → Track → Peer × Bool
  add_down_track sub recv =
      if has_track sub.tracks recv
      then (sub, true)
      else if accepts sub.id recv
      then (record sub { tracks = sub.tracks ++ (recv ∷ []) }, true)
      else (sub, false)

  -- The loop of `AddDownTracks`, which ends at an error.
  unfoldable pub add_each : Peer × Bool → List Track → Peer
  unfolding add_down_track
  add_each (sub, ok) [] = sub
  add_each (sub, false) (recv ∷ receivers) = sub
  add_each (sub, true) (recv ∷ receivers) = add_each (add_down_track sub recv) receivers

  unfoldable pub add_down_tracks : Peer → List Track → Peer
  unfolding add_each
  add_down_tracks sub receivers =
      if sub.no_auto_subscribe then sub else add_each (sub, true) receivers

  -- A peer in the loop of `Publish`, for a router and its receiver.
  unfoldable pub publish_to : ℕ → Track → Peer → Peer
  unfolding add_down_tracks
  publish_to router_id recv p =
      if router_id == p.id || not p.subscriber then p else add_down_tracks p (recv ∷ [])

  -- The loop of `Subscribe` over the other peers.
  unfoldable pub subscribe : Peer → List Peer → Peer
  unfolding add_down_tracks
  subscribe peer [] = peer
  subscribe peer (p ∷ ps) =
      subscribe (if p.publisher then add_down_tracks peer p.receivers else peer) ps

  -- `Join`, from `AddPeer` on.
  unfoldable pub join : SessionLocal → Peer → SessionLocal
  unfolding subscribe
  join s peer =
      let others = without_id peer.id s.peers in
      record s { peers = (if peer.subscriber then subscribe peer others else peer) ∷ others }

  -- `OnTrack` of a publisher: `AddReceiver`, and `Publish` if the receiver is new.
  unfoldable pub on_track : SessionLocal → ℕ → Track → SessionLocal
  unfolding publish_to
  on_track s id track =
      if has_track_id (receivers_of id track.owner s.peers) track.track_id
      then s
      else record s { peers = map (λ p. publish_to id track (add_receiver id track p)) s.peers }

unfoldable pub close : SessionLocal → SessionLocal
close s = if s.closed then s else record s { closed = true; closings = s.closings + 1 }

unfoldable pub remove_peer : SessionLocal → ℕ → ℕ → SessionLocal
unfolding close
remove_peer s id object =
    let left = record s { peers = without_object id object s.peers } in
    if length left.peers + length left.relay_peers == 0 then close left else left

abbrev pub without : (Track → Bool) → List Track → List Track
without gone [] = []
without gone (t ∷ l) = let rest = without gone l in if gone t then rest else t ∷ rest

abbrev pub unpublished : (Track → Bool) → Peer → Peer
unpublished gone p = record p {
  receivers = without gone p.receivers;
  tracks = without gone p.tracks;
}

-- Receivers end: `deleteReceiver` takes them out of their router, and the handlers of their down
-- tracks take these out of the subscribers, with `RemoveTrack` of WebRTC taken to succeed. The order
-- of the down tracks that stay is not kept as in `RemoveDownTrack`.
unfoldable pub close_receivers : (Track → Bool) → SessionLocal → SessionLocal
close_receivers gone s = record s { peers = map (unpublished gone) s.peers }

-- A track of a publisher ends.
unfoldable pub end_track : SessionLocal → ℕ → ℕ → SessionLocal
unfolding close_receivers
end_track s object track_id = close_receivers (λ t. t.owner == object && t.track_id == track_id) s

-- `PeerLocal.Close`: `RemovePeer`, and then the publisher's connection is closed, with which all its
-- receivers end. A peer that is closed already, for which the code does nothing, is in no list.
unfoldable pub leave : SessionLocal → ℕ → ℕ → SessionLocal
unfolding close_receivers remove_peer
leave s id object = close_receivers (λ t. t.owner == object) (remove_peer s id object)
