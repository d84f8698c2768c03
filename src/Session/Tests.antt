-- ===== src/Session/Tests.antt =====
-- The theorem at three peers, and runs.
use sample_nodejs_server.Prelude.{
  ℕ, ◌≡◌, refl, Bool, true, false, List, [], ◌∷◌, ◌==◌, if◌then◌else◌,
}
use sample_nodejs_server.Session.{
  Track, Peer, SessionLocal, add_down_track, add_each, add_down_tracks, publish_to, subscribe, join,
  on_track, close, remove_peer, close_receivers, leave,
}
use sample_nodejs_server.Session.Mesh.{IsFullMesh, IsFreeOf, happens}
use sample_nodejs_server.Session.Mesh.{
  Event, joins, sends, leaves, new_session, run, run-IsFullMesh,
}

abbrev every : ℕ → Track → Bool
every id t = true

abbrev video : Track
video = record { owner = 0; stream_id = 5; track_id = 6 }

abbrev other_video : Track
other_video = record { owner = 1; stream_id = 7; track_id = 8 }

-- The second peer joins after the first has a track, and the third subscribes only.
abbrev events : List Event
events =
    joins 0 1 true true false
    ∷ (sends 1 video
        ∷ (joins 1 2 true true false ∷ (joins 2 3 false true false ∷ (sends 2 other_video ∷ []))))

run-IsFullMesh_example :
    IsFullMesh (run every new_session events).peers
    × IsFreeOf 0 (happens every (run every new_session events) (leaves 1 0)).peers
run-IsFullMesh_example =
    run-IsFullMesh (λ stream_id track_id. if stream_id == 5 then 0 else 1) every (λ id t. refl)
      events 1 0 (tt, (refl, (tt, (tt, (refl, tt)))))

-- The tracks of the peers, the last one that joined first.
abbrev tracks_of : SessionLocal → List (List Track)
tracks_of s = each s.peers
  where
    each : List Peer → List (List Track)
    each [] = []
    each (p ∷ ps) = p.tracks ∷ each ps

all_tracks :
    tracks_of (run every new_session events)
    ≡ (video ∷ (other_video ∷ [])) ∷ ((video ∷ []) ∷ ((other_video ∷ []) ∷ []))
unfolding join subscribe on_track publish_to add_down_tracks add_each add_down_track
all_tracks = refl

-- The first one leaves, and the others lose its track.
first_left : tracks_of (leave (run every new_session events) 1 0) ≡ (other_video ∷ []) ∷ ([] ∷ [])
unfolding join subscribe on_track publish_to add_down_tracks add_each add_down_track leave
    close_receivers remove_peer close
first_left = refl

-- A track with the identifiers of one that is there already is not added: when the publisher of the
-- one that is there leaves, the third peer has no track of the other, which still sends.
same_identifiers :
    tracks_of (
      run every new_session (
        joins 0 1 true true false
        ∷ (joins 1 2 true true false
            ∷ (joins 2 3 false true false
                ∷ (sends 1 video ∷ (sends 2 (record video { owner = 1 }) ∷ (leaves 1 0 ∷ [])))))))
    ≡ [] ∷ ([] ∷ [])
unfolding join subscribe on_track publish_to add_down_tracks add_each add_down_track leave
    close_receivers remove_peer close
same_identifiers = refl

-- The last one that leaves closes the session.
closes_once :
    (run every new_session (joins 0 1 true true false ∷ (leaves 1 0 ∷ (leaves 1 0 ∷ [])))).closings
    ≡ 1
unfolding join subscribe leave close_receivers remove_peer close
closes_once = refl
