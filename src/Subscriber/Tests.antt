-- ===== src/Subscriber/Tests.antt =====
-- The theorem at 16 chunks, and runs.
use sample_nodejs_server.Prelude.{
  ℕ, suc, zero, ◌≤◌, ◌≡◌, refl, true, List, [], ◌∷◌, none, some, arith, length,
}
use sample_nodejs_server.SortedSlice.Slices.{All}
use sample_nodejs_server.Subscriber.{
  Subscriber, add_down_track, remove_down_track, down_tracks_reports,
}
use sample_nodejs_server.Subscriber.Reports.{
  all_chunks, all_sender_reports, down_tracks_reports-chunks,
}

abbrev up_to : ℕ → List ℕ
up_to zero = []
up_to (suc n) = n ∷ up_to n

down_tracks_reports-chunks_example :
    let out = down_tracks_reports (λ k. true) (1 ∷ []) (up_to 16) in
    (all_chunks out ≡ up_to 16)
    × ((all_sender_reports out ≡ 1 ∷ []) × All (λ c. length c.chunks ≤ 15) out)
down_tracks_reports-chunks_example =
    down_tracks_reports-chunks (λ k. true) (1 ∷ []) (up_to 16) (λ k. refl) (omega arith)

-- Without a chunk, the sender reports are not sent.
no_chunk : down_tracks_reports (λ k. true) (1 ∷ []) [] ≡ []
unfolding down_tracks_reports
no_chunk = refl

abbrev empty : Subscriber
empty = record { tracks = λ id. none; channels = λ label. none }

last_moves :
    (remove_down_track
        (add_down_track (add_down_track (add_down_track empty 3 10) 3 11) 3 12)
        3
        10).tracks
      3
    ≡ some (12 ∷ (11 ∷ []))
unfolding add_down_track remove_down_track
last_moves = refl
