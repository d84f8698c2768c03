-- ===== src/Negotiation/Tests.antt =====
-- The theorem at a peer whose tracks change while an answer is out, and a run with an error.
use sample_nodejs_server.Prelude.{◌≡◌, ◌++◌, refl, true, false, List, [], ◌∷◌}
use sample_nodejs_server.Negotiation.{
  new_peer, negotiate, on_negotiation_needed, fire, set_remote_description,
}
use sample_nodejs_server.Negotiation.Settling.{
  Event, changes, fires, answers, candidate, run, last_offer, run-settles,
}

abbrev events : List Event
events = changes ∷ (fires ∷ (candidate 7 ∷ (changes ∷ (fires ∷ (candidate 8 ∷ [])))))

run-settles_example :
    let p = run new_peer events in
    let q = run p (answers true ∷ (fires ∷ [])) in
    (last_offer q ≡ q.version) × (p.delivered ++ p.candidates ≡ 7 ∷ (8 ∷ []))
run-settles_example = run-settles events

second_offer :
    (run new_peer (changes ∷ (fires ∷ (changes ∷ (fires ∷ (answers true ∷ (fires ∷ []))))))).offers
    ≡ 2 ∷ (1 ∷ [])
unfolding negotiate fire on_negotiation_needed set_remote_description
second_offer = refl

-- An offer that cannot be made is not made later, until the tracks change again.
lost_by_error :
    let p = fire true (set_remote_description true (fire false (negotiate new_peer))) in
    p.offers ≡ []
unfolding negotiate fire on_negotiation_needed set_remote_description
lost_by_error = refl
