-- ===== src/Negotiation/Settling.antt =====
-- Sequences of changes, offers, answers and candidates, and what is due after them.
use mathlib.Core.List.{append_assoc, append-nil}
use sample_nodejs_server.Prelude.{
  ℕ, ◌≡◌, refl, sym, ap, ◌∙◌, Bool, true, false, not, ◌&&◌, ◌⊎◌, List, [], ◌∷◌, ◌++◌, arith,
  if_elim,
}
use sample_nodejs_server.Negotiation.{
  Peer, new_peer, negotiate, on_negotiation_needed, fire, set_remote_description, add_ice_candidate,
}

pub data Event : Type 0 where
  changes : Event
  fires : Event
  answers : Bool → Event
  candidate : ℕ → Event

-- Offers are made without an error.
abbrev pub happens : Event → Peer → Peer
happens changes p = negotiate p
happens fires p = fire true p
happens (answers valid) p = set_remote_description valid p
happens (candidate c) p = add_ice_candidate c p

abbrev pub run : Peer → List Event → Peer
run p [] = p
run p (e ∷ es) = run (happens e p) es

abbrev pub last_offer : Peer → ℕ
last_offer p = first p.offers
  where
    first : List ℕ → ℕ
    first [] = 0
    first (o ∷ os) = o

-- The candidates of the events, in order.
abbrev pub added : List Event → List ℕ
added [] = []
added (candidate c ∷ es) = c ∷ added es
added (e ∷ es) = added es

pub record IsSettling (p : Peer) : Type 0 where
  pub one_offer : p.remote_answer_pending ≡ p.have_local_offer
  pub pending : p.negotiation_pending ≡ true → p.remote_answer_pending ≡ true
  pub not_lost :
      (last_offer p ≡ p.version) ⊎ ((p.debounced ≡ true) ⊎ (p.negotiation_pending ≡ true))
  pub queued : p.remote_description ≡ true → p.candidates ≡ []
  pub is_open : (p.on_offer ≡ true) × (p.closed ≡ false)

happens-IsSettling : (e : Event) (p : Peer) → IsSettling p → IsSettling (happens e p)
unfolding negotiate fire on_negotiation_needed set_remote_description add_ice_candidate
happens-IsSettling changes p s = ground arith
happens-IsSettling fires p s = ground arith
happens-IsSettling (answers valid) p s = ground arith
happens-IsSettling (candidate c) p s = ground arith

run-IsSettling : (p : Peer) (es : List Event) → IsSettling p → IsSettling (run p es)
run-IsSettling p [] s = s
run-IsSettling p (e ∷ es) s = run-IsSettling (happens e p) es (happens-IsSettling e p s)

new-IsSettling : IsSettling new_peer
new-IsSettling = ground arith

-- An answer and the debounce after it.
settled : (p : Peer) → IsSettling p → last_offer (run p (answers true ∷ (fires ∷ []))) ≡ p.version
unfolding fire on_negotiation_needed set_remote_description
settled p s = ground arith

version_stays : (p : Peer) → (run p (answers true ∷ (fires ∷ []))).version ≡ p.version
unfolding fire on_negotiation_needed set_remote_description
version_stays p = ground arith

-- The candidates that the connection has or that wait.
abbrev all_of : Peer → List ℕ
all_of p = p.delivered ++ p.candidates

happens-all_of :
    (e : Event) (p : Peer) → IsSettling p → all_of (happens e p) ≡ all_of p ++ added (e ∷ [])
unfolding negotiate fire on_negotiation_needed set_remote_description add_ice_candidate
happens-all_of changes p s = sym (append-nil (all_of p))
happens-all_of fires p s =
    if_elim (λ (q : Peer). all_of q ≡ all_of p ++ []) p.debounced
      (λ _.
        if_elim (λ (q : Peer). all_of q ≡ all_of p ++ []) p.remote_answer_pending
          (λ _. sym (append-nil (all_of p)))
          (λ _.
            if_elim (λ (q : Peer). all_of q ≡ all_of p ++ []) (p.on_offer && not p.closed)
              (λ _. sym (append-nil (all_of p))) (λ _. sym (append-nil (all_of p)))))
      (λ _. sym (append-nil (all_of p)))
happens-all_of (answers valid) p s =
    if_elim (λ (q : Peer). all_of q ≡ all_of p ++ []) (valid && p.have_local_offer)
      (λ _.
        if_elim (λ (q : Peer). all_of q ≡ all_of p ++ []) p.negotiation_pending (λ _. refl)
          (λ _. refl))
      (λ _. sym (append-nil (all_of p)))
happens-all_of (candidate c) p s =
    if_elim (λ (q : Peer). all_of q ≡ all_of p ++ (c ∷ [])) p.remote_description
      (λ described.
        let none_wait = s.queued described in
        ap (λ l. (p.delivered ++ (c ∷ [])) ++ l) none_wait
        ∙ (append-nil (p.delivered ++ (c ∷ []))
            ∙ ap (λ l. l ++ (c ∷ []))
                (sym (ap (λ l. p.delivered ++ l) none_wait ∙ append-nil p.delivered))))
      (λ _. sym (append_assoc p.delivered p.candidates (c ∷ [])))

added-step : (e : Event) (es : List Event) → added (e ∷ []) ++ added es ≡ added (e ∷ es)
added-step changes es = refl
added-step fires es = refl
added-step (answers valid) es = refl
added-step (candidate c) es = refl

run-all_of : (p : Peer) (es : List Event) → IsSettling p → all_of (run p es) ≡ all_of p ++ added es
run-all_of p [] s = sym (append-nil (all_of p))
run-all_of p (e ∷ es) s =
    run-all_of (happens e p) es (happens-IsSettling e p s)
    ∙ (ap (λ l. l ++ added es) (happens-all_of e p s)
        ∙ (append_assoc (all_of p) (added (e ∷ [])) (added es)
            ∙ ap (λ l. all_of p ++ l) (added-step e es)))

-- Tracks change, negotiations fall due, answers and candidates come, in any order, from a new peer
-- on, and offers are made without an error. At every time, if the answer to an offer comes and then a
-- negotiation falls due, the last offer is for the tracks as they are; and the candidates that were
-- handed on, followed by those that wait, are all that came, in order.
pub run-settles :
    (es : List Event)
    → let p = run new_peer es in
      let q = run p (answers true ∷ (fires ∷ [])) in
      (last_offer q ≡ q.version) × (p.delivered ++ p.candidates ≡ added es)
run-settles es =
    let p = run new_peer es in
    let s = run-IsSettling new_peer es new-IsSettling in
    (settled p s ∙ sym (version_stays p), run-all_of new_peer es new-IsSettling)
