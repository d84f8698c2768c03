-- ===== src/Negotiation.antt =====
-- ion-sfu/pkg/sfu/peer.go and subscriber.go: the offers of a subscriber, the answers, and the
-- candidates that come before the first answer. The peer connection of pion is in the state: it
-- takes an answer only while it has an offer without one. `version` counts the changes of tracks, and
-- an offer is for the version at its time. `debounced` says that a negotiation is due.
pub mod Settling
mod Tests
use sample_nodejs_server.Prelude.{
  ℕ, ◌+◌, Bool, true, false, not, ◌&&◌, ◌||◌, List, [], ◌∷◌, ◌++◌, if◌then◌else◌,
}

pub record Peer : Type 0 where
  pub closed : Bool
  pub on_offer : Bool  -- the handler is set
  pub remote_answer_pending : Bool
  pub negotiation_pending : Bool
  pub debounced : Bool
  pub version : ℕ
  pub offers : List ℕ  -- sent, the last one first
  pub have_local_offer : Bool
  pub remote_description : Bool
  pub candidates : List ℕ
  pub delivered : List ℕ

abbrev pub new_peer : Peer
new_peer = record {
  closed = false;
  on_offer = true;
  remote_answer_pending = false;
  negotiation_pending = false;
  debounced = false;
  version = 0;
  offers = [];
  have_local_offer = false;
  remote_description = false;
  candidates = [];
  delivered = [];
}

-- The tracks have changed, and `negotiate` is called.
unfoldable pub negotiate : Peer → Peer
negotiate p = record p { version = p.version + 1; debounced = true }

-- The offer that was made, with the local description set.
abbrev pub with_offer : Peer → Peer
with_offer p =
    let q = record p { have_local_offer = true; remote_answer_pending = true } in
    if p.on_offer && not p.closed then record q { offers = p.version ∷ p.offers } else q

-- The function that `OnNegotiationNeeded` is given; `creates` is whether `CreateOffer` works.
unfoldable pub on_negotiation_needed : Bool → Peer → Peer
on_negotiation_needed creates p =
    let q = record p { debounced = false } in
    if p.remote_answer_pending
    then record q { negotiation_pending = true }
    else if creates
    then with_offer q
    else q

-- The debounce runs the function if a negotiation is due.
unfoldable pub fire : Bool → Peer → Peer
unfolding on_negotiation_needed
fire creates p = if p.debounced then on_negotiation_needed creates p else p

-- `Subscriber.SetRemoteDescription`, when the connection takes the answer.
abbrev pub describe : Peer → Peer
describe p = record p {
  have_local_offer = false;
  remote_description = true;
  delivered = p.delivered ++ p.candidates;
  candidates = [];
}

abbrev pub answered : Peer → Peer
answered p =
    let q = record p { remote_answer_pending = false } in
    if p.negotiation_pending then record q { negotiation_pending = false; debounced = true } else q

-- `PeerLocal.SetRemoteDescription`; `valid` is whether the answer can be read.
unfoldable pub set_remote_description : Bool → Peer → Peer
set_remote_description valid p = if valid && p.have_local_offer then answered (describe p) else p

-- `Subscriber.AddICECandidate`.
unfoldable pub add_ice_candidate : ℕ → Peer → Peer
add_ice_candidate c p =
    if p.remote_description
    then record p { delivered = p.delivered ++ (c ∷ []) }
    else record p { candidates = p.candidates ++ (c ∷ []) }
