-- ===== src/Session/Added.antt =====
-- What adding down tracks does to a peer.
use sample_nodejs_server.Prelude.{
  ℕ, ◌≡◌, refl, ◌∙◌, Bool, true, false, not, ◌&&◌, ◌||◌, List, [], ◌∷◌, ◌++◌, arith, if_elim,
}
use sample_nodejs_server.SortedSlice.Slices.{All}
use sample_nodejs_server.Session.{
  Track, Peer, same_track, has_track, add_down_track, add_each, add_down_tracks,
}

abbrev pub wants : Peer → Bool
wants p = p.subscriber && not p.no_auto_subscribe

-- Each of the receivers is among the tracks.
abbrev pub Covers : List Track → List Track → Type 0
Covers tracks receivers = All (λ r. has_track tracks r ≡ true) receivers

-- A peer grows: all but its tracks stays, and they become more.
pub record Grows (p q : Peer) : Type 0 where
  pub same_id : q.id ≡ p.id
  pub same_publisher : q.publisher ≡ p.publisher
  pub same_receivers : q.receivers ≡ p.receivers
  pub same_wants : wants q ≡ wants p
  pub same_auto : q.no_auto_subscribe ≡ p.no_auto_subscribe
  pub more : (t : Track) → has_track p.tracks t ≡ true → has_track q.tracks t ≡ true

pub grows_refl : (p : Peer) → Grows p p
grows_refl p = record {
  same_id = refl;
  same_publisher = refl;
  same_receivers = refl;
  same_wants = refl;
  same_auto = refl;
  more = λ t h. h;
}

pub grows_trans : {p q r : Peer} → Grows p q → Grows q r → Grows p r
grows_trans a b = record {
  same_id = b.same_id ∙ a.same_id;
  same_publisher = b.same_publisher ∙ a.same_publisher;
  same_receivers = b.same_receivers ∙ a.same_receivers;
  same_wants = b.same_wants ∙ a.same_wants;
  same_auto = b.same_auto ∙ a.same_auto;
  more = λ t h. b.more t (a.more t h);
}

has_track-append :
    (l : List Track) (s t : Track) → has_track (l ++ (s ∷ [])) t ≡ (has_track l t || same_track s t)
has_track-append [] s t = ground arith
has_track-append (x ∷ l) s t = ground (arith, has_track-append l s t)

same_track_refl : (t : Track) → same_track t t ≡ true
same_track_refl t = ground arith

module _ (accepts : ℕ → Track → Bool) (takes_all : (id : ℕ) (t : Track) → accepts id t ≡ true) where
  -- What an added track brings.
  pub record Added (p : Peer) (t : Track) (r : Peer × Bool) : Type 0 where
    grown : Grows p r.0
    ok : r.1 ≡ true
    there : has_track r.0.tracks t ≡ true

  add_down_track-Added : (p : Peer) (t : Track) → Added p t (add_down_track accepts p t)
  unfolding add_down_track
  add_down_track-Added p t =
      if_elim (Added p t) (has_track p.tracks t)
        (λ has. record { grown = grows_refl p; ok = refl; there = has })
        (λ _. rw (takes_all p.id t) (record {
          grown = record {
            same_id = refl;
            same_publisher = refl;
            same_receivers = refl;
            same_wants = refl;
            same_auto = refl;
            more = λ u h. has_track-append p.tracks t u ∙ first (same_track t u) h;
          };
          ok = refl;
          there = has_track-append p.tracks t t ∙ second (has_track p.tracks t) (same_track_refl t);
        }))
    where
      first : {a : Bool} (b : Bool) → a ≡ true → (a || b) ≡ true
      first b h = ground (arith, h)

      second : (a : Bool) {b : Bool} → b ≡ true → (a || b) ≡ true
      second a h = ground (arith, h)

  -- All of them.
  pub record AddedAll (p : Peer) (l : List Track) (q : Peer) : Type 0 where
    pub grown : Grows p q
    pub there : Covers q.tracks l

  add_each-AddedAll : (p : Peer) (l : List Track) → AddedAll p l (add_each accepts (p, true) l)
  unfolding add_each
  add_each-AddedAll p [] = record { grown = grows_refl p; there = tt }
  add_each-AddedAll p (t ∷ l) =
      let a = add_down_track-Added p t in
      let (q, ok) = add_down_track accepts p t in
      let b = add_each-AddedAll q l in
      let z : AddedAll p (t ∷ l) (add_each accepts (q, true) l) = record {
        grown = grows_trans a.grown b.grown;
        there = (b.grown.more t a.there, b.there);
      } in
      let e : ok ≡ true = a.ok in rw e z

  pub add_down_tracks-AddedAll :
      (p : Peer) (l : List Track)
      → p.no_auto_subscribe ≡ false
      → AddedAll p l (add_down_tracks accepts p l)
  unfolding add_down_tracks
  add_down_tracks-AddedAll p l h =
      if_elim (AddedAll p l) p.no_auto_subscribe (λ off. absurd (clash off h))
        (λ _. add_each-AddedAll p l)
    where
      clash : {b : Bool} → b ≡ true → ¬ (b ≡ false)
      clash x y = cc

  pub add_down_tracks-Grows : (p : Peer) (l : List Track) → Grows p (add_down_tracks accepts p l)
  unfolding add_down_tracks
  add_down_tracks-Grows p l =
      if_elim (Grows p) p.no_auto_subscribe (λ _. grows_refl p) (λ _. (add_each-AddedAll p l).grown)
