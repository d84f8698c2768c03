-- ===== src/Session/Served.antt =====
-- What a join and a new track do for one pair of peers, and for all of them.
use sample_nodejs_server.Prelude.{
  ℕ, ◌≡◌, ◌≢◌, refl, sym, ap, ◌∙◌, Bool, true, false, not, ◌&&◌, ◌||◌, List, [], ◌∷◌, ◌++◌, map,
  arith, ◌==◌, if◌then◌else◌, if_elim, ne→==,
}
use sample_nodejs_server.SortedSlice.Slices.{All}
use sample_nodejs_server.Session.{
  Track, Peer, SessionLocal, has_track, has_track_id, receivers_of, without_id, add_down_tracks,
  publish_to, subscribe, join, add_receiver, on_track,
}
use sample_nodejs_server.Session.Added.{
  wants, Covers, Grows, grows_refl, grows_trans, add_down_tracks-AddedAll, add_down_tracks-Grows,
}

pub record IsServed (p q : Peer) : Type 0 where
  pub served : p.id ≢ q.id → p.publisher ≡ true → wants q ≡ true → Covers q.tracks p.receivers

-- Every peer that wants tracks has down tracks with the identifiers of those of every other peer.
abbrev pub IsMesh : List Peer → Type 0
IsMesh ps = All (λ p. All (IsServed p) ps) ps

module _ {A : Type 0} where
  pub all : {P Q : A → Type 0} → ((x : A) → P x → Q x) → (l : List A) → All P l → All Q l
  all f [] a = tt
  all f (x ∷ xs) a = (f x a.0, all f xs a.1)

  pub mapped : (Q : A → Type 0) (f : A → A) (l : List A) → All (λ x. Q (f x)) l → All Q (map f l)
  mapped Q f [] a = tt
  mapped Q f (x ∷ xs) a = (a.0, mapped Q f xs a.1)

wants-auto : (p : Peer) → wants p ≡ true → (p.subscriber ≡ true) × (p.no_auto_subscribe ≡ false)
wants-auto p h = ground (arith, h)

Covers-more :
    (x y : List Track) (l : List Track)
    → ((t : Track) → has_track x t ≡ true → has_track y t ≡ true)
    → Covers x l
    → Covers y l
Covers-more x y l more c = all (λ t h. more t h) l c

Covers-append :
    (x l : List Track) (t : Track) → Covers x l → has_track x t ≡ true → Covers x (l ++ (t ∷ []))
Covers-append x [] t c h = (h, tt)
Covers-append x (r ∷ l) t c h = (c.0, Covers-append x l t c.1 h)

pub All-without_id :
    (P : Peer → Type 0) (id : ℕ) (ps : List Peer) → All P ps → All P (without_id id ps)
All-without_id P id [] a = tt
All-without_id P id (p ∷ ps) a =
    if_elim (All P) (p.id == id) (λ _. All-without_id P id ps a.1)
      (λ _. (a.0, All-without_id P id ps a.1))

module _ (accepts : ℕ → Track → Bool) (takes_all : (id : ℕ) (t : Track) → accepts id t ≡ true) where
  publish_to-Grows : (id : ℕ) (t : Track) (p : Peer) → Grows p (publish_to accepts id t p)
  unfolding publish_to
  publish_to-Grows id t p =
      if_elim (Grows p) (id == p.id || not p.subscriber) (λ _. grows_refl p)
        (λ _. add_down_tracks-Grows accepts takes_all p (t ∷ []))

  publish_to-there :
      (id : ℕ) (t : Track) (p : Peer)
      → p.id ≢ id
      → wants p ≡ true
      → has_track (publish_to accepts id t p).tracks t ≡ true
  unfolding publish_to
  publish_to-there id t p ne w =
      let (sub, auto) = wants-auto p w in
      let other : (id == p.id) ≡ false = ne→== id p.id (λ e. ne (sym e)) in
      if_elim (λ (q : Peer). has_track q.tracks t ≡ true) (id == p.id || not p.subscriber)
        (λ skipped. absurd (clash skipped other sub))
        (λ _. (add_down_tracks-AddedAll accepts takes_all p (t ∷ []) auto).there.0)
    where
      clash : {a b : Bool} → (a || not b) ≡ true → a ≡ false → ¬ (b ≡ true)
      clash x y z = ground (arith, x, y, z)

  -- What `OnTrack` does to a peer.
  after : ℕ → Track → Peer → Peer
  after id t p = publish_to accepts id t (add_receiver id t p)

  first_eq : (x y : ℕ) (b : Bool) → (x == y && b) ≡ true → x ≡ y
  first_eq x y b h = ground (arith, h)

  add_receiver_else : (id : ℕ) (t : Track) (q : Peer) → q.id ≢ id → add_receiver id t q ≡ q
  add_receiver_else id t q ne =
      if_elim (λ (z : Peer). z ≡ q) (q.id == id && q.object == t.owner)
        (λ same. absurd (ne (first_eq q.id id _ same))) (λ _. refl)

  add_receiver_keeps :
      (id : ℕ) (t : Track) (q : Peer)
      → ((add_receiver id t q).id ≡ q.id)
        × (((add_receiver id t q).publisher ≡ q.publisher)
            × ((wants (add_receiver id t q) ≡ wants q) × ((add_receiver id t q).tracks ≡ q.tracks)))
  add_receiver_keeps id t q =
      if_elim
        (λ (z : Peer).
          (z.id ≡ q.id)
          × ((z.publisher ≡ q.publisher) × ((wants z ≡ wants q) × (z.tracks ≡ q.tracks))))
        (q.id == id && q.object == t.owner) (λ _. (refl, (refl, (refl, refl))))
        (λ _. (refl, (refl, (refl, refl))))

  after_serves :
      (id : ℕ) (t : Track) (p q : Peer) → IsServed p q → IsServed (after id t p) (after id t q)
  unfolding after
  after_serves id t p q s =
      let gp = publish_to-Grows id t (add_receiver id t p) in
      let gq = publish_to-Grows id t (add_receiver id t q) in
      let (ip, (pp, (_, _))) = add_receiver_keeps id t p in
      let (iq, (_, (wq, tq))) = add_receiver_keeps id t q in
      record {
        served = λ ne pub_p want.
            let apart : p.id ≢ q.id =
              λ e. ne (gp.same_id ∙ (ip ∙ (e ∙ (sym iq ∙ sym gq.same_id)))) in
            let wanted : wants q ≡ true = sym wq ∙ (sym gq.same_wants ∙ want) in
            let published : p.publisher ≡ true = sym pp ∙ (sym gp.same_publisher ∙ pub_p) in
            let more : (u : Track)
                → has_track q.tracks u ≡ true
                → has_track (after id t q).tracks u ≡ true =
              λ u h. gq.more u (ap (λ l. has_track l u) tq ∙ h) in
            let old =
              Covers-more q.tracks (after id t q).tracks p.receivers more
                (s.served apart published wanted) in
            let all_of : Covers (after id t q).tracks (add_receiver id t p).receivers =
              if_elim (λ (z : Peer). Covers (after id t q).tracks z.receivers)
                (p.id == id && p.object == t.owner)
                (λ same.
                  let other : q.id ≢ id = λ e. apart (first_eq p.id id _ same ∙ sym e) in
                  Covers-append (after id t q).tracks p.receivers t old (
                    ap (λ (z : Peer). has_track (publish_to accepts id t z).tracks t)
                      (add_receiver_else id t q other)
                    ∙ publish_to-there id t q other wanted))
                (λ _. old) in
            let e : (after id t p).receivers ≡ (add_receiver id t p).receivers =
              gp.same_receivers in
            rw e all_of;
      }

  subscribe-Grows :
      (q : Peer) (ps : List Peer)
      → Grows q (subscribe accepts q ps)
        × All
            (λ p.
              p.publisher ≡ true
              → wants q ≡ true
              → Covers (subscribe accepts q ps).tracks p.receivers)
            ps
  unfolding subscribe
  subscribe-Grows q [] = (grows_refl q, tt)
  subscribe-Grows q (p ∷ ps) =
      let next : Peer = if p.publisher then add_down_tracks accepts q p.receivers else q in
      let grown : Grows q next =
        if_elim (Grows q) p.publisher (λ _. add_down_tracks-Grows accepts takes_all q p.receivers)
          (λ _. grows_refl q) in
      let (rest, others) = subscribe-Grows next ps in
      (
        grows_trans grown rest,
        (
          λ pub_p want.
              Covers-more next.tracks (subscribe accepts next ps).tracks p.receivers rest.more (
                if_elim (λ (z : Peer). Covers z.tracks p.receivers) p.publisher
                  (λ _.
                    (add_down_tracks-AddedAll accepts takes_all q p.receivers
                      (wants-auto q want).1).there)
                  (λ off. absurd (clash pub_p off))),
          all (λ x f pub_x want. f pub_x (grown.same_wants ∙ want)) ps others,
        ),
      )
    where
      clash : {b : Bool} → b ≡ true → ¬ (b ≡ false)
      clash x y = cc

  IsMesh-without_id : (id : ℕ) (ps : List Peer) → IsMesh ps → IsMesh (without_id id ps)
  IsMesh-without_id id ps m =
      All-without_id (λ p. All (IsServed p) (without_id id ps)) id ps
        (all (λ p a. All-without_id (IsServed p) id ps a) ps m)

  pub IsMesh-join :
      (s : SessionLocal) (p : Peer)
      → p.receivers ≡ []
      → IsMesh s.peers
      → IsMesh (join accepts s p).peers
  unfolding join
  IsMesh-join s p none_yet m =
      let others = without_id p.id s.peers in
      let kept = IsMesh-without_id p.id s.peers m in
      let new : Peer = if p.subscriber then subscribe accepts p others else p in
      let (grown, covers) = subscribe-Grows p others in
      let same : Grows p new = if_elim (Grows p) p.subscriber (λ _. grown) (λ _. grows_refl p) in
      let nothing : new.receivers ≡ [] = same.same_receivers ∙ none_yet in
      let serves : (q : Peer) → IsServed new q =
        λ q. record { served = λ ne pub_new want. rw nothing tt } in
      let gets : All (λ x. IsServed x new) others =
        all
          (λ x f. record {
            served = λ ne pub_x want.
                let wanted : wants p ≡ true = sym same.same_wants ∙ want in
                if_elim (λ (z : Peer). Covers z.tracks x.receivers) p.subscriber
                  (λ _. f pub_x wanted) (λ off. absurd (clash (wants-auto p wanted).0 off));
          })
          others covers in
      (
        (serves new, all (λ x _. serves x) others covers),
        both (λ x. IsServed x new) (λ x. All (IsServed x) others) others gets kept,
      )
    where
      clash : {b : Bool} → b ≡ true → ¬ (b ≡ false)
      clash x y = cc

      both :
          (P : Peer → Type 0) (Q : Peer → Type 0) (l : List Peer)
          → All P l
          → All Q l
          → All (λ x. P x × Q x) l
      both P Q [] a b = tt
      both P Q (x ∷ l) a b = ((a.0, b.0), both P Q l a.1 b.1)

  pub IsMesh-on_track :
      (s : SessionLocal) (id : ℕ) (t : Track)
      → IsMesh s.peers
      → IsMesh (on_track accepts s id t).peers
  unfolding on_track after
  IsMesh-on_track s id t m =
      if_elim (λ (z : SessionLocal). IsMesh z.peers)
        (has_track_id (receivers_of id t.owner s.peers) t.track_id) (λ _. m)
        (λ _.
          mapped (λ p. All (IsServed p) (map (after id t) s.peers)) (after id t) s.peers
            (all
              (λ p a.
                mapped (IsServed (after id t p)) (after id t) s.peers
                  (all (λ q served. after_serves id t p q served) s.peers a))
              s.peers m))
