-- ===== src/Bucket/Spec.antt =====
-- The bucket as a window of packets by number, without slots, bytes and positions.
use sample_nodejs_server.Prelude.{
  ℕ, ◌≤◌, ◌<◌, ◌≡◌, ◌≢◌, refl, sym, ap, ◌∙◌, Bool, true, false, ◌||◌, List, [], ◌∷◌, Option, none,
  some, arith, ltb, leb, ◌==◌, if◌then◌else◌, sub16, ◌-◌, length, if_elim, le→ltb,
}
use sample_nodejs_server.Bucket.{
  Bucket, Error, Result, ok, err, packet_sn, place, push, set, get, store, start_at, resync_at,
  add_packet,
}
use sample_nodejs_server.Bucket.Slots.{back}
use sample_nodejs_server.Bucket.Writes.{store_lem, invalidate-Frame}
use sample_nodejs_server.Bucket.Inv.{IsValid, push-IsValid, set-IsValid, set_cases}
use sample_nodejs_server.Bucket.Lookup.{back-lt, get-push}
use sample_nodejs_server.Bucket.Add.{offset-back, get-set}
use sample_nodejs_server.Bucket.Packets.{goes_back, head_goes_back, place_cases, push_answer}

-- The greatest number, how many numbers back are held, and the packets.
pub record Window : Type 0 where
  pub head : ℕ
  pub width : ℕ
  pub held : ℕ → Option (List ℕ)

-- A packet that is not ahead of the head fills its place; another one moves the window, and the
-- numbers between are empty.
abbrev late : Window → ℕ → List ℕ → Window
late w sn pkt = record w { held = λ s. if s == sn then some pkt else w.held s }

abbrev ahead : Window → ℕ → List ℕ → Window
ahead w sn pkt = record w {
  head = sn;
  held = λ s.
      if leb w.width (sub16 sn s)
      then none
      else if s == sn
      then some pkt
      else if ltb (sub16 sn s) (sub16 sn w.head)
      then none
      else w.held s;
}

abbrev is_late : ℕ → ℕ → Bool
is_late head sn = sub16 sn head == 0 || ltb 32768 (sub16 sn head)

unfoldable pub accept : Window → ℕ → List ℕ → Window
accept w sn pkt = if is_late w.head sn then late w sn pkt else ahead w sn pkt

-- What the answer of `AddPacket` makes of the window.
abbrev pub answered : Window → List ℕ → Result (List ℕ) → Window
answered w pkt (ok p) = accept w (packet_sn pkt) pkt
answered w pkt (err e) = w

-- A well-formed bucket that has started shows the packets of the window.
pub record Refines (b : Bucket) (w : Window) : Type 0 where
  pub valid : IsValid b
  pub started : b.init ≡ true
  pub in_step : b.resync_on_next_packet ≡ false
  pub head : b.head_sn ≡ w.head
  pub width : b.max_steps ≡ w.width
  pub held : (s : ℕ) → s < 65536 → get b s ≡ w.held s

-- A packet that fits into a slot.
pub record Fits (pkt : List ℕ) : Type 0 where
  pub sn_word : packet_sn pkt < 65536
  pub low : 4 ≤ length pkt
  pub high : length pkt ≤ 1498

accept-late :
    (w : Window) (sn : ℕ) (pkt : List ℕ)
    → is_late w.head sn ≡ true
    → accept w sn pkt ≡ late w sn pkt
unfolding accept
accept-late w sn pkt e = if_elim (λ x. x ≡ late w sn pkt) (is_late w.head sn) (λ _. refl) (λ f. cc)

accept-ahead :
    (w : Window) (sn : ℕ) (pkt : List ℕ)
    → is_late w.head sn ≡ false
    → accept w sn pkt ≡ ahead w sn pkt
unfolding accept
accept-ahead w sn pkt e =
    if_elim (λ x. x ≡ ahead w sn pkt) (is_late w.head sn) (λ f. cc) (λ _. refl)

record SameFrame (b c : Bucket) : Type 0 where
  init : c.init ≡ b.init
  resync : c.resync_on_next_packet ≡ b.resync_on_next_packet
  head_sn : c.head_sn ≡ b.head_sn
  max_steps : c.max_steps ≡ b.max_steps

set-SameFrame : (b : Bucket) (sn : ℕ) (pkt : List ℕ) → SameFrame b (set b sn pkt).0
unfolding store
set-SameFrame b sn pkt =
    set_cases (λ r. SameFrame b r.0) b sn pkt
      (λ _. record { init = refl; resync = refl; head_sn = refl; max_steps = refl })
      (λ _ _. record { init = refl; resync = refl; head_sn = refl; max_steps = refl })
      (λ _ _. record { init = refl; resync = refl; head_sn = refl; max_steps = refl })

push-SameFrame :
    (b : Bucket) (sn : ℕ) (pkt : List ℕ) → SameFrame (record b { head_sn = sn }) (push b sn pkt).0
unfolding push store
push-SameFrame b sn pkt =
    let f = invalidate-Frame (record b { head_sn = sn }) b.step (sub16 sn b.head_sn - 1) in
    record { init = f.init; resync = f.resync; head_sn = f.head_sn; max_steps = f.max_steps }

-- A refusal changes nothing.
set-refused :
    {b : Bucket} (sn : ℕ) (pkt : List ℕ) {e : Error}
    → IsValid b
    → length pkt ≤ 1498
    → (set b sn pkt).1 ≡ err e
    → (set b sn pkt).0 ≡ b
set-refused {b} sn pkt {e} v high =
    set_cases (λ r. r.1 ≡ err e → r.0 ≡ b) b sn pkt (λ _ _. refl) (λ _ _ _. refl)
      λ new _. rw (offset-back (sub16 b.head_sn sn) v new) λ f.
        refuse
          (store_lem b (back b.max_steps b.step (sub16 b.head_sn sn)) pkt
            (omega (arith, v.fits, back-lt _ _ _ v.step_in new)) high)
          f
  where
    refuse : {r : Result (List ℕ)} {c d : Bucket} → r ≡ ok pkt → r ≡ err e → c ≡ d
    refuse g f = cc

set-Refines :
    {b : Bucket} {w : Window} (pkt : List ℕ) (x : Result (List ℕ))
    → Refines b w
    → Fits pkt
    → is_late w.head (packet_sn pkt) ≡ true
    → (set b (packet_sn pkt) pkt).1 ≡ x
    → Refines (set b (packet_sn pkt) pkt).0 (answered w pkt x)
set-Refines {b} {w} pkt (err e) r f on h = rw (set-refused (packet_sn pkt) pkt r.valid f.high h) r
set-Refines {b} {w} pkt (ok p) r f on h =
    let k = set-SameFrame b (packet_sn pkt) pkt in
    let v : Refines (set b (packet_sn pkt) pkt).0 (late w (packet_sn pkt) pkt) = record {
      valid = set-IsValid (packet_sn pkt) pkt r.valid f.high;
      started = k.init ∙ r.started;
      in_step = k.resync ∙ r.in_step;
      head = k.head_sn ∙ r.head;
      width = k.max_steps ∙ r.width;
      held = λ s hs.
          (get-set s pkt r.valid hs f.sn_word f.low f.high h).1
          ∙ ap (λ o. if s == packet_sn pkt then some pkt else o) (r.held s hs);
    } in
    rw (accept-late w (packet_sn pkt) pkt on) v

-- What `get` answers after a move of the window, from the window before.
abbrev moved : ℕ → List ℕ → ℕ → ℕ → ℕ → Option (List ℕ) → Option (List ℕ)
moved sn pkt s width head old =
    if leb width (sub16 sn s)
    then none
    else if s == sn
    then some pkt
    else if ltb (sub16 sn s) (sub16 sn head)
    then none
    else old

push-Refines :
    {b : Bucket} {w : Window} (pkt : List ℕ)
    → Refines b w
    → Fits pkt
    → is_late w.head (packet_sn pkt) ≡ false
    → packet_sn pkt ≢ b.head_sn
    → Refines (push b (packet_sn pkt) pkt).0 (answered w pkt (push b (packet_sn pkt) pkt).1)
push-Refines {b} {w} pkt r f on ne =
    let sn = packet_sn pkt in
    let k = push-SameFrame b sn pkt in
    let v : Refines (push b sn pkt).0 (ahead w sn pkt) = record {
      valid = push-IsValid sn pkt r.valid f.sn_word f.high;
      started = k.init ∙ r.started;
      in_step = k.resync ∙ r.in_step;
      head = k.head_sn;
      width = k.max_steps ∙ r.width;
      held = λ s hs.
          get-push s pkt r.valid hs f.sn_word ne f.low f.high
          ∙ ap (λ x. moved sn pkt s x b.head_sn (get b s)) r.width
          ∙ ap (λ x. moved sn pkt s w.width x (get b s)) r.head
          ∙ ap (λ o. moved sn pkt s w.width w.head o) (r.held s hs);
    } in
    rw (push_answer pkt r.valid f.high, accept-ahead w sn pkt on) v

place-Refines :
    {b : Bucket} {w : Window} (pkt : List ℕ)
    → Refines b w
    → Fits pkt
    → Refines (place b (packet_sn pkt) pkt).0 (answered w pkt (place b (packet_sn pkt) pkt).1)
place-Refines {b} {w} pkt r f =
    place_cases (λ (x : Bucket × Result (List ℕ)). Refines x.0 (answered w pkt x.1)) b
      (packet_sn pkt) pkt (λ on. set-Refines pkt _ r f (at_head on) refl)
      (λ on. push-Refines pkt r f (at_head on) (λ h. head_goes_back b (packet_sn pkt) h on))
  where
    at_head : {x : Bool} → goes_back b (packet_sn pkt) ≡ x → is_late w.head (packet_sn pkt) ≡ x
    at_head on = sym (ap (λ h. is_late h (packet_sn pkt)) r.head) ∙ on

-- A bucket that has started and is not to resynchronise.
add-running :
    (b : Bucket) (pkt : List ℕ)
    → b.init ≡ true
    → b.resync_on_next_packet ≡ false
    → 4 ≤ length pkt
    → add_packet b pkt ≡ place b (packet_sn pkt) pkt
unfolding add_packet start_at resync_at
add-running b pkt started in_step low = rw (le→ltb (length pkt) 4 low) (
    if_elim
      (λ c. place (resync_at c (packet_sn pkt)) (packet_sn pkt) pkt ≡ place b (packet_sn pkt) pkt)
      b.init
      (λ _.
        if_elim (λ c. place c (packet_sn pkt) pkt ≡ place b (packet_sn pkt) pkt)
          b.resync_on_next_packet (λ f. cc) (λ _. refl))
      (λ f. cc))

-- `AddPacket` of each packet, and the window that takes the packets that are accepted.
unfoldable pub add_all : Bucket → Window → List (List ℕ) → Bucket × Window
unfolding accept
add_all b w [] = (b, w)
add_all b w (pkt ∷ pkts) =
    let (b', answer) = add_packet b pkt in add_all b' (answered w pkt answer) pkts

abbrev pub AllFit : List (List ℕ) → Type 0
AllFit [] = Unit
AllFit (pkt ∷ pkts) = Fits pkt × AllFit pkts

add_packet-Refines :
    {b : Bucket} {w : Window} (pkt : List ℕ)
    → Refines b w
    → Fits pkt
    → Refines (add_packet b pkt).0 (answered w pkt (add_packet b pkt).1)
add_packet-Refines {b} {w} pkt r f =
    rw (add-running b pkt r.started r.in_step f.low) (place-Refines pkt r f)

-- A started bucket refines the window of packets by number: through any sequence of packets that fit
-- into a slot, its `get` finds for every number what a window finds that takes just the packets that
-- `AddPacket` accepts, fills gaps with late ones and moves on with others; it keeps the window's head
-- and width, and stays well formed.
pub add_all-Refines :
    (b : Bucket) (w : Window) (pkts : List (List ℕ))
    → Refines b w
    → AllFit pkts
    → Refines (add_all b w pkts).0 (add_all b w pkts).1
unfolding add_all
add_all-Refines b w [] r f = r
add_all-Refines b w (pkt ∷ pkts) r f =
    add_all-Refines (add_packet b pkt).0 (answered w pkt (add_packet b pkt).1) pkts
      (add_packet-Refines pkt r f.0) f.1
