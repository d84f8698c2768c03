-- ===== src/Node/Names.antt =====
-- What the keys of the nodes tell of them, and that keys of different kinds are different.
use sample_nodejs_server.Prelude.{
  ℕ, suc, ◌≡◌, ◌≢◌, ◌≤◌, refl, ap, ◌∙◌, Bool, true, false, not, ◌&&◌, List, [], ◌∷◌, ◌++◌, arith,
  ◌==◌, ltb, if◌then◌else◌, length, get_or, drop, if_elim,
}
use sample_nodejs_server.Prelude.Strings.{same_text, split, attach}
use sample_nodejs_server.Node.Keys.{
  keep_alive_service_prefix, seperator, build_keep_alive_service_key, get_node_id, is_service_node,
  build_room_key, build_room_set_key_of_service, build_rtsp_connection_key,
  build_rtsp_connection_set_key, connection_set_key,
}

-- No byte of it is the separator.
abbrev pub is_name : List ℕ → Bool
is_name [] = true
is_name (b ∷ s) = not (b == seperator) && is_name s

-- Up to the first separator.
abbrev pub first_part : List ℕ → List ℕ
first_part [] = []
first_part (b ∷ s) = let rest = first_part s in if b == seperator then [] else b ∷ rest

split-name :
    (p s : List ℕ)
    → is_name p ≡ true
    → split seperator (p ++ (seperator ∷ s)) ≡ p ∷ split seperator s
unfolding split
split-name [] s h = refl
split-name (b ∷ p) s h =
    let (x, y) : ((b == seperator) ≡ false) × (is_name p ≡ true) = ground arith in
    rw x (ap (attach b) (split-name p s y))

first-attach :
    (b : ℕ) (l : List (List ℕ))
    → 1 ≤ length l
    → (get_or (attach b l) 0 [] ≡ b ∷ get_or l 0 []) × (1 ≤ length (attach b l))
first-attach b [] h = (refl, omega arith)
first-attach b (p ∷ ps) h = (refl, omega arith)

split-first :
    (s : List ℕ)
    → (get_or (split seperator s) 0 [] ≡ first_part s) × (1 ≤ length (split seperator s))
unfolding split
split-first [] = (refl, omega arith)
split-first (b ∷ s) =
    let (x, y) = split-first s in
    let (z, w) = first-attach b (split seperator s) y in
    if_elim
      (λ (l : List (List ℕ)).
        (get_or l 0 [] ≡ (if b == seperator then [] else b ∷ first_part s)) × (1 ≤ length l))
      (b == seperator) (λ e. (rw e refl, omega arith)) (λ e. (rw e (z ∙ ap (λ f. b ∷ f) x), w))

pub split-build :
    (service node_id : List ℕ)
    → is_name service ≡ true
    → split seperator (build_keep_alive_service_key service node_id)
      ≡ keep_alive_service_prefix ∷ (service ∷ split seperator node_id)
unfolding build_keep_alive_service_key
split-build service node_id h =
    split-name keep_alive_service_prefix (service ++ (seperator ∷ node_id)) refl
    ∙ ap (λ l. keep_alive_service_prefix ∷ l) (split-name service node_id h)

third :
    (a b : List ℕ) (l : List (List ℕ))
    → 1 ≤ length l
    → (if ltb (length (a ∷ (b ∷ l))) 3 then [] else get_or (a ∷ (b ∷ l)) 2 []) ≡ get_or l 0 []
third a b [] h = absurd (omega (arith, h))
third a b (c ∷ l) h = ground arith

two_or_more : (n : ℕ) (b : Bool) → (if ltb (suc (suc n)) 2 then false else b) ≡ b
two_or_more n b = ground arith

-- The key of a node gives back its service, and of its identifier the part before a colon: all of
-- it when it has none. The name of the service has no colon.
pub get_node_id-build :
    (service node_id other : List ℕ)
    → is_name service ≡ true
    → (get_node_id (build_keep_alive_service_key service node_id) ≡ first_part node_id)
      × (is_service_node other (build_keep_alive_service_key service node_id)
          ≡ same_text other service)
unfolding get_node_id is_service_node
get_node_id-build service node_id other h =
    let e = split-build service node_id h in
    let (x, y) = split-first node_id in
    (
      ap (λ (c : List (List ℕ)). if ltb (length c) 3 then [] else get_or c 2 []) e
          ∙ third keep_alive_service_prefix service (split seperator node_id) y
          ∙ x,
      ap
            (λ (c : List (List ℕ)).
              if ltb (length c) 2 then false else same_text other (get_or c 1 []))
            e
          ∙ two_or_more (length (split seperator node_id)) (same_text other service),
    )

pub first_part-name : (s : List ℕ) → is_name s ≡ true → first_part s ≡ s
first_part-name [] h = refl
first_part-name (b ∷ s) h =
    let (x, y) : ((b == seperator) ≡ false) × (is_name s ≡ true) = ground arith in
    rw x (ap (λ f. b ∷ f) (first_part-name s y))

byte : ℕ → List ℕ → ℕ
byte i s = get_or s i 0

clash : (i : ℕ) (a b : List ℕ) → byte i a ≢ byte i b → a ≢ b
clash i a b ne h = ne (ap (byte i) h)

pub room-room_set :
    (name post_fix : List ℕ) → build_room_key name ≢ build_room_set_key_of_service post_fix
unfolding build_room_key build_room_set_key_of_service byte
room-room_set name post_fix = clash 14 _ _ (λ h. omega (arith, h))

pub lock-lock_set :
    (url post_fix : List ℕ) → build_rtsp_connection_key url ≢ build_rtsp_connection_set_key post_fix
unfolding build_rtsp_connection_key build_rtsp_connection_set_key byte
lock-lock_set url post_fix = clash 21 _ _ (λ h. omega (arith, h))

pub room-connection_set : (name : List ℕ) → build_room_key name ≢ connection_set_key
unfolding build_room_key byte
room-connection_set name = clash 7 _ _ (λ h. omega (arith, h))

pub lock-connection_set : (url : List ℕ) → build_rtsp_connection_key url ≢ connection_set_key
unfolding build_rtsp_connection_key byte
lock-connection_set url = clash 6 _ _ (λ h. omega (arith, h))

pub lock-room : (url name : List ℕ) → build_rtsp_connection_key url ≢ build_room_key name
unfolding build_rtsp_connection_key build_room_key byte
lock-room url name = clash 6 _ _ (λ h. omega (arith, h))

pub lock-room_set :
    (url post_fix : List ℕ) → build_rtsp_connection_key url ≢ build_room_set_key_of_service post_fix
unfolding build_rtsp_connection_key build_room_set_key_of_service byte
lock-room_set url post_fix = clash 6 _ _ (λ h. omega (arith, h))

pub lock_injective :
    (a b : List ℕ) → build_rtsp_connection_key a ≡ build_rtsp_connection_key b → a ≡ b
unfolding build_rtsp_connection_key
lock_injective a b h = ap (drop 22) h
