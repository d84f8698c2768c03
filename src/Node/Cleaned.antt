-- ===== src/Node/Cleaned.antt =====
-- What a tick of the cleaner leaves, key by key.
use sample_nodejs_server.Prelude.{
  ℕ, ◌≡◌, refl, ap, Bool, true, false, not, ◌&&◌, ◌||◌, List, [], ◌∷◌, ◌++◌, map, arith, if_elim,
}
use sample_nodejs_server.Prelude.Strings.{same_text, same_text→eq}
use sample_nodejs_server.Redis.{Redis, value, elements, listed}
use sample_nodejs_server.Node.Keys.{
  service_sfu, service_controller, get_node_id, is_service_node, build_room_set_key_of_service,
  build_rtsp_connection_set_key,
}
use sample_nodejs_server.Node.Cleaner.{
  Command, del, s_rem, is_alive, clean_sfu, clean_locks, clean_controller,
}

-- The commands delete the key, and take the member out of the set.
abbrev pub deletes : List Command → List ℕ → Bool
deletes [] j = false
deletes (del k ∷ cs) j = same_text k j || deletes cs j
deletes (s_rem k m ∷ cs) j = deletes cs j

abbrev pub takes : List Command → List ℕ → List ℕ → Bool
takes [] j x = false
takes (del k ∷ cs) j x = takes cs j x
takes (s_rem k m ∷ cs) j x = (same_text k j && same_text m x) || takes cs j x

-- Members are taken out of this set only.
abbrev pub is_only : List Command → List ℕ → Bool
is_only [] j = true
is_only (del k ∷ cs) j = is_only cs j
is_only (s_rem k m ∷ cs) j = same_text k j && is_only cs j

pub deletes-append :
    (a b : List Command) (j : List ℕ) → deletes (a ++ b) j ≡ (deletes a j || deletes b j)
deletes-append [] b j = refl
deletes-append (del k ∷ a) b j = ground (arith, deletes-append a b j)
deletes-append (s_rem k m ∷ a) b j = ground (arith, deletes-append a b j)

pub takes-append :
    (a b : List Command) (j x : List ℕ) → takes (a ++ b) j x ≡ (takes a j x || takes b j x)
takes-append [] b j x = refl
takes-append (del k ∷ a) b j x = ground (arith, takes-append a b j x)
takes-append (s_rem k m ∷ a) b j x = ground (arith, takes-append a b j x)

pub is_only-append :
    (a b : List Command) (j : List ℕ) → is_only (a ++ b) j ≡ (is_only a j && is_only b j)
is_only-append [] b j = refl
is_only-append (del k ∷ a) b j = ground (arith, is_only-append a b j)
is_only-append (s_rem k m ∷ a) b j = ground (arith, is_only-append a b j)

-- Deletions of keys alone.
abbrev pub is_deleting : List Command → Bool
is_deleting [] = true
is_deleting (del k ∷ cs) = is_deleting cs
is_deleting (s_rem k m ∷ cs) = false

pub deleting :
    (cs : List Command) (j x : List ℕ)
    → is_deleting cs ≡ true
    → (takes cs j x ≡ false) × (is_only cs j ≡ true)
deleting [] j x h = (refl, refl)
deleting (del k ∷ cs) j x h = deleting cs j x h
deleting (s_rem k m ∷ cs) j x h = cc

pub is_deleting-append :
    (a b : List Command) → is_deleting a ≡ true → is_deleting b ≡ true → is_deleting (a ++ b) ≡ true
is_deleting-append [] b x y = y
is_deleting-append (del k ∷ a) b x y = is_deleting-append a b x y
is_deleting-append (s_rem k m ∷ a) b x y = cc

pub map-del :
    (ks : List (List ℕ)) (j : List ℕ)
    → (deletes (map del ks) j ≡ listed ks j) × (is_deleting (map del ks) ≡ true)
map-del [] j = (refl, refl)
map-del (k ∷ ks) j = let (x, y) = map-del ks j in (ap (λ b. same_text k j || b) x, y)

module _ (r : Redis) where
  -- The key is freed with a dead node: the rooms of an SFU, the locks that a controller has, and
  -- the sets of both.
  abbrev pub frees : r.Store → List ℕ → List ℕ → Bool
  frees s j connection =
      not (is_alive r s connection)
      && ((is_service_node service_sfu connection
            && (listed (elements (r.look s (build_room_set_key_of_service connection))) j
                || same_text (build_room_set_key_of_service connection) j))
          || (is_service_node service_controller connection
              && ((listed (elements (r.look s (build_rtsp_connection_set_key connection))) j
                    && same_text (value (r.look s j)) (get_node_id connection))
                  || same_text (build_rtsp_connection_set_key connection) j)))

  abbrev pub is_freed : r.Store → List (List ℕ) → List ℕ → Bool
  is_freed s [] j = false
  is_freed s (connection ∷ rest) j = frees s j connection || is_freed s rest j

  clean_locks_lem :
      (s : r.Store) (connection : List ℕ) (ks : List (List ℕ)) (j : List ℕ)
      → (deletes (clean_locks r s connection ks) j
          ≡ (listed ks j && same_text (value (r.look s j)) (get_node_id connection)))
        × (is_deleting (clean_locks r s connection ks) ≡ true)
  unfolding clean_locks
  clean_locks_lem s connection [] j = (refl, refl)
  clean_locks_lem s connection (k ∷ ks) j =
      let (x, y) = clean_locks_lem s connection ks j in
      let id = get_node_id connection in
      let at : same_text k j ≡ true
          → same_text (value (r.look s k)) id ≡ same_text (value (r.look s j)) id =
        λ e. ap (λ z. same_text (value (r.look s z)) id) (same_text→eq k j e) in
      if_elim
        (λ (l : List Command).
          (deletes l j ≡ ((same_text k j || listed ks j) && same_text (value (r.look s j)) id))
          × (is_deleting l ≡ true))
        (same_text (value (r.look s k)) id) (λ mine. (ground (arith, x, mine, at), y))
        (λ other. (ground (arith, x, other, at), y))

  pub clean_sfu_lem :
      (s : r.Store) (connection j : List ℕ)
      → (deletes (clean_sfu r s connection) j ≡ (
          is_service_node service_sfu connection
          && (listed (elements (r.look s (build_room_set_key_of_service connection))) j
              || same_text (build_room_set_key_of_service connection) j)))
        × (is_deleting (clean_sfu r s connection) ≡ true)
  unfolding clean_sfu
  clean_sfu_lem s connection j =
      let set_key = build_room_set_key_of_service connection in
      let ks = elements (r.look s set_key) in
      let (x, y) = map-del ks j in
      if_elim
        (λ (l : List Command).
          (deletes l j
            ≡ (is_service_node service_sfu connection && (listed ks j || same_text set_key j)))
          × (is_deleting l ≡ true))
        (is_service_node service_sfu connection)
        (λ sfu. (
          ground (arith, x, sfu, deletes-append (map del ks) (del set_key ∷ []) j),
          is_deleting-append (map del ks) (del set_key ∷ []) y refl,
        ))
        (λ other. (ground (arith, other), refl))

  pub clean_controller_lem :
      (s : r.Store) (connection j : List ℕ)
      → (deletes (clean_controller r s connection) j ≡ (
          is_service_node service_controller connection
          && ((listed (elements (r.look s (build_rtsp_connection_set_key connection))) j
                && same_text (value (r.look s j)) (get_node_id connection))
              || same_text (build_rtsp_connection_set_key connection) j)))
        × (is_deleting (clean_controller r s connection) ≡ true)
  unfolding clean_controller
  clean_controller_lem s connection j =
      let set_key = build_rtsp_connection_set_key connection in
      let ks = elements (r.look s set_key) in
      let cs = clean_locks r s connection ks in
      let mine = same_text (value (r.look s j)) (get_node_id connection) in
      let (x, y) = clean_locks_lem s connection ks j in
      if_elim
        (λ (l : List Command).
          (deletes l j ≡ (
            is_service_node service_controller connection
            && ((listed ks j && mine) || same_text set_key j)))
          × (is_deleting l ≡ true))
        (is_service_node service_controller connection)
        (λ controller. (
          ground (arith, x, controller, deletes-append cs (del set_key ∷ []) j),
          is_deleting-append cs (del set_key ∷ []) y refl,
        ))
        (λ other. (ground (arith, other), refl))
