-- ===== src/Node/Restart.antt =====
-- What a controller frees when it starts.
use sample_nodejs_server.Prelude.{
  ℕ, ◌≡◌, ◌≢◌, refl, ap, ◌∙◌, Bool, true, false, ◌||◌, List, [], ◌∷◌, ◌++◌, arith, map,
  if◌then◌else◌,
}
use sample_nodejs_server.Prelude.Strings.{same_text, listed}
use sample_nodejs_server.Redis.{Redis, Entry, missing, string, elements, no_entry}
use sample_nodejs_server.Node.Keys.{
  connection_set_key, service_controller, build_keep_alive_service_key,
  build_rtsp_connection_set_key, build_rtsp_connection_key,
}
use sample_nodejs_server.Node.Names.{lock-connection_set}
use sample_nodejs_server.Node.Cleaner.{del, flush}
use sample_nodejs_server.Node.Cleaned.{deletes-append, deleting, map-del, is_deleting-append}
use sample_nodejs_server.Node.Dead.{look-exec}
use sample_nodejs_server.Node.Rooms.{set_rtsp_connection}

module _ (r : Redis) where
  look-flush :
      (s : r.Store) (node_id j : List ℕ)
      → j ≢ connection_set_key
      → let set_key =
          build_rtsp_connection_set_key (build_keep_alive_service_key service_controller node_id) in
        r.look (flush r s node_id) j ≡ (
          if listed (elements (r.look s set_key)) j || same_text set_key j
          then missing
          else r.look s j)
  unfolding flush
  look-flush s node_id j ne =
      let set_key =
        build_rtsp_connection_set_key (build_keep_alive_service_key service_controller node_id) in
      let ks = elements (r.look s set_key) in
      let (all_deleted, alone) = map-del ks j in
      let cs = map del ks ++ (del set_key ∷ []) in
      let (_, only) =
        deleting cs connection_set_key []
          (is_deleting-append (map del ks) (del set_key ∷ []) alone refl) in
      look-exec r cs s j only ne
      ∙ ap (λ (b : Bool). if b then missing else r.look s j)
          (deletes-append (map del ks) (del set_key ∷ []) j
            ∙ joined (same_text set_key j) all_deleted)
    where
      joined : {a b : Bool} (c : Bool) → a ≡ b → (a || (c || false)) ≡ (b || c)
      joined c h = ground (arith, h)

  -- The lock of a camera is still listed for a controller that is disconnected from it, and another
  -- one has it since. When the first controller starts again, the lock is gone, and any controller
  -- that asks for it gets it.
  pub flush_frees :
      (s : r.Store) (node_id url owner next : List ℕ)
      → listed
          (elements (
            r.look s (
              build_rtsp_connection_set_key
                (build_keep_alive_service_key service_controller node_id))))
          (build_rtsp_connection_key url)
        ≡ true
      → r.look s (build_rtsp_connection_key url) ≡ string owner
      → (r.look (flush r s node_id) (build_rtsp_connection_key url) ≡ missing)
        × ((set_rtsp_connection r (flush r s node_id) url next).1 ≡ true)
  unfolding set_rtsp_connection
  flush_frees s node_id url owner next has _ =
      let key = build_rtsp_connection_key url in
      let set_key =
        build_rtsp_connection_set_key (build_keep_alive_service_key service_controller node_id) in
      let t = flush r s node_id in
      let gone : r.look t key ≡ missing =
        look-flush s node_id key (lock-connection_set url)
        ∙ freed (same_text set_key key) (r.look s key) has in
      (gone, (r.set_nx_free t key next 0 (rw gone no_entry)).0)
    where
      freed :
          {a : Bool} (b : Bool) (e : Entry) → a ≡ true → (if a || b then missing else e) ≡ missing
      freed b e h = rw h refl
