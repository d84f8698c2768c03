-- ===== src/Node/Dead.antt =====
-- The tick of the cleaner against its description: what is freed, and which nodes stay.
use sample_nodejs_server.Prelude.{
  ℕ, ◌≡◌, ◌≢◌, refl, sym, ap, ◌∙◌, Bool, true, false, not, ◌&&◌, ◌||◌, List, [], ◌∷◌, ◌++◌, arith,
  if◌then◌else◌, if_elim, Bool-cases, ◌⊎◌, inl, inr,
}
use sample_nodejs_server.Prelude.Strings.{same_text, same_text→eq, same_text_refl}
use sample_nodejs_server.Redis.{Redis, Entry, missing, elements, listed, IsCollection}
use sample_nodejs_server.Node.Keys.{connection_set_key}
use sample_nodejs_server.Node.Cleaner.{
  Command, del, s_rem, exec, is_alive, clean_sfu, clean_controller, clean_node, clean_nodes, clean,
}
use sample_nodejs_server.Node.Cleaned.{
  deletes, takes, is_only, deletes-append, takes-append, is_only-append, deleting, frees, is_freed,
  clean_sfu_lem, clean_controller_lem,
}

same_text-cases : (a b : List ℕ) → (a ≡ b) ⊎ (same_text a b ≡ false)
same_text-cases a b = elim (Bool-cases (same_text a b)) [
  | inl same ↦ inl (same_text→eq a b same)
  | inr differ ↦ inr differ
]

-- What a list of commands does, of which the cleaner has several.
record Does (cs : List Command) (j x : List ℕ) (d t : Bool) : Type 0 where
  deletes_it : deletes cs j ≡ d
  takes_it : takes cs connection_set_key x ≡ t
  only : is_only cs connection_set_key ≡ true

and_Does :
    {a b : List Command} {j x : List ℕ} {d e t u : Bool}
    → Does a j x d t
    → Does b j x e u
    → Does (a ++ b) j x (d || e) (t || u)
and_Does {a} {b} {j} {x} p q = record {
  deletes_it = ground (arith, deletes-append a b j, p, q);
  takes_it = ground (arith, takes-append a b connection_set_key x, p, q);
  only = ground (arith, is_only-append a b connection_set_key, p, q);
}

module _ (r : Redis) where
  clean_node-Does :
      (s : r.Store) (connection j x : List ℕ)
      → Does
          (clean_node r s connection)
          j
          x
          (frees r s j connection)
          (not (is_alive r s connection) && same_text connection x)
  unfolding clean_node
  clean_node-Does s connection j x =
      let (d1, only1) = clean_sfu_lem r s connection j in
      let (d2, only2) = clean_controller_lem r s connection j in
      let (t1, o1) = deleting (clean_sfu r s connection) connection_set_key x only1 in
      let (t2, o2) = deleting (clean_controller r s connection) connection_set_key x only2 in
      if_elim
        (λ (l : List Command).
          Does l j x (frees r s j connection)
            (not (is_alive r s connection) && same_text connection x))
        (is_alive r s connection)
        (λ alive. record {
          deletes_it = ground (arith, alive);
          takes_it = ground (arith, alive);
          only = refl;
        })
        (λ dead.
          let p : Does (clean_sfu r s connection) j x _ false = record {
            deletes_it = d1;
            takes_it = t1;
            only = o1;
          } in
          let q : Does (clean_controller r s connection) j x _ false = record {
            deletes_it = d2;
            takes_it = t2;
            only = o2;
          } in
          let last : Does (s_rem connection_set_key connection ∷ []) j x false
              (same_text connection x) =
            record { deletes_it = refl; takes_it = ground arith; only = refl } in
          let all = and_Does p (and_Does q last) in
          record {
            deletes_it = ground (arith, dead, all.deletes_it);
            takes_it = ground (arith, dead, all.takes_it);
            only = all.only;
          })

  clean_nodes-Does :
      (s : r.Store) (cs : List (List ℕ)) (j x : List ℕ)
      → Does (clean_nodes r s cs) j x (is_freed r s cs j) (not (is_alive r s x) && listed cs x)
  unfolding clean_nodes
  clean_nodes-Does s [] j x = record { deletes_it = refl; takes_it = ground arith; only = refl }
  clean_nodes-Does s (c ∷ cs) j x =
      let all = and_Does (clean_node-Does s c j x) (clean_nodes-Does s cs j x) in
      let at : same_text c x ≡ true → is_alive r s c ≡ is_alive r s x =
        λ e. ap (λ z. is_alive r s z) (same_text→eq c x e) in
      record {
        deletes_it = all.deletes_it;
        takes_it = ground (arith, all.takes_it, at);
        only = all.only;
      }

  pub look-exec :
      (cs : List Command) (s : r.Store) (j : List ℕ)
      → is_only cs connection_set_key ≡ true
      → j ≢ connection_set_key
      → r.look (exec r s cs) j ≡ (if deletes cs j then missing else r.look s j)
  unfolding exec
  look-exec [] s j only ne = refl
  look-exec (del k ∷ cs) s j only ne =
      let rest = look-exec cs (r.del s k) j only ne in
      elim (same_text-cases k j) [
        | inl same ↦
            let gone : r.look (r.del s k) j ≡ missing = rw same (r.del_lem s j) in
            let yes_there : same_text k j ≡ true = rw same (same_text_refl j) in
            ground (arith, rest, gone, yes_there)
        | inr differ ↦
            let kept =
              r.look-del s k j (λ e. absurd (clash (rw e at (differ)) (same_text_refl k))) in
            ground (arith, rest, kept, differ)
      ]
    where
      clash : {b : Bool} → b ≡ false → ¬ (b ≡ true)
      clash x y = cc
  look-exec (s_rem k m ∷ cs) s j only ne =
      let (x, y) : (same_text k connection_set_key ≡ true)
          × (is_only cs connection_set_key ≡ true) =
        ground arith in
      look-exec cs (r.s_rem s k m) j y ne
      ∙ ap (λ (e : Entry). if deletes cs j then missing else e)
          (r.look-s_rem s k m j (λ e. ne (e ∙ same_text→eq k connection_set_key x)))

  members-exec :
      (cs : List Command) (s : r.Store) (x : List ℕ)
      → deletes cs connection_set_key ≡ false
      → IsCollection (r.look s connection_set_key)
      → IsCollection (r.look (exec r s cs) connection_set_key)
        × (listed (elements (r.look (exec r s cs) connection_set_key)) x ≡ (
            if takes cs connection_set_key x
            then false
            else listed (elements (r.look s connection_set_key)) x))
  unfolding exec
  members-exec [] s x intact c = (c, refl)
  members-exec (del k ∷ cs) s x intact c =
      let (differ, rest) : (same_text k connection_set_key ≡ false)
          × (deletes cs connection_set_key ≡ false) =
        ground arith in
      let kept =
        r.look-del s k connection_set_key
          (λ e. apart (ap (λ z. same_text z connection_set_key) (sym e)) differ) in
      let (p, q) = members-exec cs (r.del s k) x rest (rw kept c) in
      (
        p,
        q
            ∙ ap
                (λ (e : Entry).
                  if takes cs connection_set_key x then false else listed (elements e) x)
                kept,
      )
    where
      apart : {a : Bool} → a ≡ true → ¬ (a ≡ false)
      apart x y = cc
  members-exec (s_rem k m ∷ cs) s x intact c = elim (same_text-cases k connection_set_key) [
    | inl same ↦
        let (p, q) = r.s_rem_lem s connection_set_key m x c in
        let (u, v) = members-exec cs (r.s_rem s connection_set_key m) x intact p in
        rw same (u, ground (arith, v, q, same_text_refl connection_set_key))
    | inr differ ↦
        let kept = r.look-s_rem s k m connection_set_key (λ e. apart e differ) in
        let (p, q) = members-exec cs (r.s_rem s k m) x intact (rw kept c) in
        let q' =
          q
          ∙ ap
              (λ (e : Entry).
                if takes cs connection_set_key x then false else listed (elements e) x)
              kept in
        (p, ground (arith, q', differ))
  ]
    where
      apart : {k : List ℕ} → connection_set_key ≡ k → ¬ (same_text k connection_set_key ≡ false)
      apart e f = differs (ap (λ z. same_text z connection_set_key) (sym e)) f
        where
          differs : {a : Bool} → a ≡ true → ¬ (a ≡ false)
          differs x y = cc

  -- A tick of the cleaner, for every key but the set of the nodes: the key is gone when a dead node
  -- frees it, and is as it was otherwise. A dead SFU frees its rooms and their set; a dead
  -- controller frees the locks that are listed for it and still hold its identifier, and their set.
  pub look-clean :
      (s : r.Store) (j : List ℕ)
      → j ≢ connection_set_key
      → r.look (clean r s) j
        ≡ (if is_freed r s (elements (r.look s connection_set_key)) j then missing else r.look s j)
  unfolding clean
  look-clean s j ne =
      let conns = elements (r.look s connection_set_key) in
      let does = clean_nodes-Does s conns j [] in
      look-exec (clean_nodes r s conns) s j does.only ne
      ∙ ap (λ (b : Bool). if b then missing else r.look s j) does.deletes_it

  -- After a tick of the cleaner the nodes are those of before that are alive, when no set of rooms
  -- or of locks lists the key of the set of the nodes.
  pub members-clean :
      (s : r.Store) (x : List ℕ)
      → IsCollection (r.look s connection_set_key)
      → is_freed r s (elements (r.look s connection_set_key)) connection_set_key ≡ false
      → IsCollection (r.look (clean r s) connection_set_key)
        × (listed (elements (r.look (clean r s) connection_set_key)) x
            ≡ (listed (elements (r.look s connection_set_key)) x && is_alive r s x))
  unfolding clean
  members-clean s x c intact =
      let conns = elements (r.look s connection_set_key) in
      let does = clean_nodes-Does s conns connection_set_key x in
      let (p, q) = members-exec (clean_nodes r s conns) s x (does.deletes_it ∙ intact) c in
      (p, ground (arith, q, does.takes_it))
