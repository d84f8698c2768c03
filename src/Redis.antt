-- ===== src/Redis.antt =====
-- The Redis server that the controllers and the SFUs share, as a parameter: the commands that the
-- program sends, with what Redis documents of them. The keys hold strings and sets.
pub mod Table
pub use sample_nodejs_server.Prelude.Strings.{listed}
use sample_nodejs_server.Prelude.{
  ℕ, suc, ◌≡◌, ◌≢◌, Bool, true, false, ◌||◌, List, [], ◌∷◌, if◌then◌else◌,
}
use sample_nodejs_server.Prelude.Int.{ℤ, pos, inc, dec}
use sample_nodejs_server.Prelude.Strings.{same_text}

pub data Entry : Type 0 where
  missing : Entry
  string : List ℕ → Entry
  members : List (List ℕ) → Entry

-- What `GET(...).Val()` returns: the empty string where there is none.
abbrev pub value : Entry → List ℕ
value missing = []
value (string v) = v
value (members ms) = []

-- What `SMEMBERS(...).Val()` returns.
abbrev pub elements : Entry → List (List ℕ)
elements missing = []
elements (string v) = []
elements (members ms) = ms

pub data IsFree : Entry → Type 0 where
  no_entry : IsFree missing

-- A key that `SADD` and `SREM` work on.
pub data IsCollection : Entry → Type 0 where
  no_entry : IsCollection missing
  some_members : (ms : List (List ℕ)) → IsCollection (members ms)

pub record Redis : Type 1 where
  pub Store : Type 0
  -- what a key holds, its remaining time in seconds, and the number of a counter
  pub look : Store → List ℕ → Entry
  pub ttl : Store → List ℕ → ℤ
  pub count : Store → List ℕ → ℤ
  -- an expiry of 0 is none
  pub set : Store → List ℕ → List ℕ → ℕ → Store
  pub set_nx : Store → List ℕ → List ℕ → ℕ → Store × Bool
  pub del : Store → List ℕ → Store
  pub s_add : Store → List ℕ → List ℕ → Store
  pub s_rem : Store → List ℕ → List ℕ → Store
  pub incr : Store → List ℕ → Store × ℤ
  pub decr : Store → List ℕ → Store × ℤ
  -- a command writes its own key only
  pub look-set :
      (s : Store) (k v : List ℕ) (n : ℕ) (j : List ℕ) → j ≢ k → look (set s k v n) j ≡ look s j
  pub look-set_nx :
      (s : Store) (k v : List ℕ) (n : ℕ) (j : List ℕ) → j ≢ k → look (set_nx s k v n).0 j ≡ look s j
  pub look-del : (s : Store) (k j : List ℕ) → j ≢ k → look (del s k) j ≡ look s j
  pub look-s_add : (s : Store) (k m j : List ℕ) → j ≢ k → look (s_add s k m) j ≡ look s j
  pub look-s_rem : (s : Store) (k m j : List ℕ) → j ≢ k → look (s_rem s k m) j ≡ look s j
  pub look-incr : (s : Store) (k j : List ℕ) → j ≢ k → look (incr s k).0 j ≡ look s j
  pub look-decr : (s : Store) (k j : List ℕ) → j ≢ k → look (decr s k).0 j ≡ look s j
  pub count-set_nx :
      (s : Store) (k v : List ℕ) (n : ℕ) (j : List ℕ)
      → j ≢ k
      → count (set_nx s k v n).0 j ≡ count s j
  pub count-del : (s : Store) (k j : List ℕ) → j ≢ k → count (del s k) j ≡ count s j
  pub count-s_add : (s : Store) (k m j : List ℕ) → j ≢ k → count (s_add s k m) j ≡ count s j
  -- `SETNX` writes where there is nothing
  pub set_nx_free :
      (s : Store) (k v : List ℕ) (n : ℕ)
      → IsFree (look s k)
      → ((set_nx s k v n).1 ≡ true) × (look (set_nx s k v n).0 k ≡ string v)
  pub set_nx_taken :
      (s : Store) (k v : List ℕ) (n : ℕ) → ¬ IsFree (look s k) → set_nx s k v n ≡ (s, false)
  pub del_lem : (s : Store) (k : List ℕ) → look (del s k) k ≡ missing
  -- a set with a new member, and one without it
  pub s_add_lem :
      (s : Store) (k m x : List ℕ)
      → IsCollection (look s k)
      → IsCollection (look (s_add s k m) k)
        × (listed (elements (look (s_add s k m) k)) x
            ≡ (same_text m x || listed (elements (look s k)) x))
  pub s_rem_lem :
      (s : Store) (k m x : List ℕ)
      → IsCollection (look s k)
      → IsCollection (look (s_rem s k m) k)
        × (listed (elements (look (s_rem s k m) k)) x
            ≡ (if same_text m x then false else listed (elements (look s k)) x))
  pub ttl-set : (s : Store) (k v : List ℕ) (n : ℕ) → ttl (set s k v (suc n)) k ≡ pos (suc n)
  pub incr_lem :
      (s : Store) (k : List ℕ)
      → ((incr s k).1 ≡ inc (count s k)) × (count (incr s k).0 k ≡ inc (count s k))
  pub decr_lem : (s : Store) (k : List ℕ) → count (decr s k).0 k ≡ dec (count s k)
