-- ===== src/Redis/Table.antt =====
-- A table that does what is asked of Redis, for the tests.
use sample_nodejs_server.Prelude.{
  ℕ, ◌≡◌, ◌≢◌, refl, sym, ap, ◌∙◌, Bool, true, false, ◌||◌, List, [], ◌∷◌, arith, if◌then◌else◌,
}
use sample_nodejs_server.Prelude.Int.{ℤ, pos, inc, dec}
use sample_nodejs_server.Prelude.Strings.{same_text, same_text_refl, same_text→eq, ne→same_text}
use sample_nodejs_server.Redis.{
  Redis, Entry, missing, string, members, listed, elements, IsFree, no_entry, IsCollection,
  some_members,
}

pub record Cell : Type 0 where
  pub entry : Entry
  pub remains : ℤ
  pub number : ℤ

abbrev pub Table : Type 0
Table = List ℕ → Cell

abbrev pub put : Table → List ℕ → Cell → Table
put t k c j = if same_text j k then c else t j

abbrev pub empty : Table
empty k = record { entry = missing; remains = pos 0; number = pos 0 }

abbrev pub with_member : List ℕ → Entry → Entry
with_member m missing = members (m ∷ [])
with_member m (string v) = string v
with_member m (members ms) = members (m ∷ ms)

abbrev pub without : List ℕ → List (List ℕ) → List (List ℕ)
without m [] = []
without m (x ∷ xs) = let rest = without m xs in if same_text m x then rest else x ∷ rest

abbrev pub members_of : List (List ℕ) → Entry
members_of [] = missing
members_of (x ∷ xs) = members (x ∷ xs)

abbrev pub without_member : List ℕ → Entry → Entry
without_member m missing = missing
without_member m (string v) = string v
without_member m (members ms) = members_of (without m ms)

abbrev pub write_new : Table → List ℕ → List ℕ → ℕ → Entry → Table × Bool
write_new t k v n missing = (put t k (record (t k) { entry = string v; remains = pos n }), true)
write_new t k v n (string w) = (t, false)
write_new t k v n (members ms) = (t, false)

abbrev pub change : Table → List ℕ → (Entry → Entry) → Table
change t k f = put t k (record (t k) { entry = f (t k).entry })

abbrev pub step_by : (ℤ → ℤ) → Table → List ℕ → Table × ℤ
step_by f t k = (put t k (record (t k) { number = f (t k).number }), f (t k).number)

pub other : (t : Table) (k j : List ℕ) (c : Cell) → j ≢ k → put t k c j ≡ t j
other t k j c ne = rw (ne→same_text j k ne) refl

pub same : (t : Table) (k : List ℕ) (c : Cell) → put t k c k ≡ c
same t k c = rw (same_text_refl k) refl

pub other-write_new :
    (t : Table) (k v : List ℕ) (n : ℕ) (e : Entry) (j : List ℕ)
    → j ≢ k
    → (write_new t k v n e).0 j ≡ t j
other-write_new t k v n missing j ne = other t k j _ ne
other-write_new t k v n (string w) j ne = refl
other-write_new t k v n (members ms) j ne = refl

pub write_new-free :
    (t : Table) (k v : List ℕ) (n : ℕ) (e : Entry)
    → IsFree e
    → ((write_new t k v n e).1 ≡ true) × (((write_new t k v n e).0 k).entry ≡ string v)
write_new-free t k v n missing no_entry = (refl, ap (λ c. c.entry) (same t k _))
write_new-free t k v n (string w) free = elim free [ ]
write_new-free t k v n (members ms) free = elim free [ ]

pub write_new-taken :
    (t : Table) (k v : List ℕ) (n : ℕ) (e : Entry) → ¬ IsFree e → write_new t k v n e ≡ (t, false)
write_new-taken t k v n missing taken = absurd (taken no_entry)
write_new-taken t k v n (string w) taken = refl
write_new-taken t k v n (members ms) taken = refl

pub listed-with_member :
    (m x : List ℕ) (e : Entry)
    → IsCollection e
    → IsCollection (with_member m e)
      × (listed (elements (with_member m e)) x ≡ (same_text m x || listed (elements e) x))
listed-with_member m x missing no_entry = (some_members (m ∷ []), refl)
listed-with_member m x (string v) c = elim c [ ]
listed-with_member m x (members ms) (some_members _) = (some_members (m ∷ ms), refl)

same_text_trans : (a b c : List ℕ) → same_text a b ≡ true → same_text b c ≡ same_text a c
same_text_trans a b c h = ap (λ z. same_text z c) (sym (same_text→eq a b h))

same_text_euclid :
    (a b c : List ℕ) → same_text a c ≡ true → same_text b c ≡ true → same_text a b ≡ true
same_text_euclid a b c x y =
    ap (λ z. same_text a z) (same_text→eq b c y ∙ sym (same_text→eq a c x)) ∙ same_text_refl a

listed-without :
    (m x : List ℕ) (ms : List (List ℕ))
    → listed (without m ms) x ≡ (if same_text m x then false else listed ms x)
listed-without m x [] = ground arith
listed-without m x (y ∷ ys) =
    ground (arith, listed-without m x ys, same_text_trans m y x, same_text_euclid m y x)

IsCollection-members_of : (ms : List (List ℕ)) → IsCollection (members_of ms)
IsCollection-members_of [] = no_entry
IsCollection-members_of (x ∷ xs) = some_members (x ∷ xs)

elements-members_of : (ms : List (List ℕ)) → elements (members_of ms) ≡ ms
elements-members_of [] = refl
elements-members_of (x ∷ xs) = refl

pub listed-without_member :
    (m x : List ℕ) (e : Entry)
    → IsCollection e
    → IsCollection (without_member m e)
      × (listed (elements (without_member m e)) x
          ≡ (if same_text m x then false else listed (elements e) x))
listed-without_member m x missing no_entry = (no_entry, ground arith)
listed-without_member m x (string v) c = elim c [ ]
listed-without_member m x (members ms) (some_members _) = (
  IsCollection-members_of (without m ms),
  ap (λ l. listed l x) (elements-members_of (without m ms)) ∙ listed-without m x ms,
)

abbrev pub entry_at : Table → List ℕ → Entry
entry_at t k = (t k).entry

abbrev pub table : Redis
table = record {
  Store = Table;
  look = entry_at;
  ttl = λ t k. (t k).remains;
  count = λ t k. (t k).number;
  set = λ t k v n. put t k (record (t k) { entry = string v; remains = pos n });
  set_nx = λ t k v n. write_new t k v n (entry_at t k);
  del = λ t k. put t k (record (t k) { entry = missing });
  s_add = λ t k m. change t k (with_member m);
  s_rem = λ t k m. change t k (without_member m);
  incr = step_by inc;
  decr = step_by dec;
  look-set = λ t k v n j ne. ap (λ c. c.entry) (other t k j _ ne);
  look-set_nx = λ t k v n j ne. ap (λ c. c.entry) (other-write_new t k v n (entry_at t k) j ne);
  look-del = λ t k j ne. ap (λ c. c.entry) (other t k j _ ne);
  look-s_add = λ t k m j ne. ap (λ c. c.entry) (other t k j _ ne);
  look-s_rem = λ t k m j ne. ap (λ c. c.entry) (other t k j _ ne);
  look-incr = λ t k j ne. ap (λ c. c.entry) (other t k j _ ne);
  look-decr = λ t k j ne. ap (λ c. c.entry) (other t k j _ ne);
  count-set_nx = λ t k v n j ne. ap (λ c. c.number) (other-write_new t k v n (entry_at t k) j ne);
  count-del = λ t k j ne. ap (λ c. c.number) (other t k j _ ne);
  count-s_add = λ t k m j ne. ap (λ c. c.number) (other t k j _ ne);
  set_nx_free = λ t k v n free. write_new-free t k v n (entry_at t k) free;
  set_nx_taken = λ t k v n taken. write_new-taken t k v n (entry_at t k) taken;
  del_lem = λ t k. ap (λ c. c.entry) (same t k _);
  s_add_lem = λ t k m x c.
      rw (← sym (ap (λ c. c.entry) (same t k (record (t k) { entry = with_member m (t k).entry }))))
        (listed-with_member m x (entry_at t k) c);
  s_rem_lem = λ t k m x c.
      rw
        (← sym
          (ap (λ c. c.entry) (same t k (record (t k) { entry = without_member m (t k).entry }))))
        (listed-without_member m x (entry_at t k) c);
  ttl-set = λ t k v n. ap (λ c. c.remains) (same t k _);
  incr_lem = λ t k. (refl, ap (λ c. c.number) (same t k _));
  decr_lem = λ t k. ap (λ c. c.number) (same t k _);
}
