-- ===== src/Buffer/Waiting.antt =====
-- Packets that are written before the buffer is bound, and a buffer that is closed.
use mathlib.Core.List.{append_assoc, append-nil}
use sample_nodejs_server.Prelude.{
  ℕ, zero, suc, ◌+◌, ◌≤◌, ◌≡◌, refl, sym, ap, ◌∙◌, Bool, true, false, List, [], ◌∷◌, ◌++◌, map,
  none, arith, length, get_elem?, length-append, if_elim, le→ltb,
}
use sample_nodejs_server.Buffer.State.{Pending, Buffer, Event, Env}
use sample_nodejs_server.Buffer.Access.{
  write, Answer, read, end_of_file, sleeping, read_pending, read_packet, read_extended, close,
  fetch_packet,
}

-- `Write` of each packet at its time.
unfoldable pub write_all : Env → Buffer → List Pending → Buffer × List Event
unfolding write
write_all env b [] = (b, [])
write_all env b (pp ∷ pps) =
    let (b', events, _) = write env b (pp.packet) pp.arrival_time in
    let (b'', rest) = write_all env b' pps in (b'', events ++ rest)

-- As many calls of `Read`.
unfoldable pub read_all : Buffer → ℕ → ℕ → Buffer × List (Answer (List ℕ))
unfolding read_packet
read_all b capacity zero = (b, [])
read_all b capacity (suc k) =
    let (b', answer) = read_packet b capacity in
    let (b'', rest) = read_all b' capacity k in (b'', answer ∷ rest)

abbrev pub Fit : ℕ → List Pending → Type 0
Fit capacity [] = Unit
Fit capacity (pp ∷ pps) = (length (pp.packet) ≤ capacity) × Fit capacity pps

write_unbound :
    (env : Env) (b : Buffer) (pp : Pending)
    → b.closed ≡ false
    → b.bound ≡ false
    → write env b (pp.packet) pp.arrival_time
      ≡ (record b { p_packets = b.p_packets ++ (pp ∷ []) }, [], false)
unfolding write
write_unbound env b pp is_open unbound = rw (is_open, unbound) refl

abbrev with_pending : Buffer → List Pending → Buffer × List Event
with_pending b l = (record b { p_packets = l }, [])

write_all_unbound :
    (env : Env) (b : Buffer) (l : List Pending)
    → b.closed ≡ false
    → b.bound ≡ false
    → write_all env b l ≡ (record b { p_packets = b.p_packets ++ l }, [])
unfolding write_all
write_all_unbound env b [] is_open unbound =
    ap (λ (l : List Pending). with_pending b l) (sym (append-nil (b.p_packets)))
write_all_unbound env b (pp ∷ pps) is_open unbound =
    ap
      (λ (r : Buffer × List Event × Bool).
        ((write_all env r.0 pps).0, r.1 ++ (write_all env r.0 pps).1))
      (write_unbound env b pp is_open unbound)
    ∙ write_all_unbound env (record b { p_packets = b.p_packets ++ (pp ∷ []) }) pps is_open unbound
    ∙ ap (λ (l : List Pending). with_pending b l) (append_assoc (b.p_packets) (pp ∷ []) pps)

get_elem?-append :
    (before l : List Pending) → get_elem? (before ++ l) (length before) ≡ get_elem? l 0
get_elem?-append [] l = refl
get_elem?-append (p ∷ ps) l = get_elem?-append ps l

-- The packets from the read position on.
record Next (b : Buffer) (l : List Pending) : Type 0 where
  is_open : b.closed ≡ false
  before : List Pending
  all : b.p_packets ≡ before ++ l
  position : b.last_packet_read ≡ length before

Next-elem :
    (b : Buffer) (l : List Pending)
    → Next b l
    → get_elem? (b.p_packets) b.last_packet_read ≡ get_elem? l 0
Next-elem b l n = rw (n.all, n.position) (get_elem?-append (n.before) l)

read-Next :
    (b : Buffer) (capacity : ℕ) (pp : Pending) (l : List Pending)
    → Next b (pp ∷ l)
    → length (pp.packet) ≤ capacity
    → read_packet b capacity
      ≡ (record b { last_packet_read = b.last_packet_read + 1 }, read (pp.packet))
unfolding read_packet read_pending
read-Next b capacity pp l n fits =
    rw (n.is_open, Next-elem b (pp ∷ l) n, le→ltb capacity (length (pp.packet)) fits) refl

read_none : (b : Buffer) (capacity : ℕ) → Next b [] → read_packet b capacity ≡ (b, sleeping)
unfolding read_packet read_pending
read_none b capacity n = rw (n.is_open, Next-elem b [] n) refl

read_all-Next :
    (b : Buffer) (capacity : ℕ) (l : List Pending)
    → Next b l
    → Fit capacity l
    → (read_all b capacity (suc (length l))).1
      ≡ map (λ (pp : Pending). read (pp.packet)) l ++ (sleeping ∷ [])
unfolding read_all
read_all-Next b capacity [] n f =
    ap (λ (r : Buffer × Answer (List ℕ)). r.1 ∷ []) (read_none b capacity n)
read_all-Next b capacity (pp ∷ pps) n f =
    ap (λ (r : Buffer × Answer (List ℕ)). r.1 ∷ (read_all r.0 capacity (suc (length pps))).1)
      (read-Next b capacity pp pps n f.0)
    ∙ ap (λ l. read (pp.packet) ∷ l)
        (read_all-Next (record b { last_packet_read = b.last_packet_read + 1 }) capacity pps
          (record {
            is_open = n.is_open;
            before = n.before ++ (pp ∷ []);
            all = n.all ∙ sym (append_assoc (n.before) (pp ∷ []) pps);
            position = omega (arith, n.position, length-append (n.before) (pp ∷ []));
          })
          f.1)

-- On a buffer that is open, not bound and has nothing to read, packets written one after the other
-- are read back unchanged in the order of the writes, by as many reads into a slice that is long
-- enough for each; the read after them waits.
pub read_all-write_all :
    (env : Env) (b : Buffer) (capacity : ℕ) (l : List Pending)
    → b.closed ≡ false
    → b.bound ≡ false
    → b.last_packet_read ≡ length (b.p_packets)
    → Fit capacity l
    → (read_all (write_all env b l).0 capacity (suc (length l))).1
      ≡ map (λ (pp : Pending). read (pp.packet)) l ++ (sleeping ∷ [])
read_all-write_all env b capacity l is_open unbound at_end f =
    ap (λ (r : Buffer × List Event). (read_all r.0 capacity (suc (length l))).1)
      (write_all_unbound env b l is_open unbound)
    ∙ read_all-Next (record b { p_packets = b.p_packets ++ l }) capacity l
        (record { is_open = is_open; before = b.p_packets; all = refl; position = at_end }) f

close-closed : (b : Buffer) → (close b).0.closed ≡ true
unfolding close
close-closed b =
    if_elim (λ (r : Buffer × List Event). r.0.closed ≡ true) b.closed (λ c. c) (λ _. refl)

-- `Close` a second time does nothing, and every access to a closed buffer returns the end of file
-- and leaves the buffer as it is.
pub closed_answers :
    (env : Env) (b : Buffer) (pkt : List ℕ) (now capacity sn : ℕ)
    → let c = (close b).0 in
      (close c ≡ (c, []))
      × (write env c pkt now ≡ (c, [], true))
      × (read_packet c capacity ≡ (c, end_of_file))
      × (read_extended c ≡ (c, end_of_file))
      × (fetch_packet c capacity sn ≡ none)
closed_answers env b pkt now capacity sn =
    let e = close-closed b in
    (
      unfold close in rw (e) refl,
      unfold write in rw (e) refl,
      unfold read_packet in rw (e) refl,
      unfold read_extended in rw (e) refl,
      unfold fetch_packet in rw (e) refl,
    )
