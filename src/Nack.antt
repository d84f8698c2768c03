-- ===== src/Nack.antt =====
-- ion-sfu/pkg/mediatransportutil/nack/nack.go: the queue of sequence numbers that are still to be
-- requested again. Extended sequence numbers are 32-bit words.
pub mod Queue
pub mod Copies
pub mod Overflow
pub mod Rounds
pub mod Patience
mod Tests
use Prim.Native.Nat.{bit_or}
use sample_nodejs_server.Prelude.{
  ℕ, ◌+◌, ◌%◌, ◌^◌, Bool, true, false, not, ◌&&◌, ◌||◌, List, [], ◌∷◌, ◌++◌, ltb, leb, ◌==◌,
  if◌then◌else◌, length, get_or, take, drop, add16, sub16, sub32,
}
use sample_nodejs_server.Prelude.Search.{search_index}

abbrev pub max_nack_times : ℕ
max_nack_times = 5

abbrev pub max_nack_cache : ℕ
max_nack_cache = 100

pub record Nack : Type 0 where
  pub sn : ℕ
  pub nacked : ℕ

pub record NackQueue : Type 0 where
  pub nacks : List Nack
  pub kf_sn : ℕ

abbrev pub new_queue : NackQueue
new_queue = record { nacks = []; kf_sn = 0 }

abbrev pub sn_at : List Nack → ℕ → ℕ
sn_at l i = (get_or l i (record { sn = 0; nacked = 0 })).sn

-- `sort.Search(len(n.nacks), func(i int) bool { return n.nacks[i].sn >= extSN })`.
abbrev pub find_index : List Nack → ℕ → ℕ
find_index l ext_sn = search_index (length l) (λ i. leb ext_sn (sn_at l i))

unfoldable pub remove : NackQueue → ℕ → NackQueue
unfolding search_index
remove n ext_sn =
    let i = find_index n.nacks ext_sn in
    if leb (length n.nacks) i || not (sn_at n.nacks i == ext_sn)
    then n
    else record n { nacks = take i n.nacks ++ drop (i + 1) n.nacks }

-- `copy(n.nacks, n.nacks[1:])`: the length stays, so the last entry stands twice.
unfoldable pub shift_down : List Nack → List Nack
shift_down [] = []
shift_down (a ∷ []) = a ∷ []
shift_down (a ∷ b ∷ l) = b ∷ shift_down (b ∷ l)

unfoldable pub insert_at : List Nack → ℕ → Nack → List Nack
insert_at l i nck = if i == length l then l ++ (nck ∷ []) else take i l ++ (nck ∷ drop i l)

unfoldable pub push : NackQueue → ℕ → NackQueue
unfolding search_index insert_at shift_down
push n ext_sn =
    let i = find_index n.nacks ext_sn in
    let grown = insert_at n.nacks i (record { sn = ext_sn; nacked = 0 }) in
    if ltb i (length n.nacks) && sn_at n.nacks i == ext_sn
    then n
    else record n { nacks = if leb max_nack_cache (length grown) then shift_down grown else grown }

-- `rtcp.NackPair`: a packet and a bitmap of the sixteen after it.
pub record NackPair : Type 0 where
  pub packet_id : ℕ
  pub lost_packets : ℕ

-- The variables of the loop in `Pairs`; `kept` is `n.nacks[:i]`.
pub record Round : Type 0 where
  pub kept : List Nack
  pub kf_sn : ℕ
  pub ask_kf : Bool
  pub np : NackPair
  pub nps : List NackPair

-- `1 << s` in 16 bits.
abbrev pub bit16 : ℕ → ℕ
bit16 s = if ltb s 16 then 2 ^ s else 0

-- The rest of the body once the entry's count is raised.
unfoldable pub ask : Round → ℕ → Round
ask r sn16 =
    if r.np.packet_id == 0 || ltb (add16 r.np.packet_id 16) sn16
    then record r {
      np = record { packet_id = sn16; lost_packets = 0 };
      nps = if r.np.packet_id == 0 then r.nps else r.nps ++ (r.np ∷ []);
    }
    else record r {
      np = record {
        packet_id = r.np.packet_id;
        lost_packets = bit_or r.np.lost_packets (bit16 (sub16 (sub16 sn16 r.np.packet_id) 1));
      };
    }

unfoldable pub visit : ℕ → Round → Nack → Round
unfolding ask
visit head_sn r nck =
    if leb max_nack_times nck.nacked
    then (if ltb r.kf_sn nck.sn then record r { kf_sn = nck.sn; ask_kf = true } else r)
    else if leb (sub32 head_sn 2) nck.sn
    then record r { kept = r.kept ++ (nck ∷ []) }
    else ask (record r { kept = r.kept ++ (record nck { nacked = nck.nacked + 1 } ∷ []) })
        (nck.sn % 65536)

unfoldable pub visit_all : ℕ → Round → List Nack → Round
unfolding visit
visit_all head_sn r [] = r
visit_all head_sn r (nck ∷ l) = visit_all head_sn (visit head_sn r nck) l

-- The first round starts with no pair begun.
abbrev pub start : NackQueue → Round
start n = record {
  kept = [];
  kf_sn = n.kf_sn;
  ask_kf = false;
  np = record { packet_id = 0; lost_packets = 0 };
  nps = [];
}

abbrev pub finish : Round → NackQueue × List NackPair × Bool
finish r = (
  record { nacks = r.kept; kf_sn = r.kf_sn },
  (if r.np.packet_id == 0 then r.nps else r.nps ++ (r.np ∷ [])),
  r.ask_kf,
)

unfoldable pub pairs : NackQueue → ℕ → NackQueue × List NackPair × Bool
unfolding visit_all
pairs n head_sn =
    let looped = finish (visit_all head_sn (start n) n.nacks) in
    if length n.nacks == 0 then (n, [], false) else looped
