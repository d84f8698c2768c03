-- ===== src/Buffer/Count.antt =====
-- How `calc` follows the sequence numbers: the number of cycles, and the requests for missing packets.
-- `cycles` is a multiple of 2^16, so `|` with a number of sixteen bits is `+`.
use sample_nodejs_server.Prelude.{
  ℕ, zero, suc, ◌+◌, ◌-◌, ◌%◌, ◌&&◌, Option, none, some, ltb, leb, ◌==◌, if◌then◌else◌, sub16,
  sub32, u32_mod,
}
use sample_nodejs_server.Nack.{NackQueue, push, remove}
use sample_nodejs_server.Buffer.State.{Buffer}

-- `maxSN`.
abbrev pub max_sn : ℕ
max_sn = 65536

-- The extended number of `sn`.
unfoldable pub ext_sn : ℕ → ℕ → ℕ → ℕ
ext_sn cycles max_seq_no sn =
    if ltb max_seq_no sn && leb 32768 sn && ltb max_seq_no 32768
    then sub32 cycles max_sn + sn
    else cycles + sn

-- The loop over `i`, with the rounds that are left.
unfoldable pub push_missing : NackQueue → ℕ → ℕ → ℕ → ℕ → ℕ → NackQueue
unfolding ext_sn push
push_missing n cycles max_seq_no sn i zero = n
push_missing n cycles max_seq_no sn i (suc rounds) =
    push_missing (push n (ext_sn cycles max_seq_no (sub16 sn i))) cycles max_seq_no sn (i + 1)
      rounds

unfoldable pub request_missing : Option NackQueue → ℕ → ℕ → ℕ → Option NackQueue
unfolding push_missing
request_missing none cycles max_seq_no sn = none
request_missing (some n) cycles max_seq_no sn =
    some (push_missing n cycles max_seq_no sn 1 (sub16 sn max_seq_no - 1))

unfoldable pub drop_request : Option NackQueue → ℕ → Option NackQueue
unfolding remove
drop_request none ext = none
drop_request (some n) ext = some (remove n ext)

-- The first packet, one ahead of the greatest number, or a late one.
unfoldable pub count_sn : Buffer → ℕ → ℕ → Buffer
unfolding request_missing drop_request ext_sn
count_sn b sn arrival =
    let cycles = if ltb sn b.max_seq_no then (b.cycles + max_sn) % u32_mod else b.cycles in
    if b.stats.packet_count == 0
    then record b { base_sn = sn; max_seq_no = sn; last_report = arrival }
    else if ltb (sub16 sn b.max_seq_no) 32768
    then record b {
      cycles = cycles;
      nacker = request_missing (b.nacker) cycles b.max_seq_no sn;
      max_seq_no = sn;
    }
    else record b { nacker = drop_request (b.nacker) (ext_sn b.cycles b.max_seq_no sn) }
