-- ===== src/Nack/Tests.antt =====
-- Runs of the queue, and each theorem at an input that meets its hypotheses.
use sample_nodejs_server.Prelude.{ℕ, List, ◌≡◌, refl, true, [], ◌∷◌, arith}
use sample_nodejs_server.Nack.{NackQueue, push, pairs}
use sample_nodejs_server.Nack.Queue.{insert_sorted}
use sample_nodejs_server.Nack.Copies.{copies}
use sample_nodejs_server.Nack.Patience.{pairs_all, pairs_gives_up}

abbrev lost : NackQueue
lost = record {
  nacks =
      record { sn = 65538; nacked = 0 }
      ∷ record { sn = 65540; nacked = 4 }
      ∷ record { sn = 65560; nacked = 5 }
      ∷ [];
  kf_sn = 7;
}

-- One pair for 2 and 4, and a keyframe for the number that was given up.
pairs-lost : pairs lost 70000 ≡ (
  record {
    nacks = record { sn = 65538; nacked = 1 } ∷ record { sn = 65540; nacked = 5 } ∷ [];
    kf_sn = 65560;
  },
  record { packet_id = 2; lost_packets = 2 } ∷ [],
  true,
)
unfolding pairs
pairs-lost = refl

push_in_order : (push lost 65539).nacks ≡ insert_sorted 65539 lost.nacks
unfolding push insert_sorted
push_in_order = refl

abbrev lost_zero : NackQueue
lost_zero = record { nacks = record { sn = 131072; nacked = 0 } ∷ []; kf_sn = 0 }

abbrev six_heads : List ℕ
six_heads = 70000 ∷ 70001 ∷ 70002 ∷ 70003 ∷ 70004 ∷ 70005 ∷ []

abbrev waiting : NackQueue
waiting = record { nacks = record { sn = 65538; nacked = 0 } ∷ []; kf_sn = 65530 }

pairs_gives_up_example :
    (copies 65538 (pairs_all waiting six_heads).0.nacks ≡ 0)
    × ((pairs_all waiting six_heads).1 ≡ true)
unfolding copies
pairs_gives_up_example =
    pairs_gives_up waiting 65538 six_heads (omega arith, tt) (omega arith) (omega arith)
      (omega arith, (omega arith, (omega arith, (omega arith, (omega arith, (omega arith, tt))))))
      (omega arith)
