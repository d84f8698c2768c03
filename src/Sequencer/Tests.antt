-- ===== src/Sequencer/Tests.antt =====
-- Runs of the sequencer, and each theorem at an input that meets its hypotheses.
use sample_nodejs_server.Prelude.{ℕ, ◌≡◌, refl, true, [], ◌∷◌, arith}
use sample_nodejs_server.Sequencer.{
  PacketMeta, Sequencer, new_sequencer, push, slot_of, get_seq_no_pairs,
}
use sample_nodejs_server.Sequencer.Laws.{IsValid}

-- The packets of the repository's test, renumbered by five: 2, 3, 4, 7, 8.
sent : Sequencer
unfolding push
sent =
    let a = (push (new_sequencer 500 1000) 2 7 0 3 true).0 in
    let b = (push a 3 8 0 3 true).0 in
    let c = (push b 4 9 0 3 true).0 in let d = (push c 7 12 0 3 true).0 in (push d 8 13 0 3 true).0

abbrev entry : ℕ → ℕ → ℕ → PacketMeta
entry source target asked = record {
  source_seq_no = source;
  target_seq_no = target;
  timestamp = 0;
  last_nack = asked;
  layer = 3;
  misc = 0;
}

found : (get_seq_no_pairs sent 1050 (9 ∷ 10 ∷ 13 ∷ [])).1 ≡ entry 4 9 50 ∷ entry 8 13 50 ∷ []
unfolding sent get_seq_no_pairs slot_of
found = refl

sent-IsValid : IsValid sent
unfolding sent
sent-IsValid = omega arith
