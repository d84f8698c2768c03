-- ===== src/Bucket/Tests.antt =====
-- Runs of the bucket on small packets, and each theorem at an input that meets its hypotheses.
use sample_nodejs_server.Prelude.{ℕ, ◌<◌, ◌≡◌, refl, List, [], ◌∷◌, none, some, arith}
use sample_nodejs_server.Bucket.{Bucket, err, rtx_packet, new_bucket, get, add_packet}
use sample_nodejs_server.Bucket.Inv.{IsValid, new_bucket-IsValid}
use sample_nodejs_server.Bucket.Packets.{add_packet-IsValid}
use sample_nodejs_server.Bucket.Spec.{Window, Refines, Fits, add_all, add_all-Refines}

abbrev pkt : ℕ → List ℕ
pkt sn = 128 ∷ 96 ∷ 0 ∷ sn ∷ 7 ∷ []

-- Three slots over a zeroed array.
fresh : Bucket
unfolding new_bucket
fresh = new_bucket (λ _. 0) 4500

one_three : Bucket
unfolding add_packet fresh
one_three = (add_packet (add_packet fresh (pkt 1)).0 (pkt 3)).0

fresh-IsValid : IsValid fresh
unfolding fresh
fresh-IsValid = new_bucket-IsValid (λ _. 0) 4500 (omega arith) (omega arith)

one_three-IsValid : IsValid one_three
unfolding one_three
one_three-IsValid =
    add_packet-IsValid (pkt 3)
      (add_packet-IsValid (pkt 1) fresh-IsValid (omega arith) (omega arith)) (omega arith)
      (omega arith)

window :
    (get one_three 1 ≡ some (pkt 1)) × (get one_three 2 ≡ none) × (get one_three 3 ≡ some (pkt 3))
unfolding one_three get
window = (refl, refl, refl)

late_fills_gap : get (add_packet one_three (pkt 2)).0 2 ≡ some (pkt 2)
unfolding one_three get add_packet
late_fills_gap = refl

-- The first packet of a stream over a zeroed array is number 1, and number 0 comes late.
zero_is_refused : (add_packet (add_packet fresh (pkt 1)).0 (pkt 0)).1 ≡ err rtx_packet
unfolding add_packet fresh
zero_is_refused = refl

first_only : Bucket
unfolding add_packet fresh
first_only = (add_packet fresh (pkt 1)).0

-- The window that the bucket shows.
abbrev shown : Window
shown = record { head = one_three.head_sn; width = one_three.max_steps; held = get one_three }

pkt-Fits : (sn : ℕ) → sn < 256 → Fits (pkt sn)
pkt-Fits sn h = record { sn_word = omega arith; low = omega arith; high = omega arith }

add_all-Refines_example :
    Refines
      (add_all one_three shown (pkt 2 ∷ pkt 5 ∷ [])).0
      (add_all one_three shown (pkt 2 ∷ pkt 5 ∷ [])).1
unfolding one_three add_packet
add_all-Refines_example =
    add_all-Refines one_three shown (pkt 2 ∷ pkt 5 ∷ [])
      (record {
        valid = one_three-IsValid;
        started = refl;
        in_step = refl;
        head = refl;
        width = refl;
        held = λ s h. refl;
      })
      (pkt-Fits 2 (omega arith), (pkt-Fits 5 (omega arith), tt))
