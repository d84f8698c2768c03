-- ===== src/Factory/Tests.antt =====
-- The theorems at a factory with one or two SSRCs.
use sample_nodejs_server.Prelude.{ℕ, ◌≡◌, refl, List, [], ◌∷◌}
use sample_nodejs_server.Factory.{
  rtp_buffer_packet, new_buffer_factory, get_in, get_or_new, end_reader, close_buffer,
}
use sample_nodejs_server.Factory.Live.{Op, get, end_of_buffer, run, one_buffer}

-- The buffer of 7 is closed twice, with a new one made in between.
abbrev calls : List Op
calls =
    get rtp_buffer_packet 7
    ∷ (get rtp_buffer_packet 8
        ∷ (end_of_buffer 0 ∷ (get rtp_buffer_packet 7 ∷ (end_of_buffer 0 ∷ []))))

one_buffer_example :
    (◌≡◌ {A = ℕ} 2 2) × ((get_or_new (run new_buffer_factory calls) rtp_buffer_packet 7).1 ≡ 2)
unfolding get_or_new get_in close_buffer end_reader
one_buffer_example = one_buffer calls 2 2 refl refl refl
