-- ===== src/Buffer/Tests.antt =====
-- Each theorem at a concrete buffer.
use sample_nodejs_server.Prelude.{
  ℕ, ◌-◌, ◌≡◌, refl, true, false, List, [], ◌∷◌, some, none, arith, ◌==◌, if◌then◌else◌,
}
use sample_nodejs_server.Bucket.{Bucket, ok, new_bucket, add_packet}
use sample_nodejs_server.Bucket.Inv.{new_bucket-IsValid}
use sample_nodejs_server.Nack.{new_queue}
use sample_nodejs_server.Nack.Copies.{copies}
use sample_nodejs_server.Buffer.State.{Buffer, Pending, RtpPacket, Env, new_buffer, no_stats, audio}
use sample_nodejs_server.Buffer.Count.{count_sn}
use sample_nodejs_server.Buffer.Reports.{build_reception_report}
use sample_nodejs_server.Buffer.Calc.{calc}
use sample_nodejs_server.Buffer.Access.{read, sleeping, fetch_packet}
use sample_nodejs_server.Buffer.Gaps.{requested, gap_then_late}
use sample_nodejs_server.Buffer.Losses.{report_interval}
use sample_nodejs_server.Buffer.Waiting.{write_all, read_all, read_all-write_all}
use sample_nodejs_server.Buffer.Inv.{IsValid}
use sample_nodejs_server.Buffer.Packets.{calc-IsValid, fetch-calc}

-- A parser that knows one packet.
abbrev one_packet : RtpPacket
one_packet = record {
  packet = record {
    payload_type = 111;
    marker = false;
    sequence_number = 7;
    timestamp = 960;
    ssrc = 4;
    payload = 1 ∷ [];
  };
  extension = λ _. none;
}

abbrev any_env : Env
any_env = record {
  parse = λ _. some one_packet;
  parse_level = λ _. none;
  hears_level = false;
  lost_rate = λ _ _. 0;
  next_jitter = λ _ _. 0;
  jitter_word = λ _. 0;
  scaled_bitrate = λ br _. br;
}

abbrev slots : Bucket
slots = new_bucket (λ _. 0) 3000

-- An audio buffer with two slots, and a video buffer that has counted ten packets.
abbrev audio_buffer : Buffer
audio_buffer = record (new_buffer 4) { bucket = some slots; codec_type = audio; bound = true }

abbrev counting : Buffer
counting = record (new_buffer 4) {
  nacker = some new_queue;
  max_seq_no = 20;
  base_sn = 11;
  bound = true;
  stats = record no_stats { packet_count = 10; last_expected = 5; last_received = 5 };
}

gap_then_late_example :
    (requested (count_sn counting 24 1).nacker 22 ≡ 1)
    × (requested (count_sn (count_sn counting 24 1) 22 2).nacker 22 ≡ (
        if 22 == 22
        then requested (count_sn counting 24 1).nacker 22 - 1
        else requested (count_sn counting 24 1).nacker 22))
unfolding copies
gap_then_late_example =
    gap_then_late counting new_queue 24 22 22 1 2 refl tt (omega arith) (omega arith) (omega arith)
      (omega arith) (omega arith) (omega arith)

abbrev at_half : Buffer
at_half = record counting { max_seq_no = 32767 }

-- Five packets were expected and none came.
abbrev starved : Buffer
starved = record counting {
  stats = record no_stats { packet_count = 5; last_expected = 5; last_received = 5 };
}

report_interval_example :
    ((build_reception_report any_env 1 starved).1.fraction_lost ≡ 0)
    × ((build_reception_report any_env 1 starved).0.stats.last_expected ≡ 10)
    × ((build_reception_report any_env 1 starved).0.stats.last_received ≡ 5)
report_interval_example =
    report_interval any_env 1 starved
      (record {
        expected_on = omega arith;
        received_on = omega arith;
        count_word = omega arith;
        short = omega arith;
      })
      (omega arith)

abbrev with_late : Buffer
with_late = record counting {
  stats = record no_stats { packet_count = 11; last_expected = 5; last_received = 5 };
}

abbrev pending : List Pending
pending =
    record { arrival_time = 5; packet = 128 ∷ 111 ∷ [] }
    ∷ record { arrival_time = 6; packet = 128 ∷ [] }
    ∷ []

read_all-write_all_example :
    (read_all (write_all any_env (new_buffer 4) pending).0 1500 3).1
    ≡ read (128 ∷ 111 ∷ []) ∷ read (128 ∷ []) ∷ sleeping ∷ []
read_all-write_all_example =
    read_all-write_all any_env (new_buffer 4) 1500 pending refl refl refl
      (omega arith, (omega arith, tt))

-- Its number is 7.
abbrev bytes : List ℕ
bytes = 128 ∷ 111 ∷ 0 ∷ 7 ∷ 1 ∷ []

audio_buffer-IsValid : IsValid audio_buffer
audio_buffer-IsValid = record {
  whole_cycles = refl;
  cycles_word = omega arith;
  max_word = omega arith;
  base_word = omega arith;
  slots = new_bucket-IsValid (λ _. 0) 3000 (omega arith) (omega arith);
  order = tt;
}

calc-IsValid_example : IsValid (calc any_env audio_buffer bytes 9 9).0
calc-IsValid_example =
    calc-IsValid any_env bytes 9 9 audio_buffer-IsValid (omega arith) (omega arith)

fetch-calc_example : fetch_packet (calc any_env audio_buffer bytes 9 9).0 1500 7 ≡ some (ok bytes)
unfolding add_packet new_bucket
fetch-calc_example =
    fetch-calc any_env audio_buffer bytes 9 9 1500 audio_buffer-IsValid refl refl (omega arith)
      (omega arith) (omega arith) refl (omega arith)
