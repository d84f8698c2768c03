-- ===== src/DownTrack/Simple.antt =====
-- `WriteRTP` of a track that is not simulcast.
use sample_nodejs_server.Prelude.{
  ℕ, Bool, false, not, ◌&&◌, List, [], ◌∷◌, Option, none, some, ◌==◌, if◌then◌else◌, length, sub16,
  sub32,
}
use sample_nodejs_server.Sequencer.{Sequencer, push}
use sample_nodejs_server.DownTrack.State.{
  DownTrack, Packet, ExtPacket, Action, send_pli, write_rtp, is_video, update_stats,
}

-- A track without a sequencer, for audio, pushes nothing; the result points to the new entry.
unfoldable pub push_to : Option Sequencer → ℕ → ℕ → ℕ → ℕ → Bool → Option Sequencer × Option ℕ
unfolding push
push_to none sn new_sn new_ts layer head = (none, none)
push_to (some n) sn new_sn new_ts layer head =
    let (n', entry) = push n sn new_sn new_ts layer head in (some n', entry)

unfoldable pub sequence : DownTrack → ℕ → ℕ → ℕ → ℕ → Bool → DownTrack × Option ℕ
unfolding push_to
sequence d sn new_sn new_ts layer head =
    let (s, entry) = push_to (d.sequencer) sn new_sn new_ts layer head in
    (record d { sequencer = s }, entry)

abbrev pub remember : DownTrack → Bool → ℕ → ℕ → DownTrack
remember d head new_sn new_ts = if head then record d { last_sn = new_sn; last_ts = new_ts } else d

abbrev pub rewritten : DownTrack → Packet → ℕ → ℕ → List ℕ → Packet
rewritten d p new_sn new_ts payload = record p {
  payload_type = d.payload_type;
  timestamp = new_ts;
  sequence_number = new_sn;
  ssrc = d.ssrc;
  payload = payload;
}

-- The new offsets after a start; 0 stands for no last number.
unfoldable pub resync_simple : DownTrack → Packet → DownTrack
resync_simple d p =
    let moved = record d {
      sn_offset = sub16 (sub16 p.sequence_number d.last_sn) 1;
      ts_offset = sub32 (sub32 p.timestamp d.last_ts) 1;
    } in
    record (if d.last_sn == 0 then d else moved) { last_ssrc = p.ssrc; re_sync = false }

unfoldable pub forward_simple : DownTrack → ExtPacket → DownTrack × List Action
unfolding update_stats sequence
forward_simple d p =
    let new_sn = sub16 p.packet.sequence_number d.sn_offset in
    let new_ts = sub32 p.packet.timestamp d.ts_offset in
    let (d₁, _) =
      sequence (update_stats d (length p.packet.payload)) p.packet.sequence_number new_sn new_ts 0
        p.head in
    (
      remember d₁ p.head new_sn new_ts,
      write_rtp (rewritten d p.packet new_sn new_ts p.packet.payload) ∷ [],
    )

unfoldable pub write_simple : DownTrack → ExtPacket → DownTrack × List Action
unfolding is_video resync_simple forward_simple
write_simple d p =
    if d.re_sync
    then (if is_video d && not p.key_frame
        then (d, send_pli d.ssrc p.packet.ssrc ∷ [])
        else forward_simple (resync_simple d p.packet) p)
    else forward_simple d p
