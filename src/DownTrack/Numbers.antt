-- ===== src/DownTrack/Numbers.antt =====
-- The numbers under which a track that is not simulcast sends on its packets.
use sample_nodejs_server.Prelude.{
  ℕ, ◌+◌, ◌-◌, ◌%◌, ◌<◌, ◌≡◌, refl, ◌∙◌, Bool, true, false, not, ◌&&◌, List, [], ◌∷◌, ◌++◌, arith,
  ◌==◌, if◌then◌else◌, map, add16, sub16, sub32, u32_mod, if_elim, Bool-cases, inl, inr,
}
use sample_nodejs_server.DownTrack.State.{
  DownTrack, Packet, ExtPacket, Action, send_pli, write_rtp, is_video, update_stats, mute,
}
use sample_nodejs_server.DownTrack.Simple.{
  sequence, rewritten, resync_simple, forward_simple, write_simple,
}

-- The number and the timestamp that go out on a track that waits for no start.
abbrev pub out_sn : DownTrack → Packet → ℕ
out_sn d p = sub16 p.sequence_number d.sn_offset

abbrev pub out_ts : DownTrack → Packet → ℕ
out_ts d p = sub32 p.timestamp d.ts_offset

-- A packet as a running track sends it on, field by field: the marker and the payload stay.
abbrev pub sent : DownTrack → Packet → Packet
sent d p = record {
  payload_type = d.payload_type;
  marker = p.marker;
  sequence_number = (p.sequence_number + 65536 - d.sn_offset) % 65536;
  timestamp = (p.timestamp + 4294967296 - d.ts_offset) % 4294967296;
  ssrc = d.ssrc;
  payload = p.payload;
}

-- A list of packets, one after the other.
unfoldable pub write_all : DownTrack → List ExtPacket → DownTrack × List Action
unfolding write_simple
write_all d [] = (d, [])
write_all d (p ∷ ps) =
    let (d', out) = write_simple d p in let (d'', rest) = write_all d' ps in (d'', out ++ rest)

pub running :
    (d : DownTrack) (p : ExtPacket) → d.re_sync ≡ false → write_simple d p ≡ forward_simple d p
unfolding write_simple
running d p e = if_elim (λ r. r ≡ forward_simple d p) d.re_sync (λ f. cc) (λ _. refl)

pub record Kept (d d' : DownTrack) : Type 0 where
  pub payload_type : d'.payload_type ≡ d.payload_type
  pub ssrc : d'.ssrc ≡ d.ssrc
  pub re_sync : d'.re_sync ≡ d.re_sync
  pub sn_offset : d'.sn_offset ≡ d.sn_offset
  pub ts_offset : d'.ts_offset ≡ d.ts_offset

pub forward-Kept : (d : DownTrack) (p : ExtPacket) → Kept d (forward_simple d p).0
unfolding forward_simple sequence update_stats
forward-Kept d p =
    if_elim (Kept d) p.head
      (λ _. record {
        payload_type = refl;
        ssrc = refl;
        re_sync = refl;
        sn_offset = refl;
        ts_offset = refl;
      })
      (λ _. record {
        payload_type = refl;
        ssrc = refl;
        re_sync = refl;
        sn_offset = refl;
        ts_offset = refl;
      })

-- Sending depends on nothing else.
sent_same : (d d' : DownTrack) (p : Packet) → Kept d d' → sent d' p ≡ sent d p
sent_same d d' p k = ground (arith, k.payload_type, k.ssrc, k.sn_offset, k.ts_offset)

sent_all :
    (d d' : DownTrack) (ps : List ExtPacket)
    → Kept d d'
    → map (λ (p : ExtPacket). write_rtp (sent d' (p.packet))) ps
      ≡ map (λ (p : ExtPacket). write_rtp (sent d (p.packet))) ps
sent_all d d' [] k = refl
sent_all d d' (p ∷ ps) k = rw (sent_same d d' (p.packet) k, sent_all d d' ps k)

-- A track that is not simulcast and waits for no start sends on every packet of a list that is
-- written to it, in order, each with the track's payload type and SSRC, with its own marker and
-- payload, and with its own number and timestamp less the offsets that the track had before the
-- first, modulo 2^16 and 2^32.
pub write_all-sent :
    (d : DownTrack) (ps : List ExtPacket)
    → d.re_sync ≡ false
    → (write_all d ps).1 ≡ map (λ (p : ExtPacket). write_rtp (sent d (p.packet))) ps
unfolding write_all
write_all-sent d [] e = refl
write_all-sent d (p ∷ ps) e =
    let k = forward-Kept d p in
    rw
      (
        running d p e,
        write_all-sent (forward_simple d p).0 ps (k.re_sync ∙ e),
        sent_all d (forward_simple d p).0 ps k,
      )
      (unfold forward_simple in refl)

-- The first packet after a start goes out, be it a key frame or not of video, under the number and
-- the timestamp next to the last ones; but if the last number was 0, under its own less the old
-- offsets. The track then runs.
pub write_simple_start :
    (d : DownTrack) (p : ExtPacket)
    → d.re_sync ≡ true
    → (is_video d && not p.key_frame) ≡ false
    → p.packet.sequence_number < 65536
    → p.packet.timestamp < 4294967296
    → d.last_sn < 65536
    → d.last_ts < 4294967296
    → let sn = if d.last_sn == 0 then out_sn d (p.packet) else add16 d.last_sn 1 in
      let ts = if d.last_sn == 0 then out_ts d (p.packet) else (d.last_ts + 1) % u32_mod in
      ((write_simple d p).1 ≡ write_rtp (rewritten d (p.packet) sn ts p.packet.payload) ∷ [])
      × ((write_simple d p).0.re_sync ≡ false)
unfolding write_simple forward_simple resync_simple sequence update_stats
write_simple_start d p waits starts sn_word ts_word last_word last_ts_word =
    if_elim
      (λ (r : DownTrack × List Action).
        (r.1 ≡ write_rtp (rewritten d (p.packet) start_sn start_ts p.packet.payload) ∷ [])
        × (r.0.re_sync ≡ false))
      d.re_sync
      (λ _.
        if_elim
          (λ (r : DownTrack × List Action).
            (r.1 ≡ write_rtp (rewritten d (p.packet) start_sn start_ts p.packet.payload) ∷ [])
            × (r.0.re_sync ≡ false))
          (is_video d && not p.key_frame) (λ f. cc) (λ _. started))
      (λ f. cc)
  where
    start_sn : ℕ
    start_sn = if d.last_sn == 0 then out_sn d (p.packet) else add16 d.last_sn 1

    start_ts : ℕ
    start_ts = if d.last_sn == 0 then out_ts d (p.packet) else (d.last_ts + 1) % u32_mod

    started :
        ((forward_simple (resync_simple d (p.packet)) p).1
          ≡ write_rtp (rewritten d (p.packet) start_sn start_ts p.packet.payload) ∷ [])
        × ((forward_simple (resync_simple d (p.packet)) p).0.re_sync ≡ false)
    started = (
      elim (Bool-cases (d.last_sn == 0)) [
        | inl none_sent ↦ rw none_sent refl
        | inr some_sent ↦
            let sn_eq : sub16 p.packet.sequence_number
                  (sub16 (sub16 p.packet.sequence_number d.last_sn) 1)
                ≡ add16 d.last_sn 1 =
              omega arith in
            let ts_eq : sub32 p.packet.timestamp (sub32 (sub32 p.packet.timestamp d.last_ts) 1)
                ≡ (d.last_ts + 1) % u32_mod =
              omega arith in
            rw (some_sent, sn_eq, ts_eq) refl
      ],
      if_elim (λ (r : DownTrack). r.re_sync ≡ false) p.head (λ _. refl) (λ _. refl),
    )

-- No packet of the list is a key frame.
abbrev pub NoKeyFrame : List ExtPacket → Type 0
NoKeyFrame [] = Unit
NoKeyFrame (p ∷ ps) = (p.key_frame ≡ false) × NoKeyFrame ps

held :
    (d : DownTrack) (p : ExtPacket)
    → d.re_sync ≡ true
    → is_video d ≡ true
    → p.key_frame ≡ false
    → write_simple d p ≡ (d, send_pli d.ssrc (p.packet.ssrc) ∷ [])
unfolding write_simple
held d p waits video no_key =
    if_elim (λ r. r ≡ (d, send_pli d.ssrc (p.packet.ssrc) ∷ [])) d.re_sync
      (λ _.
        if_elim (λ r. r ≡ (d, send_pli d.ssrc (p.packet.ssrc) ∷ [])) (is_video d && not p.key_frame)
          (λ _. refl) (λ f. clash video no_key f))
      (λ f. cc)
  where
    clash :
        {a b : Bool} {r s : DownTrack × List Action}
        → a ≡ true
        → b ≡ false
        → (a && not b) ≡ false
        → r ≡ s
    clash f g h = ground arith

waiting :
    (d : DownTrack) (ps : List ExtPacket)
    → d.re_sync ≡ true
    → is_video d ≡ true
    → NoKeyFrame ps
    → write_all d ps ≡ (d, map (λ (p : ExtPacket). send_pli d.ssrc (p.packet.ssrc)) ps)
unfolding write_all
waiting d [] waits video none_of = refl
waiting d (p ∷ ps) waits video none_of =
    rw (held d p waits video none_of.0, waiting d ps waits video none_of.1)

-- A video track that was on, is muted and then unmuted, answers every packet up to the next key
-- frame with a picture loss indication, sends nothing on, and does not change.
pub unmuted_waits :
    (d : DownTrack) (ps : List ExtPacket)
    → d.enabled ≡ true
    → is_video d ≡ true
    → NoKeyFrame ps
    → let m = mute (mute d true) false in
      (write_all m ps ≡ (m, map (λ (p : ExtPacket). send_pli d.ssrc (p.packet.ssrc)) ps))
      × (m.enabled ≡ true)
unfolding mute is_video
unmuted_waits d ps on video none_of =
    if_elim (λ (m : DownTrack). IsWaiting (if m.enabled then m else record m { enabled = true }))
      d.enabled
      (λ _. (waiting (record d { re_sync = true; enabled = true }) ps refl video none_of, refl))
      (λ f. cc)
  where
    IsWaiting : DownTrack → Type 0
    IsWaiting m =
        (write_all m ps ≡ (m, map (λ (p : ExtPacket). send_pli d.ssrc (p.packet.ssrc)) ps))
        × (m.enabled ≡ true)
