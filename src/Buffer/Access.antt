-- ===== src/Buffer/Access.antt =====
-- The exported operations: binding to a codec, writing, reading, closing.
use sample_nodejs_server.Prelude.{
  ℕ, ◌+◌, ◌%◌, Bool, true, false, not, List, [], ◌∷◌, ◌++◌, Option, none, some, ltb, if◌then◌else◌,
  length, get_elem?,
}
use sample_nodejs_server.Prelude.Bytes.{Memory}
use sample_nodejs_server.Prelude.Strings.{text, has_prefix, to_lower}
use sample_nodejs_server.Bucket.{Bucket, Result, err, out_of_range, new_bucket, get_packet}
use sample_nodejs_server.Nack.{new_queue}
use sample_nodejs_server.DownTrack.State.{ExtPacket}
use sample_nodejs_server.Buffer.State.{
  CodecType, unknown, audio, video, Pending, Buffer, Event, released, on_close, Env,
}
use sample_nodejs_server.Buffer.Calc.{calc}

-- The URIs and feedback types that pion's libraries name.
pub data Uri : Type 0 where
  transport_cc_uri audio_level_uri other_uri : Uri

pub data FeedbackType : Type 0 where
  goog_remb transport_cc_feedback nack_feedback_type other_feedback : FeedbackType

pub record Extension : Type 0 where
  pub uri : Uri
  pub id : ℕ

-- `params.Codecs[0]` with `params.HeaderExtensions`, the option `MaxBitRate`, and the arrays that the
-- pools give.
pub record Params : Type 0 where
  pub clock_rate : ℕ
  pub mime_type : List ℕ
  pub rtcp_feedback : List FeedbackType
  pub header_extensions : List Extension
  pub max_bit_rate : ℕ
  pub audio_array : Memory × ℕ
  pub video_array : Memory × ℕ

abbrev pub codec_of : List ℕ → CodecType
codec_of mime =
    if has_prefix mime (text "audio/")
    then audio
    else if has_prefix mime (text "video/")
    then video
    else unknown

-- The bucket that is set; another codec leaves the field as it is.
abbrev pub bucket_for : CodecType → Params → Option Bucket → Option Bucket
bucket_for audio o old = some (new_bucket o.audio_array.0 o.audio_array.1)
bucket_for video o old = some (new_bucket o.video_array.0 o.video_array.1)
bucket_for unknown o old = old

-- The first extension for transport-wide numbers.
unfoldable pub find_twcc : ℕ → List Extension → ℕ
find_twcc old [] = old
find_twcc old (e ∷ es) = elim (e.uri) [
  | transport_cc_uri ↦ e.id % 256
  | audio_level_uri ↦ find_twcc old es
  | other_uri ↦ find_twcc old es
]

unfoldable pub set_feedback : Buffer → List FeedbackType → Buffer
set_feedback b [] = b
set_feedback b (goog_remb ∷ fbs) = set_feedback (record b { remb = true }) fbs
set_feedback b (transport_cc_feedback ∷ fbs) = set_feedback (record b { twcc = true }) fbs
set_feedback b (nack_feedback_type ∷ fbs) = set_feedback (record b { nacker = some new_queue }) fbs
set_feedback b (other_feedback ∷ fbs) = set_feedback b fbs

-- The last extension for audio levels counts.
unfoldable pub set_audio_level : Buffer → List Extension → Buffer
set_audio_level b [] = b
set_audio_level b (e ∷ es) = elim (e.uri) [
  | transport_cc_uri ↦ set_audio_level b es
  | audio_level_uri ↦ set_audio_level (record b { audio_level = true; audio_ext = e.id % 256 }) es
  | other_uri ↦ set_audio_level b es
]

unfoldable pub set_up : Buffer → CodecType → Params → Buffer
unfolding set_feedback set_audio_level
set_up b video o = set_feedback b (o.rtcp_feedback)
set_up b audio o = set_audio_level b (o.header_extensions)
set_up b unknown o = b

unfoldable pub configure : Buffer → Params → Buffer
unfolding find_twcc set_up
configure b o =
    let mime = to_lower o.mime_type in
    set_up
      (record b {
        clock_rate = o.clock_rate;
        max_bitrate = o.max_bit_rate;
        mime = mime;
        codec_type = codec_of mime;
        bucket = bucket_for (codec_of mime) o (b.bucket);
        twcc_ext = find_twcc b.twcc_ext (o.header_extensions);
      })
      (codec_of mime) o

-- `calc` on each packet that waits, with one time for the reports.
unfoldable pub calc_all : Env → Buffer → List Pending → ℕ → Buffer × List Event
unfolding calc
calc_all env b [] now = (b, [])
calc_all env b (pp ∷ pps) now =
    let (b', events) = calc env b (pp.packet) pp.arrival_time now in
    let (b'', rest) = calc_all env b' pps now in (b'', events ++ rest)

unfoldable pub bind : Env → Buffer → Params → ℕ → Buffer × List Event
unfolding configure calc_all
bind env b o now =
    let (b', events) = calc_all env (configure b o) (b.p_packets) now in
    (record b' { p_packets = []; bound = true }, events)

-- `true` is the end of file.
unfoldable pub write : Env → Buffer → List ℕ → ℕ → Buffer × List Event × Bool
unfolding calc
write env b pkt now =
    let (b', events) = calc env b pkt now now in
    let pending = b.p_packets ++ (record { arrival_time = now; packet = pkt } ∷ []) in
    if b.closed
    then (b, [], true)
    else if not b.bound
    then (record b { p_packets = pending }, [], false)
    else (b', events, false)

-- One round of `Read` and `ReadExtended`: what they return, or nothing after a pause.
pub data Answer {ℓ} (A : Type ℓ) : Type ℓ where
  read : A → Answer A
  end_of_file too_small sleeping : Answer A

unfoldable pub read_pending : Buffer → ℕ → Option Pending → Buffer × Answer (List ℕ)
read_pending b capacity none = (b, sleeping)
read_pending b capacity (some pp) =
    if ltb capacity (length (pp.packet))
    then (b, too_small)
    else (record b { last_packet_read = b.last_packet_read + 1 }, read (pp.packet))

unfoldable pub read_packet : Buffer → ℕ → Buffer × Answer (List ℕ)
unfolding read_pending
read_packet b capacity =
    let answer = read_pending b capacity (get_elem? (b.p_packets) b.last_packet_read) in
    if b.closed then (b, end_of_file) else answer

unfoldable pub pop_front : Buffer → List ExtPacket → Buffer × Answer ExtPacket
pop_front b [] = (b, sleeping)
pop_front b (p ∷ ps) = (record b { ext_packets = ps }, read p)

unfoldable pub read_extended : Buffer → Buffer × Answer ExtPacket
unfolding pop_front
read_extended b = if b.closed then (b, end_of_file) else pop_front b (b.ext_packets)

abbrev pub releases : Option Bucket → CodecType → List Event
releases none codec = []
releases (some k) unknown = []
releases (some k) audio = released audio ∷ []
releases (some k) video = released video ∷ []

-- `closeOnce` has run as soon as `closed` is set.
unfoldable pub close : Buffer → Buffer × List Event
close b =
    if b.closed
    then (b, [])
    else (record b { closed = true }, releases (b.bucket) (b.codec_type) ++ (on_close ∷ []))

-- `GetPacket` of the bucket; `out_of_range` also stands for the panic without one.
unfoldable pub get_from : Option Bucket → ℕ → ℕ → Result (List ℕ)
unfolding get_packet
get_from none capacity sn = err out_of_range
get_from (some k) capacity sn = get_packet k capacity sn

-- `none` is the end of file.
unfoldable pub fetch_packet : Buffer → ℕ → ℕ → Option (Result (List ℕ))
unfolding get_from
fetch_packet b capacity sn = if b.closed then none else some (get_from (b.bucket) capacity sn)
