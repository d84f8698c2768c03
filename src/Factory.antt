-- ===== src/Factory.antt =====
-- ion-sfu/pkg/buffer/factory.go and rtcpreader.go: one buffer and one reader of feedback for each
-- SSRC. A pointer is a number.
pub mod Live
mod Tests
use sample_nodejs_server.Prelude.{
  ℕ, suc, Bool, true, false, Option, none, some, ◌==◌, if◌then◌else◌,
}

pub record Reader : Type 0 where
  pub ssrc : ℕ
  pub closed : Bool

-- The map of one kind, and the objects made for it.
pub record Readers : Type 0 where
  pub map : ℕ → Option ℕ
  pub objects : ℕ → Reader
  pub next : ℕ

pub record Factory : Type 0 where
  pub rtp_buffers : Readers
  pub rtcp_readers : Readers

pub data PacketType : Type 0 where
  rtcp_buffer_packet : PacketType
  rtp_buffer_packet : PacketType

abbrev pub put {ℓ} : {A : Type ℓ} → (ℕ → A) → ℕ → A → ℕ → A
put f i v j = if j == i then v else f j

abbrev pub no_readers : Readers
no_readers = record {
  map = λ ssrc. none;
  objects = λ n. record { ssrc = 0; closed = true };
  next = 0;
}

abbrev pub new_buffer_factory : Factory
new_buffer_factory = record { rtp_buffers = no_readers; rtcp_readers = no_readers }

-- What the map has, or a new object that its handler will delete from the map.
abbrev pub or_new : Readers → ℕ → Option ℕ → Readers × ℕ
or_new r ssrc (some n) = (r, n)
or_new r ssrc none = (
  record {
    map = put r.map ssrc (some r.next);
    objects = put r.objects r.next (record { ssrc = ssrc; closed = false });
    next = suc r.next;
  },
  r.next,
)

unfoldable pub get_in : Readers → ℕ → Readers × ℕ
get_in r ssrc = or_new r ssrc (r.map ssrc)

unfoldable pub get_or_new : Factory → PacketType → ℕ → Factory × ℕ
unfolding get_in
get_or_new f rtcp_buffer_packet ssrc =
    let (r, n) = get_in f.rtcp_readers ssrc in (record f { rtcp_readers = r }, n)
get_or_new f rtp_buffer_packet ssrc =
    let (r, n) = get_in f.rtp_buffers ssrc in (record f { rtp_buffers = r }, n)

unfoldable pub get_buffer_pair : Factory → ℕ → Option ℕ × Option ℕ
get_buffer_pair f ssrc = (f.rtp_buffers.map ssrc, f.rtcp_readers.map ssrc)

-- The object is marked, and its handler deletes the entry of its SSRC.
unfoldable pub end_reader : Readers → ℕ → Readers
end_reader r n = record r {
  objects = put r.objects n (record (r.objects n) { closed = true });
  map = put r.map (r.objects n).ssrc none;
}

-- `RTCPReader.Close`.
unfoldable pub close_reader : Factory → ℕ → Factory
unfolding end_reader
close_reader f n = record f { rtcp_readers = end_reader f.rtcp_readers n }

-- `Buffer.Close`, which does its work once.
unfoldable pub close_buffer : Factory → ℕ → Factory
unfolding end_reader
close_buffer f n =
    if (f.rtp_buffers.objects n).closed
    then f
    else record f { rtp_buffers = end_reader f.rtp_buffers n }

-- `RTCPReader.Write`: whether the packet is handed on, which it is not after the end.
unfoldable pub write_reader : Factory → ℕ → Bool
write_reader f n = if (f.rtcp_readers.objects n).closed then false else true
