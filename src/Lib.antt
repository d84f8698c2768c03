-- ===== src/Lib.antt =====
-- A selective forwarding unit for video rooms (ion-sfu/) and the controller that connects cameras to
-- it (controller/), with a registry of nodes in Redis that both use. A publisher's packets go through a buffer, which keeps them in a bucket of slots
-- and queues the numbers of missing ones for negative acknowledgements; down tracks send them on to
-- subscribers under new sequence numbers and remember in a sequencer what was sent, so that a
-- subscriber's request for a packet can be traced back to the bucket.
--
-- Bucket: ion-sfu/pkg/mediatransportutil/bucket/bucket.go. `Bucket` is the struct; its array is a
--   function from positions to bytes, with the slice's length beside it. `add_packet`, `get_packet`,
--   `resync` and `new_bucket` are the exported methods, `push`, `get`, `set`, `store`, `wrap`,
--   `offset` and `invalidate` the private ones, and `start_at`, `resync_at` and `place` the stages of
--   `AddPacket`. Errors are values of `Error`, with the panic of a slice out of range as one of them.
--   The accessor `Src` is left out.
-- Nack: ion-sfu/pkg/mediatransportutil/nack/nack.go. `push`, `remove` and `pairs` are the methods;
--   `visit` is the body of the loop in `Pairs`, `Round` its variables. `sort.Search` is
--   `search_index` of Prelude.Search, the binary search of the Go library.
-- Buffer: ion-sfu/pkg/buffer/buffer.go. State holds the struct and the parameters, which are the RTP
--   parser and the floating-point steps; Count the tracking of numbers at the head of `calc`; Reports
--   the feedback (`buildNACKPacket`, `buildREMBPacket`, `buildReceptionReport`, `getRTCP`); Calc the
--   rest of `calc`, whose `store_`, `take_` and `feed_` functions are successive stages up to a
--   return; Access `Bind`, `Write`, `Read`, `ReadExtended`, `Close` and `GetPacket`. The callbacks
--   are a list of `Event`. Reading returns `sleeping` where the source waits and tries again.
-- Sequencer: ion-sfu/pkg/sfu/sequencer.go. `push` and `get_seq_no_pairs` are the methods; the clock
--   is an argument, and a pointer into `seq` is an index.
-- Vp8: ion-sfu/pkg/buffer/helpers.go. `unmarshal` is `VP8.Unmarshal` on a payload that may be nil; it
--   returns the fields as they stand, also beside an error, and each `read_` function is one
--   optional part of the descriptor.
-- H264: the same file. `is_h264_keyframe` is `isH264Keyframe`, `turn` the body of its loop over an
--   aggregate; a panic is `none`.
-- TemporalLayer: ion-sfu/pkg/sfu/helpers.go, the rewriting of the VP8 indices of a payload.
-- DownTrack: ion-sfu/pkg/sfu/downtrack.go with simulcast.go. State holds the struct, `mute` and
--   `unbind`; Layers the switches of spatial and temporal layers, `UptrackLayersChange` and
--   `handleLayerChange`, with what the receiver answers as a record; Simple and Simulcast the two ways
--   of `WriteRTP`, with `setVP8TemporalLayer` of helpers.go, whose `write_`, `forward_` and `send_`
--   functions are successive stages; Feedback `handleRTCP` on packets that are parsed already;
--   Binding `Bind` and the reports. What a track does to the outside is a list of `Action`.
-- Receiver: ion-sfu/pkg/sfu/receiver.go. Retransmit models `RetransmitPackets`: a round of its loop is
--   a value of `Round`, found by the `with_` functions stage by stage. Tracks models the down tracks
--   of each layer: `AddDownTrack`, `SwitchDownTrack`, `deleteDownTrack`, `storeDownTrack`, and in
--   `take_pending` what `writeRTP` does before it writes a packet. A pointer is a number there.
-- Session: ion-sfu/pkg/sfu/session.go, with the part of peer.go, publisher.go, router.go and
--   subscriber.go that decides which peer gets which track. `join` is `PeerLocal.Join` from `AddPeer`
--   on, `on_track` the callback of a publisher, `leave` is `PeerLocal.Close` and `end_track` the end of
--   one track, both with the handlers that run when receivers close. A track has the publisher it is
--   from. Whether WebRTC takes a track is a parameter.
-- Negotiation: ion-sfu/pkg/sfu/peer.go and subscriber.go, the offers that follow changes of tracks.
--   `negotiate` is the call, `fire` the end of its debounce, and what pion does with an answer is in
--   `set_remote_description`.
-- Subscriber: ion-sfu/pkg/sfu/subscriber.go. `report_loop` is the loop of `downTracksReports`, on as
--   many rounds as there are chunks.
-- Factory: ion-sfu/pkg/buffer/factory.go and rtcpreader.go, with `Close` of a buffer. A map of one
--   kind and the objects made for it are one record; a handler on close is run in `end_reader`.
-- AudioObserver: ion-sfu/pkg/sfu/audioobserver.go. `sort.Slice` is a parameter: it keeps the streams
--   and puts them in order.
-- Stream: ion-sfu/pkg/stats/stream.go. Prometheus is a record of the numbers it is given.
-- Ntp: NTP times and round trip times, from ion-sfu/pkg/sfu/helpers.go and
--   ion-sfu/pkg/mediatransportutil/helpers.go, which have the conversions twice.
-- Timestamps: ion-sfu/pkg/buffer/buffer.go (`IsTimestampWrapAround`, `IsLaterTimestamp`) and
--   ion-sfu/pkg/sfu/helpers.go (`fastForwardTimestampAmount`).
-- Redis: what the program asks of the Redis server, a record of commands with their documented laws.
--   Everything that uses it takes it as a parameter; Redis.Table is a table that has the laws.
-- Node: controller/pkg/node, which ion-sfu/pkg/node copies. Keys builds and reads the keys; Rooms is
--   discovery.go, with a call of `SetOrGetSFUAddressForRoom` as a machine that sends one command in a
--   step; Cleaner is node.go, where a pipeline is a list of `Command` that is made from what is read
--   and executed at the end. Dead compares a tick of the cleaner with its description key by key.
-- Rtsp: controller/apps/controller/service/rtsp_client_service. Service has the methods of the
--   service and the clients they make, on a heap where a pointer is a number; how an attempt to
--   connect goes is its argument. Calls of Redis go through Node.
-- Records: controller/apps/controller/entity/metadata.go and `GetAndUploadRecordFile`, where the
--   file system, the parsing of a number and the uploader are parameters.
-- SortedSlice: controller/pkg/util/util.go. `search_range`, `remove_item_in_sorted_slice`,
--   `insert_sorted`, `insert_sorted_string` and `search_element_or_smaller` are its generic functions
--   on sorted slices; a Go comparison is a function of the index with an integer result.
-- Prelude: Boolean tests, lists by position, machine words, integers, strings and arrays of
--   bytes, binary search.
--
-- Unsigned words of 8, 16 and 32 bits are natural numbers with the wrap-around written out. A Go
-- `int` that may be negative is an integer, without overflow: the values stay far below 2^63. The
-- loops of `wrap` run on fuel, the distance of the slot from the ring, which is at least the number
-- of rounds as soon as the ring has a slot. Binary search and the two loops of `SearchRange` run on
-- the length of the slice, since each round takes off at least one index, and the loop of
-- `isH264Keyframe` on the length of the payload, since each round that goes on moves the index ahead.
-- Other loops are structural recursion.
--
-- Mutexes are left out: a call of a method is one step, except where Node.Agreement interleaves the
-- commands of calls. Not modelled: the network, WebRTC (pion), gRPC, HTTP and GStreamer glue, logging, and the services that are not written in Go.
pub mod AudioObserver
pub mod Bucket
pub mod Buffer
pub mod DownTrack
pub mod Factory
pub mod H264
pub mod Nack
pub mod Negotiation
pub mod Node
pub mod Ntp
pub mod Prelude
pub mod Receiver
pub mod Records
pub mod Redis
pub mod Rtsp
pub mod Sequencer
pub mod Session
pub mod SortedSlice
pub mod Stream
pub mod Subscriber
pub mod TemporalLayer
pub mod Timestamps
pub mod Vp8
