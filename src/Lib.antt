-- ===== src/Lib.antt =====
-- gomediautils: Go packages that read and write media containers and streams. This library models
-- the parts that carry bits and bytes across an interface, and proves that what one side writes
-- the other side reads.
--
-- The parts and their files:
--   Codec     go-codec/bitstream.go. Codec/BitReader is BitStream, Codec/BitWriter is
--             BitStreamWriter, Codec/BitMask their table of masks and their errors. The methods
--             keep their names in lower case: GetBits is get_bits, PutUint64 is put_uint64.
--             Codec/Nalu is go-codec/util.go: start codes, splitting, types and emulation
--             prevention.
--   Rtmp      go-rtmp/chunk.go. Rtmp/Chunk/Header is basicHead, chunkMsgHead and chunkPacket,
--             Rtmp/Chunk/Writer is chunkStreamWriter and chunkBatch, Rtmp/Chunk/Reader is
--             chunkStreamReader. readRtmpMessage is read_rtmp_message, a loop of read_round, one
--             function for each parser state.
--             Rtmp/UserCtrl is go-rtmp/userctrl.go.
--   Flv       go-flv/flv-tag.go: the headers of tags, video tags and audio tags.
--   Rtp       go-rtsp/rtp/rtp-hdr.go and rtp.go: RtpHdr and RtpPacket.
--             Rtp/H264 is go-rtsp/rtp/rtp-h264.go: Pack is pack, which splits its frame with
--             Codec/Nalu and encodes packets with Rtp/Packet; UnPack is un_pack.
--   Mp4       Mp4/Box is go-mp4/box.go; Mp4/Tables are stts-box.go, ctts-box.go, stsc-box.go,
--             stco-box.go, stsz-box.go and stss-box.go with their records of mp4table.go, and
--             Mp4/Table is what their loops share; Mp4/Stbl is the tables of a track, as
--             mp4demuxer.go reads and stbl-box.go writes them; Mp4/Times is the times of
--             its samples, of makeStblTable in mp4track.go and buildSampleList, Mp4/Sizes
--             is their sizes, and Mp4/Chunks is their chunks.
--   Rtcp      go-rtsp/rtcp/rtcp-context.go: the sequence numbers of RtcpContext.
--   Srt       go-srt/packet.go: packet, the sequence numbers and the loss list.
--   Mkv       go-mkv/ebml.go: variable size integers, sizes, ids and element payloads.
--   Es        go-es/order.go: the orderer.
--   Prelude   lists indexed by native numbers, bytes and fixed-width fields, `&` and `|` as
--             arithmetic, integers, and the outcomes of a Go call.
--   Runs      the properties at concrete inputs.
--
-- How Go is modelled: a byte, a uint16, uint32 or uint64 is a natural number with the wrap-around
-- written out where the code can reach it; int is unbounded but where a comment says otherwise. A
-- slice is a list. A method takes its receiver and returns the new one. A call that can return an
-- error is an Outcome: ok, err or panic; a method that reports its errors in its state returns an
-- Option, of which none is a run-time panic. An encoder that fills a buffer returns the bytes it
-- writes. A callback is an argument.
--
-- Fuel: get_bits_across runs its loop with 9 rounds and put_across with 9, where 64 bits need 8
-- and the last bits one more; read_loop has 4 rounds for each byte and 8 more; write_chunks,
-- encode_loss_list, decode_loss_list, split_loop, fu_a_loop,
-- stap_a_loop, order_stream and the loops of ebml.go have as much as the
-- length of what they take or the bound in the code.
-- Out of fuel, get_bits_across, put_across and write_chunks panic; read_loop, fu_a_loop and
-- stap_a_loop end with an error of their own; the other loops end with what they have.
--
-- Not modelled: sockets, timers, goroutines and files; cryptography; floating point; the sessions,
-- muxers and demuxers of the packages, which stand on the parts above.
pub mod Prelude
pub mod Codec
pub mod Rtmp
pub mod Rtcp
pub mod Rtp
pub mod Srt
pub mod Mkv
pub mod Mp4
pub mod Es
pub mod Flv
pub mod Runs
