-- ===== src/Lib.antt =====
-- Fenice, a streaming server for RTSP and RTP: its packet buffer, its pool of port pairs, its table of
-- sessions, its connections and their requests, the RTCP reports it sends and receives, its search of
-- media, its reader of H.264, its search for start codes in MPEG streams and its reading of their
-- headers, and its adaptation of a stream to the loss that receivers report.
--
-- How the parts interact: the scheduler calls intnet/ and then RTP_send_packet for each session. That
-- takes a packet from the session's buffer (bufferpool/), and where none waits it has get_frame
-- (mediainfo/get_frame.c) store the next frame there. intnet/ reads the RTCP reports, searches the
-- programme's list of media for one with another rate (mediainfo/search_media.c), and sets the session to
-- it; both media share the packet buffer. The transport of a session has a pair of UDP ports from the
-- pool of rtp/.
--
-- Which file models what:
--   Prelude                 names of the libraries, tests on numbers, lists, return codes
--   BufferPool              bufferpool/: slots, buffers, consumers and the reader's operations
--                           (OMSbuff_new, addpage, ref, getreader, gotreader, read, nextts, isempty)
--   BufferPool/Producer     OMSbuff_getslot, OMSbuff_write, OMSbuff_unref, and get_frame's use of them
--   BufferPool/Producer/Push  the loops that move the valid read position
--   BufferPool/Queue        the invariant of a buffer with one reader, and below it: Chains (links),
--                           Read, Write, Page (OMSbuff_addpage), Produce, Run (sequences of
--                           operations), Stale (a page that stays unwritten), Unref (the end of a
--                           reader)
--   Rtp/PortPool            rtp/RTP_port_pool_init.c, RTP_get_port_pair.c, RTP_release_port_pair.c, and
--                           below it: Leases (the invariant), Steps (sequences of calls)
--   Rtp/Transport           rtp/RTP_transport_close.c; below it: Close (ports and descriptors)
--   Rtp/Send                rtp/RTP_send_packet.c, mediainfo/msec2tick.c; below it: Header (an RTP packet as
--                           it is received), Burst, Sent, Delay (the packets of one call)
--   Schedule                schedule/schedule_add.c, schedule_remove.c, schedule_init.c and the release of
--                           sessions in schedule_do.c; below it: Count (the number of valid entries),
--                           Release (what becomes of a removed session)
--   Schedule/Timing         schedule/schedule_start.c, schedule_resume.c, schedule_stop.c and the valid
--                           entries in schedule_do.c; Schedule/Pace, CatchUp, Others: how often it
--                           serves a session, when it ends, and what it leaves alone
--   Rtcp                    rtcp/RTCP_recv_packet.c; below it: Loop (whether it ends), Report (what it
--                           makes of a receiver report)
--   Rtcp/Send, Queue        rtcp/RTCP_send_packet.c, and what waits in the output buffer
--   Rtsp/Buffer             rtsp/bwrite.c, RTSP_send.c, RTSP_remove_msg.c
--   Rtsp/Bytes, Stream, Removal  arrays of bytes, the output as a stream, what removal leaves
--   Rtsp/Message            rtsp/RTSP_full_msg_rcvd.c; Rtsp/Framing, Request, Rounds: arrays that hold
--                           lines, whole requests, and the number of rounds
--   Rtsp/Method             rtsp/RTSP_valid_response_msg.c, RTSP_validate_method.c;
--                           Rtsp/Words, Command: the first two lines of a request
--   Rtsp/Handler            rtsp/RTSP_handler.c, RTSP_discard_msg.c; Rtsp/Waiting, Pipeline,
--                           Interleaved: requests one behind the other, and packets between them
--   Rtsp/Machine            rtsp/RTSP_state_machine.c; Rtsp/Transitions: what it allows
--   Rtsp/Text               the functions of the C library on texts that the requests need
--   Rtsp/Url                rtsp/parse_url.c, src/is_supported_url.c; below it: Tokens, Printed, Fits (what
--                           parse_url makes of URLs)
--   Rtsp/Check, Sessions, Play, Describe  the checks of a request, and rtsp/RTSP_pause.c, RTSP_teardown.c,
--                           RTSP_play.c, RTSP_describe.c, RTSP_options.c, send_redirect_3xx.c and
--                           max_connection.c. `rtsp_play` is RTSP_play, and so on
--   Rtsp/Logged             requests without a User-Agent header, whose copy overflows an array
--   Rtsp/Replies, Paths     the replies, and the paths that reach the file system
--   Rtsp/Served, Teardown, Pausing, Playing, Serves  the streams of a session and their entries in the
--                           table of schedule/
--   EventLoop               eventloop/schedule_connections.c; EventLoop/Kept: what it leaves of the list
--   Intnet                  intnet/: one function per function, `downgrade_mp3` for downgrade_MP3 and
--                           so on; the programme's list of media is an argument
--   Intnet/Catalog          mediainfo/search_media.c, default_selection_criterion.c, get_media_entry.c
--   Intnet/Ladder           the `switch` statements over bitrates as walks along a list
--   Intnet/Switch, Half, Reached  what the changes of stream do
--   Intnet/Jitter           change_check on a report that was received
--   H264/File, Nalu, Read   mediainfo/read_h264.c: the file, the search of start codes, and the packets.
--                           `find_another_start` is the loop of get_one_NALU_payload
--   H264/Scan, Units, Pass, Adjacent  what the search finds in a file made of units
--   H264/Receive            a receiver of RFC 6184, which puts the packets of a unit together
--   H264/Fragment, Sent, Playback, Roundtrip  the packets of a unit and of a file
--   Mpeg                    mediainfo/common_utils.c, next_start_code; Mpeg/Cut: where it cuts a file.
--                           A call of read on a file takes the bytes from a list
--   Mpeg/System             mediainfo/read_MPEGSYSTEM_utils.c: read_pack_head, and in its children Head
--                           read_packet_head, Section read_packet. What a short read leaves in the buffer
--                           is an argument, `old`. Below it: Search, Stamp (times of 33 bits), Pack,
--                           Stamped, Sections, Endless (headers as ISO 11172 lays them out)
--   Mpeg/Video, Sequence    mediainfo/read_MPEG_utils.c: the headers of groups, pictures and their
--                           extensions, and of sequences; below them: Extra, Time, Coding, Extension,
--                           Rate, Header (what is read of such headers)
--   Tests                   the theorems at concrete inputs
--
-- State and operations. A pointer into an array is an index, an array a function or a list, and a
-- media entry an address in a memory of entries. An operation takes the state and returns it with its
-- result; NULL and the error codes are `none` where there is one error. `realloc` is a flag that says
-- whether it succeeds. Counters that are narrow in the source wrap: the reference counts at 2 ^ 16, the
-- sequence numbers at 2 ^ 64.
--
-- Fuel: the loops over the links of a buffer and the loop of RTCP_recv_packet take fuel, as the source
-- bounds them by nothing but their tests. One unit more than there are slots, or bytes in the
-- datagram, is what the theorems on their ends ask for. The loop of RTP_send_packet has as many as
-- packets wait. The loop over the lines of a request has two units more than the input has bytes. The
-- loop of get_one_NALU_payload needs none: it goes by the room left in the array of 100000 bytes. A
-- unit makes at most 73 packets, the fuel of `play`. read_packet_head takes one unit more than there
-- are stuffing bytes, and read_packet one more than a packet has parts. A `hung` or `none` that stands
-- for fuel is never taken for a result.
--
-- Not modelled: buffers in shared memory, locks, sockets, the texts of RTSP and SDP, what puts the
-- MPEG headers together to frames, the readers of media in other formats, logging, start-up, and
-- libev-4.20 and md5/, which are copies of other projects.
pub mod Prelude
pub mod BufferPool
pub mod Rtp
pub mod Rtcp
pub mod Rtsp
pub mod Schedule
pub mod EventLoop
pub mod Intnet
pub mod H264
pub mod Mpeg
pub mod Tests
