-- ===== src/Lib.antt =====
-- rtp-over-quic sends RTP media and RTCP feedback over QUIC, UDP or TCP and adapts the media's bitrate
-- with a congestion control. This library models the parts of it that decide something, and proves
-- what makes them correct.
--
-- A sender (cmd/send.go) reads packets from a media source (media/), hands them to a chain of
-- interceptors, which may hold them back in a queue until SCReAM lets them go (scream/), and writes
-- them with a transport (quic/, udp/, tcp/). A receiver (cmd/receive.go) cuts them out of
-- the transport again and sends feedback back on the same connection, which the sender reads.
--
-- The files, and the code they are about:
--   Base, Base/*         shared lists, tests on numbers, results, Go's integers, big-endian bytes
--   Pion                 pion's headers and attributes and Go's float64, as parameters
--   Rtp/Unwrapper        rtp/unwrapper.go: sequence numbers to indices
--   Rtp/Estimator        rtp/bandwidth_estimator.go: RunSCReAM
--   Rtp/Startup          rtp/bandwidth_estimator.go: RunSCReAM and the building of the interceptors
--   Rtp/Registry         rtp/interceptor.go: the interceptors of a registry, in order
--   Rtp/Format           rtp/format.go: the lines of the packet logs
--   Scream/Queue         scream/rtp_queue.go: the queue that the pacing loop empties
--   Scream/Ssrcs         scream/sender_interceptor.go: extractSSRCs, extractSSRCsReport
--   Scream/Feedback      scream/sender_interceptor.go: BindRTCPReader
--   Scream/Sender        scream/sender_interceptor.go: BindLocalStream, UnbindLocalStream
--   Scream/Locking       scream/sender_interceptor.go: the goroutines of a stream with their mutex and
--                        channels, as a step relation
--   Scream/Receiver      scream/receiver_interceptor.go: the feedback loops, as a machine on events
--   Scream/Receiver/Closing  its Close, and the readers, as a step relation
--   Scream/Ntp           scream/scream.go: ntpTime32, streamSupportSCReAM
--   Scream/Factory       scream/sender_interceptor.go: NewInterceptor, with scream/sender_option.go
--   Scream/Statistics    scream/sender_interceptor.go: GetStats, and its columns in the log
--   Scream/Tx            the congestion control scream-go, as a parameter
--   Scream/Pacing        scream/sender_interceptor.go: loopPacingTimer, as a machine on events
--   Tcp/Framing          tcp/sender.go, tcp/receiver.go: RFC 4571 frames, the reading loops
--   Tcp/Feedback         tcp/sender.go: readFromNetwork's buffer, with ReadRTCP of rtp/rtcp.go
--   Tcp/Transport        tcp/sender.go, tcp/receiver.go: connecting and accepting
--   Tcp/Sockets          tcp/tcp.go, tcp/tcp_setcc*.go: the sockets and their congestion control
--   Quic/Varint          quic-go's quicvarint, as a parameter with its documented behaviour
--   Quic/Mode            quic/quic.go and the options of quic/sender.go
--   Quic/FlowIds         quic/sender.go: newFlowID
--   Quic/Sender          quic/sender.go: the media stream writer
--   Quic/Receiver        quic/receiver.go, and readFromNetwork of quic/sender.go
--   Quic/Connection      quic/sender.go, quic/quic.go, quic/receiver.go: connecting and accepting
--   Quic/DataStreams     quic/sender.go: data streams beside the media streams
--   Quic/Tracer          quic/qlog_tracer.go: the round-trip times
--   Quic/Tls             quic/tls.go: the TLS configurations of both ends
--   Quic/LocalFeedback   quic/local_rfc8888.go: feedback from QUIC's acknowledgements
--   Quic/Trip            both ends of a QUIC connection together
--   Udp/Server           udp/receiver.go: the reading loop and its handlers
--   Udp/Transport        udp/sender.go, udp/receiver.go: connecting, the writers
--   Udp/Feedback         udp/sender.go: readFromNetwork, with ReadRTCP of rtp/rtcp.go
--   Udp/Buffer           udp/udp.go: SetReceiveBuffer
--   Udp/Sockets          udp/udp.go: listenUDP and connectUDP
--   Cc                   cc/algorithm.go
--   Logging              logging/logging.go: log files, the qlog directory, the key log
--   Cmd/Profiling        cmd/root.go: setupProfiling
--   Cmd/Transport        cmd/send.go: the transports and their configuration
--   Cmd/Feedback         cmd/receive.go: the kinds of feedback
--   Cmd/Execute          cmd/root.go: Execute; the Run functions; the receiver's start
--   Cmd/Delivery         cmd/receive.go: handle and addStream, from the transports to the media sinks and to SCReAM
--   Cmd/Reports          the reports of the receiver on their way to the sender's congestion control
--   Cmd/Connect          cmd/send.go, cmd/receive.go: the configurations of the transports
--   Cmd/Start            cmd/send.go, cmd/receive.go: the order in which the commands build their parts
--   Cmd/DataSource       cmd/send.go: the random bytes of the data stream
--   Cmd/Setup            cmd/send.go, cmd/receive.go: the interceptors that the flags ask for
--   Cmd/Priority         the transport quic-prio from the media source to the wire
--   Media/Config         media/config.go
--   Media/Play           media/gstreamer.go: Play; media/syncodec.go: WriteFrame
--   Media/Pipeline       media/gstreamer.go: the elements of the pipelines
--   Media/Gstreamer      media/gstreamer.go: the source and the sink around their pipelines
--   Media/Bitrate        media/gstreamer.go: the target bitrate
--   Media/KeyFrame       media/gstreamer.go: isKeyFrame
--   Media/Syncodec       media/syncodec.go
--   Tests/*              the theorems at concrete inputs
--
-- State is passed explicitly. A goroutine is a function on the sequence of what happens to it: the pacing
-- loop takes events of its `select`, rounds of its inner loop and packets that other goroutines enqueue, in
-- any order. Goroutines that wait for each other are a step relation on a record of their places
-- (Base/Runs has its runs). A panic and an error are values of `Outcome`. Machine integers wrap: a
-- uint16 is a number modulo 2 ^ 16, an int64 is read back from its bit pattern.
--
-- Fuel: `receive` and `read_from_network` of the TCP framing count turns of a loop that may be infinite; the
-- theorems say how many turns are enough, or hold for any number. The loop of `extractSSRCs` has one unit
-- of fuel more than the packet has bytes, and never runs out of it. `first_unused` counts the
-- candidates that `newFlowID` tries.
--
-- Packages that are not in the repository are parameters: pion's headers, packetizer, extensions and
-- interceptors, scream-go, quicvarint, GStreamer, the operating system, float64. Where a theorem relies on
-- one of them, the documented behaviour is among its hypotheses.
--
-- Not modelled: the sockets themselves, running the GStreamer pipelines, and the parsing of the
-- arguments, which only call other packages. `Scream/Locking` has the locks of a stream; elsewhere
-- each call under a lock is one step.
pub mod Base
pub mod Pion
pub mod Rtp
pub mod Scream
pub mod Tcp
pub mod Quic
pub mod Udp
pub mod Cc
pub mod Cmd
pub mod Logging
pub mod Media
pub mod Tests
