-- ===== src/Cmd/Delivery/Trip.antt =====
-- From the writers of the senders to the media sinks of the receiver, over UDP.
use rtp_over_quic.Base.{◌≡◌, refl, ap, ◌∙◌, List, [], ◌∷◌, ◌++◌, map, none, ok, All}
use rtp_over_quic.Logging.{Os, LogFile, get_log_file}
use rtp_over_quic.Pion.{RtpLib}
use rtp_over_quic.Rtp.Registry.{
  Factory, dumps_sent_rtcp, dumps_received_rtp, Registry, Constructors, new,
}
use rtp_over_quic.Udp.Server.{Read, start}
use rtp_over_quic.Udp.Server.Routing.{arrived, start-IsRouted}
use rtp_over_quic.Udp.Transport.Trip.{Sent, Fits, read_of, whole, start-media_write}
use rtp_over_quic.Cmd.Setup.{ReceiveFlags, ReceiverController, new_receiver_controller}
use rtp_over_quic.Cmd.Setup.Registries.{
  Accepts, feedback_factories, new_receiver_controller-registry,
}
use rtp_over_quic.Cmd.Start.{add_stream}
use rtp_over_quic.Cmd.Delivery.{Packages, sink_reader, bind_all, stream_reader, receive_udp}
use rtp_over_quic.Cmd.Delivery.Sinks.{
  sent_by, CallsOnce, SinksFrom, sink_reader-Writes, bind_all-Writes, handle_acts-sinks,
}

module _ {r : RtpLib} (p : Packages r) where
  -- No `Build` fails, and each of pion's interceptors calls the reader that it wraps once.
  pub record IsCalm : Type 0 where
    pub builds : (registry : Registry) → p.build_error registry ≡ none
    pub calls : (factory : Factory) → CallsOnce (p.bind factory)

  pub stream_reader-bind_all :
      (c : ReceiverController) (registry : Registry)
      → IsCalm
      → new c.rtp_options ≡ ok registry
      → stream_reader p (ok tt) c ≡ ok (bind_all p registry (sink_reader p))
  unfolding stream_reader add_stream
  stream_reader-bind_all c registry calm made = rw (made, calm.builds registry) refl

  -- If the log files of the receiver can be made, and no constructor, no sink and no `Build` fails;
  -- if the interceptors that are pion's call the readers that they wrap once; and if no datagram is
  -- lost or reordered on the way: packets of at most 1500 bytes that any number of senders write
  -- with UDP are given, whole and in order, each once, to the media sink of their sender's address
  -- and to no other, whatever feedback is asked for, whatever the sinks answer, and whether the
  -- packets parse or not.
  pub receive_udp-sinks :
      (os : Os) (fails : Constructors) (fl : ReceiveFlags) (rtp rtcp : LogFile) (ps : List (Sent r))
      (rest : List Read)
      → IsCalm
      → Accepts fails
      → get_log_file os fl.rtp_dump_file ≡ ok rtp
      → get_log_file os fl.rtcp_dump_file ≡ ok rtcp
      → All Fits ps
      → SinksFrom
          (receive_udp p (ok tt) (new_receiver_controller os fails fl) (map read_of ps ++ rest))
          (λ addr. sent_by addr (map whole ps ++ arrived rest))
  unfolding receive_udp
  receive_udp-sinks os fails fl rtp rtcp ps rest calm accepts opens_rtp opens_rtcp fits =
      let reads = map read_of ps ++ rest in
      let factories = dumps_sent_rtcp rtcp ∷ dumps_received_rtp rtp ∷ feedback_factories fl in
      let registry =
        new_receiver_controller-registry os fails fl rtp rtcp accepts opens_rtp opens_rtcp in
      let writes = bind_all-Writes p calm.calls factories (sink_reader p) (sink_reader-Writes p) in
      let (streams, made, given) =
        handle_acts-sinks (bind_all p factories (sink_reader p)) writes (start reads).0 []
          (start-IsRouted reads).1 in
      rw (stream_reader-bind_all (new_receiver_controller os fails fl) _ calm registry)
        (streams, made, λ addr. given addr ∙ ap (sent_by addr) (start-media_write ps rest fits))
