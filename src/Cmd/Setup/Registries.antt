-- ===== src/Cmd/Setup/Registries.antt =====
-- The registries that the flags lead to.
use rtp_over_quic.Base.{
  ◌≡◌, refl, ◌||◌, String, str_eq, str_eq-other, if◌then◌else◌, List, [], ◌∷◌, ◌++◌, Option, none,
  some, ok, Bool-cases, inl, inr,
}
use mathlib.Core.List.{append-nil}
use rtp_over_quic.Base.Int.{signed64}
use rtp_over_quic.Cc.{to_string}
use rtp_over_quic.Logging.{Os, LogFile, get_log_file}
use rtp_over_quic.Rtp.Registry.{
  Factory, dumps_sent_rtp, dumps_received_rtp, dumps_sent_rtcp, dumps_received_rtcp, twcc_sender,
  twcc_header_extension, gcc_estimator, scream_receiver, rfc8888_sender, scream_sender, Registry,
  Constructors, apply_all, add, add_both, new, register_sender_packet_log,
  register_receiver_packet_log, register_rtp_sender_dumper, register_rtp_receiver_dumper,
  register_scream, register_gcc, register_twcc_header_extension, register_twcc, register_rfc8888,
  register_rfc8888_pion,
}
use rtp_over_quic.Cmd.Feedback.{get_rtcp}
use rtp_over_quic.Cmd.Setup.{
  SendFlags, Routine, run_scream, run_gcc, setup_interceptor, ReceiveFlags, feedback_options,
  new_receiver_controller,
}

-- No constructor returns an error.
abbrev pub Accepts : Constructors → Type 0
Accepts fails = (factory : Factory) → fails factory ≡ none

add-accepted :
    (fails : Constructors)
    → Accepts fails
    → (factory : Factory) (registry : Registry)
    → add fails factory registry ≡ ok (registry ++ factory ∷ [])
add-accepted fails accepts factory registry = rw (accepts factory) refl

add_both-accepted :
    (fails : Constructors)
    → Accepts fails
    → (first second : Factory) (registry : Registry)
    → add_both fails first second registry ≡ ok (registry ++ first ∷ second ∷ [])
add_both-accepted fails accepts first second registry = rw (accepts first, accepts second) refl

-- By the flag --rtp-cc.
abbrev pub estimators : SendFlags → List Factory
estimators fl =
    if str_eq fl.rtp_cc "scream"
    then scream_sender (signed64 fl.initial_target_bitrate) 100_000 ∷ []
    else (if str_eq fl.rtp_cc "gcc"
        then twcc_header_extension ∷ gcc_estimator 100_000 100_000 ∷ []
        else [])

abbrev routines_of : SendFlags → List Routine
routines_of fl =
    if str_eq fl.rtp_cc "scream"
    then run_scream ∷ []
    else (if str_eq fl.rtp_cc "gcc" then run_gcc ∷ [] else [])

abbrev bwe_of : SendFlags → Option String
bwe_of fl = if str_eq fl.rtp_cc "scream" || str_eq fl.rtp_cc "gcc" then some fl.cc_dump else none

module _ (os : Os) (fails : Constructors) (accepts : Accepts fails) (rtp_file rtcp_file : String)
    (rtp rtcp : LogFile) (opens_rtp : get_log_file os rtp_file ≡ ok rtp)
    (opens_rtcp : get_log_file os rtcp_file ≡ ok rtcp) where
  sender_packet_log-accepted :
      register_sender_packet_log fails os rtp_file rtcp_file []
      ≡ ok (dumps_sent_rtp rtp ∷ dumps_received_rtcp rtcp ∷ [])
  unfolding register_sender_packet_log register_rtp_sender_dumper
  sender_packet_log-accepted =
      rw (opens_rtp, opens_rtcp)
        (add_both-accepted fails accepts (dumps_sent_rtp rtp) (dumps_received_rtcp rtcp) [])

  receiver_packet_log-accepted :
      register_receiver_packet_log fails os rtp_file rtcp_file []
      ≡ ok (dumps_sent_rtcp rtcp ∷ dumps_received_rtp rtp ∷ [])
  unfolding register_receiver_packet_log register_rtp_receiver_dumper
  receiver_packet_log-accepted =
      rw (opens_rtp, opens_rtcp)
        (add_both-accepted fails accepts (dumps_sent_rtcp rtcp) (dumps_received_rtp rtp) [])

-- If the two log files of the sender can be made and no constructor fails: the registry has the log
-- of the packets sent and that of the feedback received, and behind them what --rtp-cc asks for:
-- SCReAM's sender with the initial target, or the TWCC header extension and GCC. The controller has
-- an estimator exactly with these two, and the goroutine for it runs: with gcc, the one that
-- panics.
pub setup_interceptor-registry :
    (os : Os) (fails : Constructors) (fl : SendFlags) (rtp rtcp : LogFile)
    → Accepts fails
    → get_log_file os fl.rtp_dump_file ≡ ok rtp
    → get_log_file os fl.rtcp_dump_file ≡ ok rtcp
    → let (s, registry) = setup_interceptor os fails fl in
      (registry ≡ ok (dumps_sent_rtp rtp ∷ dumps_received_rtcp rtcp ∷ estimators fl))
      × (s.bwe ≡ bwe_of fl)
      × (s.routines ≡ routines_of fl)
unfolding setup_interceptor new apply_all register_scream register_gcc
    register_twcc_header_extension to_string
setup_interceptor-registry os fails fl rtp rtcp accepts opens_rtp opens_rtcp =
    let log = sender_packet_log-accepted os fails accepts _ _ rtp rtcp opens_rtp opens_rtcp in
    let added = add-accepted fails accepts in
    elim (Bool-cases (str_eq fl.rtp_cc "scream")) [
      | inl is_scream ↦
          let not_gcc = str_eq-other fl.rtp_cc "scream" "gcc" refl is_scream in
          rw
            (
              is_scream,
              not_gcc,
              log,
              added (scream_sender (signed64 fl.initial_target_bitrate) 100_000),
            )
            (refl, refl, refl)
      | inr not_scream ↦ elim (Bool-cases (str_eq fl.rtp_cc "gcc")) [
        | inl is_gcc ↦
            rw
              (
                not_scream,
                is_gcc,
                log,
                added twcc_header_extension,
                added (gcc_estimator 100_000 100_000),
              )
              (refl, refl, refl)
        | inr not_gcc ↦ rw (not_scream, not_gcc, log) (refl, refl, refl)
      ]
    ]

-- By the flag --rtcp-feedback.
abbrev pub feedback_factories : ReceiveFlags → List Factory
feedback_factories fl =
    if str_eq fl.rtcp_feedback "rfc8888"
    then scream_receiver 10 ∷ []
    else (if str_eq fl.rtcp_feedback "rfc8888-pion"
        then rfc8888_sender 10 ∷ []
        else (if str_eq fl.rtcp_feedback "twcc" then twcc_sender 10 ∷ [] else []))

feedback_options-factories :
    (fails : Constructors) (fl : ReceiveFlags) (registry : Registry)
    → Accepts fails
    → apply_all (feedback_options fails (get_rtcp fl.rtcp_feedback)) registry
      ≡ ok (registry ++ feedback_factories fl)
unfolding apply_all feedback_options get_rtcp register_twcc register_rfc8888 register_rfc8888_pion
feedback_options-factories fails fl registry accepts =
    let added = add-accepted fails accepts in
    elim (Bool-cases (str_eq fl.rtcp_feedback "rfc8888")) [
      | inl ours ↦
          let others = str_eq-other fl.rtcp_feedback "rfc8888" in
          rw (ours, others "none" refl ours, added (scream_receiver 10)) refl
      | inr not_ours ↦ elim (Bool-cases (str_eq fl.rtcp_feedback "rfc8888-pion")) [
        | inl pions ↦
            let others = str_eq-other fl.rtcp_feedback "rfc8888-pion" in
            rw (not_ours, pions, others "none" refl pions, added (rfc8888_sender 10)) refl
        | inr not_pions ↦ elim (Bool-cases (str_eq fl.rtcp_feedback "twcc")) [
          | inl twcc ↦
              let others = str_eq-other fl.rtcp_feedback "twcc" in
              rw (not_ours, not_pions, twcc, others "none" refl twcc, added (twcc_sender 10)) refl
          | inr not_twcc ↦ elim (Bool-cases (str_eq fl.rtcp_feedback "none")) [
            | inl nothing ↦ rw (not_ours, not_pions, not_twcc, nothing, append-nil registry) refl
            | inr unknown ↦ rw (not_ours, not_pions, not_twcc, unknown, append-nil registry) refl
          ]
        ]
      ]
    ]

-- If the two log files of the receiver can be made and no constructor fails: the registry of every
-- new stream has the log of the feedback sent and that of the packets received, and behind them the
-- sender of the feedback that --rtcp-feedback names, with an interval of 10 ms; none for `none` and
-- for a name that is not known.
pub new_receiver_controller-registry :
    (os : Os) (fails : Constructors) (fl : ReceiveFlags) (rtp rtcp : LogFile)
    → Accepts fails
    → get_log_file os fl.rtp_dump_file ≡ ok rtp
    → get_log_file os fl.rtcp_dump_file ≡ ok rtcp
    → new (new_receiver_controller os fails fl).rtp_options
      ≡ ok (dumps_sent_rtcp rtcp ∷ dumps_received_rtp rtp ∷ feedback_factories fl)
unfolding new apply_all new_receiver_controller
new_receiver_controller-registry os fails fl rtp rtcp accepts opens_rtp opens_rtcp =
    rw (receiver_packet_log-accepted os fails accepts _ _ rtp rtcp opens_rtp opens_rtcp)
      (feedback_options-factories fails fl _ accepts)
