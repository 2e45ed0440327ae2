-- ===== src/Rtp/Registry.antt =====
-- rtp/interceptor.go: the interceptors that a registry gets, in order. Those of pion and their
-- constructors are parameters: a constructor may return an error.
use rtp_over_quic.Base.{ℕ, List, [], ◌∷◌, ◌++◌, Option, Outcome, ok, ◌>>=◌, String}
use rtp_over_quic.Base.Int.{ℤ}
use rtp_over_quic.Logging.{Os, LogFile, get_log_file, without_error}

-- A factory in the registry: a packet dump of what is sent or received, by its formatter, with its
-- log file; pion's TWCC sender with its interval in milliseconds; its TWCC header extension; GCC
-- with its first bitrate and that of its pacer; the receiver of the package scream with its
-- interval; pion's RFC 8888 sender; the sender of the package scream with its first and least
-- bitrate.
pub data Factory : Type 0 where
  dumps_sent_rtp dumps_received_rtp dumps_sent_rtcp dumps_received_rtcp : LogFile → Factory
  twcc_sender : ℕ → Factory
  twcc_header_extension : Factory
  gcc_estimator : ℕ → ℕ → Factory
  scream_receiver rfc8888_sender : ℕ → Factory
  scream_sender : ℤ → ℕ → Factory

-- interceptor.Registry.
abbrev pub Registry : Type 0
Registry = List Factory

-- `Option`: it changes the registry or returns an error.
abbrev pub RegistryOption : Type 0
RegistryOption = Registry → Outcome Registry

-- The errors of the factories' constructors.
abbrev pub Constructors : Type 0
Constructors = Factory → Option String

-- 10 ms.
abbrev feedback_interval : ℕ
feedback_interval = 10

-- The loop over the options.
unfoldable pub apply_all : List RegistryOption → RegistryOption
apply_all [] registry = ok registry
apply_all (option ∷ options) registry = option registry >>= apply_all options

unfoldable pub new : List RegistryOption → Outcome Registry
unfolding apply_all
new options = apply_all options []

module _ (fails : Constructors) where
  -- Two dumps, both made before the first is added.
  abbrev pub add_both : Factory → Factory → RegistryOption
  add_both first second registry = do
    first' ← without_error (fails first) first
    second' ← without_error (fails second) second
    ok (registry ++ first' ∷ second' ∷ [])

  abbrev pub add : Factory → RegistryOption
  add factory registry = do made ← without_error (fails factory) factory; ok (registry ++ made ∷ [])

  unfoldable pub register_rtp_sender_dumper : LogFile → LogFile → RegistryOption
  register_rtp_sender_dumper rtp rtcp = add_both (dumps_sent_rtp rtp) (dumps_received_rtcp rtcp)

  unfoldable pub register_rtp_receiver_dumper : LogFile → LogFile → RegistryOption
  register_rtp_receiver_dumper rtp rtcp registry = do
    rtcp_dumper ← without_error (fails (dumps_sent_rtcp rtcp)) (dumps_sent_rtcp rtcp)
    rtp_dumper ← without_error (fails (dumps_received_rtp rtp)) (dumps_received_rtp rtp)
    ok (registry ++ rtcp_dumper ∷ rtp_dumper ∷ [])

  unfoldable pub register_sender_packet_log : Os → String → String → RegistryOption
  unfolding register_rtp_sender_dumper get_log_file
  register_sender_packet_log os rtp_file rtcp_file registry = do
    rtp ← get_log_file os rtp_file
    rtcp ← get_log_file os rtcp_file
    register_rtp_sender_dumper rtp rtcp registry

  unfoldable pub register_receiver_packet_log : Os → String → String → RegistryOption
  unfolding register_rtp_receiver_dumper get_log_file
  register_receiver_packet_log os rtp_file rtcp_file registry = do
    rtp ← get_log_file os rtp_file
    rtcp ← get_log_file os rtcp_file
    register_rtp_receiver_dumper rtp rtcp registry

  unfoldable pub register_twcc : RegistryOption
  register_twcc = add (twcc_sender feedback_interval)

  unfoldable pub register_twcc_header_extension : RegistryOption
  register_twcc_header_extension = add twcc_header_extension

  unfoldable pub register_gcc : RegistryOption
  register_gcc = add (gcc_estimator 100_000 100_000)

  unfoldable pub register_rfc8888 : RegistryOption
  register_rfc8888 = add (scream_receiver feedback_interval)

  unfoldable pub register_rfc8888_pion : RegistryOption
  register_rfc8888_pion = add (rfc8888_sender feedback_interval)

  unfoldable pub register_scream : ℤ → RegistryOption
  register_scream initial_bitrate = add (scream_sender initial_bitrate 100_000)
