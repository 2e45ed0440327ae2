-- ===== src/Cmd/Feedback.antt =====
-- cmd/receive.go: the RTCP feedback that the flag --rtcp-feedback names.
use rtp_over_quic.Base.{ℕ, zero, suc, ◌≡◌, refl, String, str_eq, if◌then◌else◌, ◌==◌, ◌<◌, arith}

-- An RTCPFeedback is an int; the constants are 0 to 3.
abbrev rtcp_none : ℕ
rtcp_none = 0

abbrev pub rtcp_rfc8888 : ℕ
rtcp_rfc8888 = 1

abbrev pub rtcp_rfc8888_pion : ℕ
rtcp_rfc8888_pion = 2

abbrev pub rtcp_twcc : ℕ
rtcp_twcc = 3

-- The method `String`.
unfoldable feedback_name : ℕ → String
feedback_name f =
    if f == rtcp_none
    then "none"
    else (if f == rtcp_rfc8888
        then "rfc8888"
        else (if f == rtcp_rfc8888_pion
            then "rfc8888-pion"
            else (if f == rtcp_twcc then "twcc" else "none")))

unfoldable pub get_rtcp : String → ℕ
get_rtcp choice =
    if str_eq choice "none"
    then rtcp_none
    else (if str_eq choice "rfc8888"
        then rtcp_rfc8888
        else (if str_eq choice "rfc8888-pion"
            then rtcp_rfc8888_pion
            else (if str_eq choice "twcc" then rtcp_twcc else rtcp_none)))

-- Each of the four kinds of feedback is read back from its name.
get_rtcp-feedback_name : (f : ℕ) → f < 4 → get_rtcp (feedback_name f) ≡ f
unfolding get_rtcp feedback_name
get_rtcp-feedback_name zero h = refl
get_rtcp-feedback_name (suc zero) h = refl
get_rtcp-feedback_name (suc (suc zero)) h = refl
get_rtcp-feedback_name (suc (suc (suc zero))) h = refl
get_rtcp-feedback_name (suc (suc (suc (suc f)))) h = absurd (omega arith)
