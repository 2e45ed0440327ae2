-- ===== src/Scream/Ntp.antt =====
-- scream/scream.go, `ntpTime32`: the middle 32 bits of an NTP timestamp. Float conversions are
-- parameters.
use rtp_over_quic.Base.{
  ℕ, ◌+◌, ◌*◌, ◌/◌, ◌%◌, ◌^◌, ◌<◌, ◌≡◌, List, [], ◌∷◌, arith, Bool, true, false, ◌&&◌,
  if◌then◌else◌, String, str_eq,
}
use rtp_over_quic.Pion.{FloatLib}

-- `uint64(integerPart)<<32 | uint64(fractionalPart)`. The two parts do not overlap, so the
-- bitwise or is a sum.
abbrev ntp64 : ℕ → ℕ → ℕ
ntp64 integer_part fractional_part = integer_part * 2 ^ 32 % 2 ^ 64 + fractional_part

-- `>> 16`, `& 0xFFFFFFFF` and the conversion to uint32.
abbrev pub middle : ℕ → ℕ
middle ntp = ntp / 2 ^ 16 % 2 ^ 32

module _ (f : FloatLib) where
  -- `float64(t.UnixNano()) / 1000000000.0) + 2208988800`, for a time after 1970.
  abbrev pub seconds : ℕ → f.Float
  seconds unix_nano =
      f.add (f.div (f.of_nat unix_nano) (f.of_nat 1_000_000_000)) (f.of_nat 2_208_988_800)

  abbrev integer_part : ℕ → ℕ
  integer_part unix_nano = f.to_uint32 (seconds unix_nano)

  abbrev fractional_part : ℕ → ℕ
  fractional_part unix_nano =
      f.to_uint32 (
        f.mul (f.sub (seconds unix_nano) (f.of_nat (integer_part unix_nano))) (f.of_nat 0xFFFFFFFF))

  unfoldable ntp_time32 : ℕ → ℕ
  ntp_time32 unix_nano = middle (ntp64 (integer_part unix_nano) (fractional_part unix_nano))

  -- `getTimeNTP` of both interceptors.
  unfoldable pub get_time_ntp : ℕ → ℕ
  unfolding ntp_time32
  get_time_ntp t = ntp_time32 t

  -- Where a conversion to uint32 has a result below 2 ^ 32, the timestamp is a uint32: its high
  -- half is the low half of the seconds since 1900, and its low half the high half of the fraction.
  -- So it wraps every 65536 seconds.
  get_time_ntp-halves :
      (t : ℕ)
      → integer_part t < 2 ^ 32
      → fractional_part t < 2 ^ 32
      → (get_time_ntp t < 2 ^ 32)
        × (get_time_ntp t / 2 ^ 16 ≡ integer_part t % 2 ^ 16)
        × (get_time_ntp t % 2 ^ 16 ≡ fractional_part t / 2 ^ 16)
  unfolding get_time_ntp
  get_time_ntp-halves t hi hf = omega arith

-- `streamSupportSCReAM`, on the RTCP feedback entries (type, parameter) of the stream.
unfoldable pub stream_support_scream : List (String × String) → Bool
stream_support_scream [] = false
stream_support_scream ((type, parameter) ∷ rest) =
    if str_eq type "ack" && str_eq parameter "ccfb" then true else stream_support_scream rest
