-- ===== src/Tests/Packages.antt =====
-- Small instances of the packages that are parameters: pion's headers, float64 as thousandths of
-- natural numbers, varints of one symbol, a congestion control that always transmits.
use rtp_over_quic.Base.{
  ℕ, ◌+◌, ◌-◌, ◌*◌, ◌/◌, ◌%◌, ◌^◌, ◌≡◌, refl, false, List, [], ◌∷◌, ◌++◌, Outcome, ok, err, length,
  ltb, leb, ◌==◌, none, some, if◌then◌else◌,
}
use mathlib.Core.Path.{subst}
use rtp_over_quic.Pion.{RtpLib, FloatLib}
use rtp_over_quic.Scream.Tx.{TxLib}
use rtp_over_quic.Scream.Receiver.{RxLib}
use rtp_over_quic.Quic.Varint.{VarintLib, IsVarint}

-- A header is its sequence number, and marshals into two bytes.
abbrev pub small_rtp : RtpLib
small_rtp = record {
  Header = ℕ;
  marshal = λ h. ok (h / 256 ∷ h % 256 ∷ []);
  marshal_size = λ h. 2;
  ssrc = λ h. 7;
  sequence_number = λ h. h;
  marker = λ h. false;
  packet_size = λ h payload. 2 + length payload;
}

-- Thousandths; `negate` gives a number of its own.
abbrev pub thousandths : FloatLib
thousandths = record {
  Float = ℕ;
  of_nat = λ n. 1000 * n;
  sub = λ a b. a - b;
  add = λ a b. a + b;
  mul = λ a b. a * b / 1000;
  div = λ a b. 1000 * a / b;
  is_lt = ltb;
  is_le = leb;
  is_eq = ◌==◌;
  negate = λ a. a + 1000000000;
  to_uint32 = λ a. a / 1000 % 2 ^ 32;
  to_uint64 = λ a. a / 1000 % 2 ^ 64;
}

-- Its state counts the bytes that were transmitted.
abbrev pub always : TxLib small_rtp thousandths
always = record {
  Tx = ℕ;
  is_ok_to_transmit = λ tx now ssrc q. (tx, false, 0);
  add_transmitted = λ tx now ssrc size seq marker q. (tx + size, false);
  new_media_frame = λ tx now ssrc size q. (tx, false);
  register_new_stream = λ tx ssrc priority least first most. tx;
  incoming_standardized_feedback = λ tx now report. tx;
  get_target_bitrate = λ tx ssrc. 0;
}

-- A receiver counts its packets, and reports the number where it is asked with the mark.
abbrev pub counting : RxLib
counting = record {
  Rx = ℕ;
  new_rx = λ ssrc. 0;
  receive = λ rx now ssrc size seq. rx + 1;
  create_standardized_feedback = λ rx now mark. (rx, if mark then some (rx ∷ []) else none);
}

-- A varint of this instance is its number, as one symbol.
abbrev one_symbol_read : List ℕ → Outcome (ℕ × List ℕ)
one_symbol_read [] = err "EOF"
one_symbol_read (id ∷ rest) = ok (id, rest)

abbrev pub one_symbol : VarintLib
one_symbol = record { write = λ id. ok (id ∷ []); read = one_symbol_read; len = λ id. 1 }

pub one_symbol-IsVarint : IsVarint one_symbol
one_symbol-IsVarint = record {
  writes = λ id h. (id ∷ [], refl, refl);
  reads = λ id enc rest written.
      let same : id ∷ [] ≡ enc = cc (written) in
      subst (λ enc. one_symbol_read (enc ++ rest) ≡ ok (id, rest)) same refl;
}
