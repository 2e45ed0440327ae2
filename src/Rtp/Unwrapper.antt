-- ===== src/Rtp/Unwrapper.antt =====
-- rtp/unwrapper.go: 16-bit RTP sequence numbers to a running 64-bit index.
pub mod Tracking
use rtp_over_quic.Base.{
  ℕ, ◌+◌, ◌-◌, ◌%◌, ◌≤◌, ◌<◌, ◌≡◌, refl, Bool, true, false, not, ◌&&◌, arith, ltb, ◌==◌, List, [],
  ◌∷◌, if◌then◌else◌,
}
use rtp_over_quic.Base.Int.{ℤ, pos, negsuc, ◌+ℤ◌, ◌-ℤ◌, ltb_ℤ, to_u16, int64}

abbrev max_sequence_number_plus_one : ℤ
max_sequence_number_plus_one = pos 65536

abbrev breakpoint : ℕ
breakpoint = 32768

-- `value - previous` on uint16.
abbrev pub sub16 : ℕ → ℕ → ℕ
sub16 a b = (a + 65536 - b) % 65536

pub record Unwrapper : Type 0 where
  pub init : Bool
  pub last_unwrapped : ℤ

-- The zero value of the struct.
abbrev pub new_unwrapper : Unwrapper
new_unwrapper = record { init = false; last_unwrapped = pos 0 }

unfoldable pub is_newer : ℕ → ℕ → Bool
is_newer value previous =
    if sub16 value previous == breakpoint
    then ltb previous value
    else not (value == previous) && ltb (sub16 value previous) breakpoint

-- `u.lastUnwrapped+delta-maxSequenceNumberPlusOne >= 0`
unfoldable pub can_go_back : ℤ → ℤ → Bool
can_go_back last delta =
    not (ltb_ℤ (int64 (int64 (last +ℤ delta) -ℤ max_sequence_number_plus_one)) (pos 0))

-- `delta`, after the adjustments of both branches.
unfoldable pub delta_of : ℕ → ℤ → ℤ
delta_of i last =
    let last_wrapped = to_u16 last in
    let delta = pos (sub16 i last_wrapped) in
    if is_newer i last_wrapped
    then (if ltb_ℤ delta (pos 0) then int64 (delta +ℤ max_sequence_number_plus_one) else delta)
    else (if ltb_ℤ (pos 0) delta && can_go_back last delta
        then int64 (delta -ℤ max_sequence_number_plus_one)
        else delta)

-- The method returns the new struct and its result.
unfoldable pub unwrap : Unwrapper → ℕ → Unwrapper × ℤ
unwrap u i =
    if not u.init
    then (record { init = true; last_unwrapped = pos i }, pos i)
    else let next = int64 (u.last_unwrapped +ℤ delta_of i u.last_unwrapped) in
      (record u { last_unwrapped = next }, next)

-- The results for the packets that a formatter sees one after the other.
unfoldable pub unwrap_all : Unwrapper → List ℕ → List ℤ
unwrap_all u [] = []
unwrap_all u (i ∷ is) = let (u', index) = unwrap u i in index ∷ unwrap_all u' is
