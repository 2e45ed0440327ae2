-- ===== src/Media/KeyFrame.antt =====
-- media/gstreamer.go, `isKeyFrame`: is an encoded frame a key frame? The answer becomes the
-- reliability of the frame's packets, which decides between datagram and stream.
use rtp_over_quic.Base.{
  ℕ, ◌≡◌, refl, Bool, true, false, ◌||◌, String, str_eq, if◌then◌else◌, List, [], ◌∷◌, Option, none,
  some, ◌%◌, ◌==◌,
}

-- What `isKeyFrame` comes to: an answer, a panic, or it waits for another NAL unit for ever.
pub data Answer : Type 0 where
  is : Bool → Answer
  panics waits : Answer

-- The error that comes with a NAL unit.
pub data NalError : Type 0 where
  no_error eof other_error : NalError

-- What `NextNAL` of pion's H264Reader returns: the unit's type, if there is a unit, and the error.
pub data Next : Type 0 where
  returns : Option ℕ → NalError → Next

-- pion's h264reader: whether a reader can be made for the bytes, what its calls of `NextNAL`
-- return, one after the other, and the type of an IDR slice.
pub record H264Lib : Type 0 where
  pub opens : List ℕ → Bool
  pub calls : List ℕ → List Next
  pub coded_slice_idr : ℕ

unfoldable is_idr : ℕ → Option ℕ → Bool
is_idr idr none = false
is_idr idr (some t) = t == idr

-- The loop, for the pair that the last call returned and what the further calls return.
unfoldable scan : ℕ → Option ℕ → NalError → List Next → Bool → Answer
unfolding is_idr
scan idr none e calls has_idr = is has_idr
scan idr (some t) eof calls has_idr = is has_idr
scan idr (some t) other_error calls has_idr = panics
scan idr (some t) no_error [] has_idr = waits
scan idr (some t) no_error (returns nal e ∷ calls) has_idr =
    scan idr nal e calls (has_idr || is_idr idr nal)

-- The first call, before the loop.
unfoldable scan_all : ℕ → List Next → Answer
unfolding scan
scan_all idr [] = waits
scan_all idr (returns nal e ∷ calls) = scan idr nal e calls false

unfoldable pub is_key_frame : H264Lib → String → List ℕ → Answer
unfolding scan_all
is_key_frame lib codec buffer =
    if str_eq codec "vp8"
    then first_bit buffer
    else (if str_eq codec "h264"
        then (if lib.opens buffer then scan_all lib.coded_slice_idr (lib.calls buffer) else panics)
        else is false)
  where
    first_bit : List ℕ → Answer
    first_bit [] = panics
    first_bit (b ∷ bytes) = is (b % 2 == 0)

-- The calls that return the units of a frame, and the end.
abbrev pub units : List ℕ → List Next
units [] = returns none eof ∷ []
units (t ∷ ts) = returns (some t) no_error ∷ units ts

-- Is one of the units an IDR slice?
unfoldable pub any_idr : ℕ → List ℕ → Bool
any_idr idr [] = false
any_idr idr (t ∷ ts) = (t == idr) || any_idr idr ts

scan-units :
    (idr t : ℕ) (ts : List ℕ) (has_idr : Bool)
    → scan idr (some t) no_error (units ts) has_idr ≡ is (has_idr || any_idr idr ts)
unfolding scan any_idr is_idr
scan-units idr t [] true = refl
scan-units idr t [] false = refl
scan-units idr t (u ∷ us) true = scan-units idr u us true
scan-units idr t (u ∷ us) false = scan-units idr u us (u == idr)

-- For h264, where the reader returns the units of the frame without an error and then the end: the
-- frame counts as a key frame if one of its units after the first one is an IDR slice. The first
-- unit is not looked at.
pub is_key_frame-units :
    (lib : H264Lib) (buffer : List ℕ) (t : ℕ) (ts : List ℕ)
    → lib.opens buffer ≡ true
    → lib.calls buffer ≡ units (t ∷ ts)
    → is_key_frame lib "h264" buffer ≡ is (any_idr lib.coded_slice_idr ts)
unfolding is_key_frame scan_all
is_key_frame-units lib buffer t ts opens calls =
    rw (opens, calls) (scan-units lib.coded_slice_idr t ts false)
