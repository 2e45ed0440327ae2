-- ===== src/Rtp/Unwrapper/Tracking.antt =====
-- What the index returned by `unwrap` has to do with the one that the sender counts.
use rtp_over_quic.Base.{
  ℕ, ◌+◌, ◌-◌, ◌%◌, ◌^◌, ◌≤◌, ◌<◌, ◌≡◌, refl, ap, true, List, [], ◌∷◌, map, arith, if◌then◌else◌,
  leb, ltb, ◌&&◌,
}
use rtp_over_quic.Base.Int.{pos, sub_ℕ, int64-pos, int64-sub_ℕ}
use rtp_over_quic.Rtp.Unwrapper.{
  Unwrapper, delta_of, unwrap, new_unwrapper, sub16, is_newer, can_go_back, unwrap_all,
}

-- Two indices less than half the range of a sequence number apart.
abbrev IsNear : ℕ → ℕ → Type 0
IsNear n k = (k < n + 32768) × (n < k + 32768)

abbrev pub at : ℕ → Unwrapper
at n = record { init = true; last_unwrapped = pos n }

can_go_back-pos :
    (n d : ℕ) → n < 2 ^ 62 → d < 65536 → can_go_back (pos n) (pos d) ≡ leb 65536 (n + d)
unfolding can_go_back
can_go_back-pos n d hn hd = ground (arith, int64-pos (n + d), int64-sub_ℕ (n + d) 65536)

-- The adjustments, over plain numbers.
delta_of-pos :
    (n i : ℕ)
    → n < 2 ^ 62
    → i < 65536
    → delta_of i (pos n) ≡ (
        let d = sub16 i (n % 65536) in
        if is_newer i (n % 65536)
        then pos d
        else (if ltb 0 d && leb 65536 (n + d) then sub_ℕ d 65536 else pos d))
unfolding delta_of
delta_of-pos n i hn hi =
    ground (arith, can_go_back-pos n (sub16 i (n % 65536)), int64-sub_ℕ (sub16 i (n % 65536)) 65536)

is_newer-near : (n k : ℕ) → IsNear n k → is_newer (k % 65536) (n % 65536) ≡ ltb n k
unfolding is_newer
is_newer-near n k near = ground arith

sub16-ahead : (n k : ℕ) → n ≤ k → k < n + 32768 → sub16 (k % 65536) (n % 65536) ≡ k - n
sub16-ahead n k h near = omega arith

sub16-behind : (n k : ℕ) → k < n → n < k + 32768 → sub16 (k % 65536) (n % 65536) ≡ k + 65536 - n
sub16-behind n k h near = omega arith

delta_of-near : (n k : ℕ) → n < 2 ^ 62 → IsNear n k → delta_of (k % 65536) (pos n) ≡ sub_ℕ k n
delta_of-near n k hn near =
    rw (delta_of-pos n (k % 65536) hn (omega arith), is_newer-near n k near)
      (ground (arith, sub16-ahead n k, sub16-behind n k))

unwrap-near :
    (n k : ℕ) → n < 2 ^ 62 → k < 2 ^ 62 → IsNear n k → unwrap (at n) (k % 65536) ≡ (at k, pos k)
unfolding unwrap
unwrap-near n k hn hk near = rw (delta_of-near n k hn near) (ground (arith, int64-pos k))

-- The indices of packets in the order of their arrival, each near the one before.
abbrev pub Follows : ℕ → List ℕ → Type 0
Follows n [] = Unit {0}
Follows n (k ∷ ks) = (k < 2 ^ 62) × IsNear n k × Follows k ks

abbrev pub wrapped : List ℕ → List ℕ
wrapped = map λ k. k % 65536

unwrap_all-at :
    (n : ℕ) (ks : List ℕ) → n < 2 ^ 62 → Follows n ks → unwrap_all (at n) (wrapped ks) ≡ map pos ks
unfolding unwrap_all
unwrap_all-at n [] hn follows = refl
unwrap_all-at n (k ∷ ks) hn (hk, near, follows) =
    rw (unwrap-near n k hn hk near) (ap (◌∷◌ (pos k)) (unwrap_all-at k ks hk follows))

-- If the sender counts its packets from a first index below 65536, puts each index modulo 65536
-- into the header, and every packet that arrives has an index below 2 ^ 62 less than 32768 away
-- from that of the packet before it (lost, late and repeated packets included), then the results
-- of `unwrap` are the sender's indices.
pub unwrap_all-wrapped :
    (k : ℕ) (ks : List ℕ)
    → k < 65536
    → Follows k ks
    → unwrap_all new_unwrapper (wrapped (k ∷ ks)) ≡ map pos (k ∷ ks)
unfolding unwrap_all unwrap
unwrap_all-wrapped k ks hk follows =
    let same : k % 65536 ≡ k = omega arith in
    rw same (ap (◌∷◌ (pos k)) (unwrap_all-at k ks (omega arith) follows))

-- Where an index lands.
abbrev landing : ℕ → ℕ → ℕ
landing n i =
    let d = sub16 i (n % 65536) in
    if is_newer i (n % 65536)
    then n + d
    else (if ltb 0 d && leb 65536 (n + d) then n + d - 65536 else n + d)

landing_bounds :
    (n i : ℕ)
    → i < 65536
    → (landing n i % 65536 ≡ i) × (landing n i < n + 65536) × (n ≤ landing n i + 32768)
unfolding is_newer
landing_bounds n i hi = (ground arith, ground arith, ground arith)

-- On every uint16, also one far from the last: the result is an index that is not negative, has
-- the packet's sequence number as its low 16 bits, and is at most 32768 back and 65535 ahead. It
-- is also what the struct remembers.
pub unwrap-mod :
    (n i : ℕ)
    → n < 2 ^ 62
    → i < 65536
    → (m : ℕ) × (unwrap (at n) i ≡ (at m, pos m))
      × (m % 65536 ≡ i)
      × (m < n + 65536)
      × (n ≤ m + 32768)
unfolding unwrap
unwrap-mod n i hn hi =
    let (low, ahead, back) = landing_bounds n i hi in
    (
      landing n i,
      rw (delta_of-pos n i hn hi) (ground (arith, int64-pos (landing n i))),
      low,
      ahead,
      back,
    )
