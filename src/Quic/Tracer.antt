-- ===== src/Quic/Tracer.antt =====
-- quic/qlog_tracer.go: the round-trip times that quic-go reports. A duration is the 64-bit pattern
-- of Go's int64; each update holds the lock, so it is one step.
pub mod Callbacks
use rtp_over_quic.Base.{
  ℕ, ◌≡◌, ◌≢◌, refl, ap, ◌∙◌, sym, List, [], ◌∷◌, ◌++◌, map, if◌then◌else◌, ◌==◌, ◌⊎◌, inl, inr,
  All, Bool-cases, ==_iff, arith,
}

-- The struct, and the statistics that `Metrics` copies it to and that quic-go reports.
record RttStats : Type 0 where
  pub min_rtt : ℕ
  pub smoothed_rtt : ℕ
  pub rtt_var : ℕ
  pub latest_rtt : ℕ

unfoldable update_min_rtt : ℕ → RttStats → RttStats
update_min_rtt d q = record q { min_rtt = d }

unfoldable update_smoothed_rtt : ℕ → RttStats → RttStats
update_smoothed_rtt d q = record q { smoothed_rtt = d }

unfoldable update_rtt_var : ℕ → RttStats → RttStats
update_rtt_var d q = record q { rtt_var = d }

unfoldable update_latest_rtt : ℕ → RttStats → RttStats
update_latest_rtt d q = record q { latest_rtt = d }

-- `if d != 0 { update(d) }`
abbrev unless_zero : ℕ → (ℕ → RttStats → RttStats) → RttStats → RttStats
unless_zero d update q = if d == 0 then q else update d q

unfoldable updated_metrics : RttStats → RttStats → RttStats
unfolding update_min_rtt update_smoothed_rtt update_rtt_var update_latest_rtt
updated_metrics stats q = unless_zero stats.latest_rtt update_latest_rtt (
    unless_zero stats.rtt_var update_rtt_var (
      unless_zero stats.smoothed_rtt update_smoothed_rtt
        (unless_zero stats.min_rtt update_min_rtt q)))

-- The reports of a connection, one after the other.
unfoldable trace : List RttStats → RttStats → RttStats
unfolding updated_metrics
trace [] q = q
trace (stats ∷ more) q = trace more (updated_metrics stats q)

-- The last of the numbers that is not 0, or the first value if all are 0.
abbrev IsLatest : ℕ → List ℕ → ℕ → Type 0
IsLatest v xs r =
    ((r ≡ v) × All (λ x. x ≡ 0) xs)
    ⊎ ((front : List ℕ) × (back : List ℕ) × (xs ≡ front ++ r ∷ back)
        × (r ≢ 0)
        × All (λ x. x ≡ 0) back)

abbrev pick : ℕ → ℕ → ℕ
pick v x = if x == 0 then v else x

abbrev pick_all : ℕ → List ℕ → ℕ
pick_all v [] = v
pick_all v (x ∷ xs) = pick_all (pick v x) xs

later :
    (v x : ℕ) (xs : List ℕ) (r : ℕ)
    → ((front : List ℕ) × (back : List ℕ) × (xs ≡ front ++ r ∷ back)
        × (r ≢ 0)
        × All (λ x. x ≡ 0) back)
    → IsLatest v (x ∷ xs) r
later v x xs r (front, back, e, nonzero, zeros) =
    inr (x ∷ front, back, ap (◌∷◌ x) e, nonzero, zeros)

pick_all-IsLatest : (v : ℕ) (xs : List ℕ) → IsLatest v xs (pick_all v xs)
pick_all-IsLatest v [] = inl (refl, tt)
pick_all-IsLatest v (x ∷ xs) = elim (Bool-cases (x == 0)) [
  | inl is ↦ rw is (elim (pick_all-IsLatest v xs) [
    | inl (e, zeros) ↦ inl (e, ((==_iff x 0).0 is, zeros))
    | inr last ↦ later v x xs _ last
  ])
  | inr not ↦ rw not (elim (pick_all-IsLatest x xs) [
    | inl (e, zeros) ↦ inr (
      [],
      xs,
      ap (λ r. r ∷ xs) (sym e),
      (λ z. let zero_x : x ≡ 0 = sym e ∙ z in ground arith),
      zeros,
    )
    | inr last ↦ later v x xs _ last
  ])
]

min_lem :
    (d : ℕ) (q : RttStats)
    → unless_zero d update_min_rtt q ≡ record q { min_rtt = pick q.min_rtt d }
unfolding update_min_rtt
min_lem d q = elim (Bool-cases (d == 0)) [ inl e ↦ rw e refl | inr e ↦ rw e refl ]

smoothed_lem :
    (d : ℕ) (q : RttStats)
    → unless_zero d update_smoothed_rtt q ≡ record q { smoothed_rtt = pick q.smoothed_rtt d }
unfolding update_smoothed_rtt
smoothed_lem d q = elim (Bool-cases (d == 0)) [ inl e ↦ rw e refl | inr e ↦ rw e refl ]

var_lem :
    (d : ℕ) (q : RttStats)
    → unless_zero d update_rtt_var q ≡ record q { rtt_var = pick q.rtt_var d }
unfolding update_rtt_var
var_lem d q = elim (Bool-cases (d == 0)) [ inl e ↦ rw e refl | inr e ↦ rw e refl ]

latest_lem :
    (d : ℕ) (q : RttStats)
    → unless_zero d update_latest_rtt q ≡ record q { latest_rtt = pick q.latest_rtt d }
unfolding update_latest_rtt
latest_lem d q = elim (Bool-cases (d == 0)) [ inl e ↦ rw e refl | inr e ↦ rw e refl ]

updated_metrics_lem :
    (s q : RttStats)
    → updated_metrics s q ≡ record {
      min_rtt = pick q.min_rtt s.min_rtt;
      smoothed_rtt = pick q.smoothed_rtt s.smoothed_rtt;
      rtt_var = pick q.rtt_var s.rtt_var;
      latest_rtt = pick q.latest_rtt s.latest_rtt;
    }
unfolding updated_metrics
updated_metrics_lem s q =
    rw
      (min_lem s.min_rtt q, smoothed_lem s.smoothed_rtt, var_lem s.rtt_var, latest_lem s.latest_rtt)
      refl

trace-fields :
    (stats : List RttStats) (q : RttStats)
    → ((trace stats q).min_rtt ≡ pick_all q.min_rtt (map (λ s. s.min_rtt) stats))
      × ((trace stats q).smoothed_rtt ≡ pick_all q.smoothed_rtt (map (λ s. s.smoothed_rtt) stats))
      × ((trace stats q).rtt_var ≡ pick_all q.rtt_var (map (λ s. s.rtt_var) stats))
      × ((trace stats q).latest_rtt ≡ pick_all q.latest_rtt (map (λ s. s.latest_rtt) stats))
unfolding trace
trace-fields [] q = (refl, refl, refl, refl)
trace-fields (s ∷ more) q = rw (trace, updated_metrics_lem s q) (trace-fields more _)

-- After any reports, each of the four values is the last one that was reported other than 0, and
-- the first value if there is none.
trace-IsLatest :
    (stats : List RttStats) (q : RttStats)
    → IsLatest q.min_rtt (map (λ s. s.min_rtt) stats) (trace stats q).min_rtt
      × IsLatest q.smoothed_rtt (map (λ s. s.smoothed_rtt) stats) (trace stats q).smoothed_rtt
      × IsLatest q.rtt_var (map (λ s. s.rtt_var) stats) (trace stats q).rtt_var
      × IsLatest q.latest_rtt (map (λ s. s.latest_rtt) stats) (trace stats q).latest_rtt
trace-IsLatest stats q =
    let (least, smoothed, var, latest) = trace-fields stats q in
    rw (least, smoothed, var, latest)
      (
        pick_all-IsLatest q.min_rtt _,
        pick_all-IsLatest q.smoothed_rtt _,
        pick_all-IsLatest q.rtt_var _,
        pick_all-IsLatest q.latest_rtt _,
      )
