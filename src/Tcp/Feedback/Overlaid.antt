-- ===== src/Tcp/Feedback/Overlaid.antt =====
-- Which bytes the sender's interceptors process.
use rtp_over_quic.Base.{
  ℕ, ◌≡◌, refl, ap, List, [], ◌∷◌, ◌++◌, map, Option, none, some, length, take, drop, All, ◌⊎◌, inl,
  inr, take-append_self,
}
use rtp_over_quic.Tcp.Framing.{Ending, read_from_network}
use rtp_over_quic.Tcp.Framing.Trip.{IsFrameable, frames, conn, read_from_network-frames}
use rtp_over_quic.Tcp.Feedback.{Event, copies, meets, processes, Shared, cut, copied, run, waiting}

-- The report with the beginning of the next one over it.
abbrev pub overlaid : List ℕ → List ℕ → List ℕ
overlaid [] m = m
overlaid (b ∷ next) [] = []
overlaid (b ∷ next) (x ∷ m) = b ∷ overlaid next m

-- The report, or the report under the one behind it.
abbrev pub IsReport : List ℕ → List (List ℕ) → List ℕ → Type 0
IsReport m [] out = out ≡ cut m
IsReport m (next ∷ ms) out = (out ≡ cut m) ⊎ (out ≡ overlaid (cut next) (cut m))

-- Each output is the report of its place.
abbrev pub AreReports : List (List ℕ) → List (List ℕ) → Type 0
AreReports [] ms = Unit {0}
AreReports (out ∷ outs) [] = ⊥
AreReports (out ∷ outs) (m ∷ ms) = IsReport m ms out × AreReports outs ms

take-overlaid :
    (next m tail : List ℕ)
    → take (length m) (next ++ drop (length next) (m ++ tail)) ≡ overlaid next m
take-overlaid [] m tail = take-append_self m tail
take-overlaid (b ∷ next) [] tail = refl
take-overlaid (b ∷ next) (x ∷ m) tail = ap (◌∷◌ b) (take-overlaid next m tail)

IsReport-whole : (m : List ℕ) (ms : List (List ℕ)) (out : List ℕ) → out ≡ cut m → IsReport m ms out
IsReport-whole m [] out e = e
IsReport-whole m (next ∷ ms) out e = inl e

-- Where the two goroutines stand, and which reports are still to be processed: `ms`.
abbrev Stands : List (List ℕ) → List ℕ → Option ℕ → Option ℕ → List (List ℕ) → Type 0
Stands unread buf none none ms = ms ≡ unread
Stands unread buf (some n) none ms =
    (m : List ℕ) × (tail : List ℕ) × (buf ≡ cut m ++ tail)
    × (n ≡ length (cut m))
    × (ms ≡ m ∷ unread)
Stands unread buf none (some n) ms =
    (m : List ℕ) × (tail : List ℕ) × (buf ≡ cut m ++ tail)
    × (n ≡ length (cut m))
    × (ms ≡ m ∷ unread)
Stands unread buf (some k) (some n) ms =
    (m : List ℕ) × (next : List ℕ) × (tail : List ℕ) × (buf ≡ copied next (cut m ++ tail))
    × (n ≡ length (cut m))
    × (k ≡ length (cut next))
    × (ms ≡ m ∷ next ∷ unread)

abbrev state : List (List ℕ) → List ℕ → Option ℕ → Option ℕ → Shared
state unread buf offered taken = record {
  frames = unread;
  buf = buf;
  offered = offered;
  taken = taken;
}

run-AreReports :
    (unread : List (List ℕ)) (buf : List ℕ) (offered taken : Option ℕ) (ms : List (List ℕ))
    (es : List Event)
    → Stands unread buf offered taken ms
    → AreReports (run (state unread buf offered taken) es) ms
unfolding run
run-AreReports unread buf offered taken ms [] stands = tt
run-AreReports [] buf none none ms (copies ∷ es) stands =
    run-AreReports [] buf none none ms es stands
run-AreReports (tmp ∷ unread) buf none none ms (copies ∷ es) stands =
    run-AreReports unread (copied tmp buf) (some (length (cut tmp))) none ms es
      (tmp, drop (length (cut tmp)) buf, refl, refl, stands)
run-AreReports [] buf none (some n) ms (copies ∷ es) stands =
    run-AreReports [] buf none (some n) ms es stands
run-AreReports (tmp ∷ unread) buf none (some n) ms (copies ∷ es) (m, tail, b, len, all) =
    run-AreReports unread (copied tmp buf) (some (length (cut tmp))) (some n) ms es
      (m, tmp, tail, ap (copied tmp) b, len, refl, all)
run-AreReports unread buf (some k) none ms (copies ∷ es) stands =
    run-AreReports unread buf (some k) none ms es stands
run-AreReports unread buf (some k) (some n) ms (copies ∷ es) stands =
    run-AreReports unread buf (some k) (some n) ms es stands
run-AreReports unread buf none none ms (meets ∷ es) stands =
    run-AreReports unread buf none none ms es stands
run-AreReports unread buf (some k) none ms (meets ∷ es) stands =
    run-AreReports unread buf none (some k) ms es stands
run-AreReports unread buf none (some n) ms (meets ∷ es) stands =
    run-AreReports unread buf none (some n) ms es stands
run-AreReports unread buf (some k) (some n) ms (meets ∷ es) stands =
    run-AreReports unread buf (some k) (some n) ms es stands
run-AreReports unread buf none none ms (processes ∷ es) stands =
    run-AreReports unread buf none none ms es stands
run-AreReports unread buf (some k) none ms (processes ∷ es) stands =
    run-AreReports unread buf (some k) none ms es stands
run-AreReports unread buf none (some n) ms (processes ∷ es) (m, tail, b, len, all) =
    rw (all, b, len)
      (
        IsReport-whole m unread (take (length (cut m)) (cut m ++ tail))
            (take-append_self (cut m) tail),
        run-AreReports unread (cut m ++ tail) none none unread es refl,
      )
run-AreReports unread buf (some k) (some n) ms (processes ∷ es) (m, next, tail, b, len, len', all) =
    rw (all, b, len, len')
      (
        inr (take-overlaid (cut next) (cut m) tail),
        run-AreReports unread (copied next (cut m ++ tail)) (some (length (cut next))) none
            (next ∷ unread) es (next, drop (length (cut next)) (cut m ++ tail), refl, refl, refl),
      )

-- Each report is processed before the next frame is copied.
abbrev pub in_turn : List (List ℕ) → List Event
in_turn [] = []
in_turn (m ∷ ms) = copies ∷ meets ∷ processes ∷ in_turn ms

run-in_turn : (ms : List (List ℕ)) (buf : List ℕ) → run (waiting ms buf) (in_turn ms) ≡ map cut ms
unfolding run
run-in_turn [] buf = refl
run-in_turn (m ∷ ms) buf =
    rw (take-append_self (cut m)) (ap (◌∷◌ (cut m)) (run-in_turn ms (copied m buf)))

-- RTCP messages of less than 65536 bytes, from the receiver's frames to the sender's interceptors,
-- however the reading loop and `ReadRTCP` take turns: what is processed are the messages in order,
-- none twice and none left out before another, each with its own length, cut to 1500 bytes; its
-- bytes are its own, or the beginning of the next message is copied over them. If each message is
-- processed before the next one is copied, then all of them are processed with their own bytes.
pub run-reports :
    (ms : List (List ℕ)) (ending : Ending) (buf : List ℕ) (es : List Event)
    → All IsFrameable ms
    → let read = (read_from_network (length ms) (conn (frames ms) ending)).0 in
      AreReports (run (waiting read buf) es) ms × (run (waiting read buf) (in_turn ms) ≡ map cut ms)
run-reports ms ending buf es fit =
    rw (read_from_network-frames ms ending fit)
      (run-AreReports ms buf none none ms es refl, run-in_turn ms buf)
