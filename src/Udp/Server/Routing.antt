-- ===== src/Udp/Server/Routing.antt =====
-- Each address has one handler, and its packets in order.
use rtp_over_quic.Base.{
  ℕ, ◌≡◌, refl, ap, true, false, List, [], ◌∷◌, mem_nat, take, Bool-cases, inl, inr, arith,
}
use rtp_over_quic.Udp.Server.{
  Read, datagram, closed, broken, Act, new_handler, receives, serve, start, buffer_size,
}

-- The datagrams that are read before `Start` returns, as the buffer holds them.
abbrev pub arrived : List Read → List (ℕ × List ℕ)
arrived [] = []
arrived (datagram addr buf ∷ reads) = (addr, take buffer_size buf) ∷ arrived reads
arrived (closed ∷ reads) = []
arrived (broken ∷ reads) = []

abbrev pub received : List Act → List (ℕ × List ℕ)
received [] = []
received (new_handler addr ∷ acts) = received acts
received (receives addr buf ∷ acts) = (addr, buf) ∷ received acts

-- Every packet goes to a handler that was made before, and no address gets a second handler.
abbrev pub IsRouted : List ℕ → List Act → Type 0
IsRouted handlers [] = Unit {0}
IsRouted handlers (new_handler addr ∷ acts) =
    (mem_nat addr handlers ≡ false) × IsRouted (addr ∷ handlers) acts
IsRouted handlers (receives addr buf ∷ acts) =
    (mem_nat addr handlers ≡ true) × IsRouted handlers acts

mem_self : (addr : ℕ) (handlers : List ℕ) → mem_nat addr (addr ∷ handlers) ≡ true
mem_self addr handlers = ground arith

serve-received :
    (handlers : List ℕ) (reads : List Read) → received (serve handlers reads).0 ≡ arrived reads
unfolding serve
serve-received handlers [] = refl
serve-received handlers (closed ∷ reads) = refl
serve-received handlers (broken ∷ reads) = refl
serve-received handlers (datagram addr buf ∷ reads) = elim (Bool-cases (mem_nat addr handlers)) [
  | inl old ↦ rw old (ap (◌∷◌ (addr, take buffer_size buf)) (serve-received handlers reads))
  | inr new ↦
      rw new (ap (◌∷◌ (addr, take buffer_size buf)) (serve-received (addr ∷ handlers) reads))
]

serve-IsRouted :
    (handlers : List ℕ) (reads : List Read) → IsRouted handlers (serve handlers reads).0
unfolding serve
serve-IsRouted handlers [] = tt
serve-IsRouted handlers (closed ∷ reads) = tt
serve-IsRouted handlers (broken ∷ reads) = tt
serve-IsRouted handlers (datagram addr buf ∷ reads) = elim (Bool-cases (mem_nat addr handlers)) [
  | inl old ↦ rw old (old, serve-IsRouted handlers reads)
  | inr new ↦ rw new (new, (mem_self addr handlers, serve-IsRouted (addr ∷ handlers) reads))
]

-- The server hands on every datagram that it reads, each cut to 1500 bytes, in the order in which
-- they arrive, to the handler of its source address. A handler is made before its first packet, and
-- no address gets a second one.
pub start-IsRouted :
    (reads : List Read) → (received (start reads).0 ≡ arrived reads) × IsRouted [] (start reads).0
unfolding start
start-IsRouted reads = (serve-received [] reads, serve-IsRouted [] reads)
