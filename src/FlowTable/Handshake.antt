-- ===== src/FlowTable/Handshake.antt =====
-- packet/flow.go: tcpFlow follows the four flags of a closing handshake. A history lists the
-- segments that the flow has seen, the latest first, each with its direction.
use go_flows.Shared.{
  ℕ, zero, suc, ◌<◌, ◌≡◌, Bool, true, false, not, ◌&&◌, ◌||◌, some, List, [], ◌∷◌, arith,
  Bool-cases, inl, inr, get_elem?, ◌↔◌,
}
use go_flows.FlowTable.State.{TcpFlags, Handshake}
use go_flows.FlowTable.Tcp.{advance, closed}

abbrev pub Segment : Type 0
Segment = Bool × TcpFlags

abbrev pub no_handshake : Handshake
no_handshake = record { src_fin = false; dst_fin = false; dst_ack = false; src_ack = false }

unfoldable pub follow : List Segment → Handshake
follow [] = no_handshake
follow ((forward, flags) ∷ past) = advance forward flags (follow past)

-- The flags of one direction: of the first packet's (`true`), or of the other.
abbrev pub sent_fin : Bool → Handshake → Bool
sent_fin true h = h.src_fin
sent_fin false h = h.dst_fin

abbrev pub answered : Bool → Handshake → Bool
answered true h = h.src_ack
answered false h = h.dst_ack

-- The segment at position `i` goes in direction `d` and has FIN.
abbrev pub IsFin : Bool → List Segment → ℕ → Type 0
IsFin d l i = (flags : TcpFlags) × (get_elem? l i ≡ some (d, flags)) × (flags.fin ≡ true)

-- The segment at position `i` goes against direction `d` and has ACK.
abbrev pub IsAnswer : Bool → List Segment → ℕ → Type 0
IsAnswer d l i = (flags : TcpFlags) × (get_elem? l i ≡ some (not d, flags)) × (flags.ack ≡ true)

-- A segment of direction `d` had FIN, and a later one of the other side had ACK.
abbrev pub IsFinished : Bool → List Segment → Type 0
IsFinished d l = (i : ℕ) × ((j : ℕ) × ((j < i) × IsFin d l i × IsAnswer d l j))

abbrev goes : Bool → Bool → Bool
goes true d = d
goes false d = not d

sent_fin-advance :
    (d forward : Bool) (flags : TcpFlags) (h : Handshake)
    → sent_fin d (advance forward flags h) ≡ sent_fin d h || goes forward d && flags.fin
unfolding advance
sent_fin-advance d forward flags h = ground arith

answered-advance :
    (d forward : Bool) (flags : TcpFlags) (h : Handshake)
    → answered d (advance forward flags h)
      ≡ answered d h || sent_fin d h && not (goes forward d) && flags.ack
unfolding advance
answered-advance d forward flags h = ground arith

sent_fin-IsFin :
    (d : Bool) (l : List Segment) → sent_fin d (follow l) ≡ true → (i : ℕ) × IsFin d l i
unfolding follow
sent_fin-IsFin true [] h = absurd (cc)
sent_fin-IsFin false [] h = absurd (cc)
sent_fin-IsFin d ((forward, flags) ∷ past) h = elim (Bool-cases (sent_fin d (follow past))) [
  | inl before ↦ let (i, f) = sent_fin-IsFin d past before in (suc i, f)
  | inr now ↦ (
    0,
    (
      flags,
      ground (arith, sent_fin-advance d forward flags (follow past)),
      ground (arith, sent_fin-advance d forward flags (follow past)),
    ),
  )
]

IsFin-sent_fin : (d : Bool) (l : List Segment) (i : ℕ) → IsFin d l i → sent_fin d (follow l) ≡ true
unfolding follow
IsFin-sent_fin d [] i (flags, e, fin) = absurd (cc e)
IsFin-sent_fin d ((forward, flags) ∷ past) zero (_, e, fin) =
    ground (arith, sent_fin-advance d forward flags (follow past))
IsFin-sent_fin d ((forward, flags) ∷ past) (suc i) f =
    ground (arith, sent_fin-advance d forward flags (follow past), IsFin-sent_fin d past i f)

answered-IsFinished : (d : Bool) (l : List Segment) → answered d (follow l) ≡ true → IsFinished d l
unfolding follow
answered-IsFinished true [] h = absurd (cc)
answered-IsFinished false [] h = absurd (cc)
answered-IsFinished d ((forward, flags) ∷ past) h = elim (Bool-cases (answered d (follow past))) [
  | inl before ↦
      let (i, (j, (later, f, a))) = answered-IsFinished d past before in
      (suc i, (suc j, (omega arith, f, a)))
  | inr now ↦
      let law = answered-advance d forward flags (follow past) in
      let (i, f) = sent_fin-IsFin d past (ground (arith, law)) in
      (suc i, (0, (omega arith, f, (flags, ground (arith, law), ground (arith, law)))))
]

IsFinished-answered :
    (d : Bool) (l : List Segment) (i j : ℕ)
    → j < i
    → IsFin d l i
    → IsAnswer d l j
    → answered d (follow l) ≡ true
unfolding follow
IsFinished-answered d [] i j later f (flags, e, ack) = absurd (cc e)
IsFinished-answered d ((forward, flags) ∷ past) zero j later f a = absurd (omega arith)
IsFinished-answered d ((forward, flags) ∷ past) (suc i) zero later f (_, e, ack) =
    ground (arith, answered-advance d forward flags (follow past), IsFin-sent_fin d past i f)
IsFinished-answered d ((forward, flags) ∷ past) (suc i) (suc j) later f a = ground (
  arith,
  answered-advance d forward flags (follow past),
  IsFinished-answered d past i j (omega arith) f a,
)

-- The handshake of a flow is closed exactly when each side has sent a FIN that the other side
-- acknowledged in a later segment.
pub closed-follow :
    (l : List Segment) → (closed (follow l) ≡ true) ↔ (IsFinished true l × IsFinished false l)
unfolding closed
closed-follow l = (
  λ h. (answered-IsFinished true l (ground arith), answered-IsFinished false l (ground arith)),
  λ ((i, (j, (later, f, a))), (i', (j', (later', f', a')))). ground (
    arith,
    IsFinished-answered true l i j later f a,
    IsFin-sent_fin true l i f,
    IsFinished-answered false l i' j' later' f' a',
    IsFin-sent_fin false l i' f',
  ),
)
