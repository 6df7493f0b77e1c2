-- ===== src/Rtp/PortPool.antt =====
-- rtp/RTP_port_pool_init.c, RTP_get_port_pair.c and RTP_release_port_pair.c. The table has
-- ONE_FORK_MAX_CONNECTION entries, here a parameter `n`; an entry is 0 while its pair is leased.
pub mod Leases
pub mod Steps
use fenice_1_12_with_h.Prelude.{
  ℕ, zero, suc, ◌+◌, ◌-◌, ◌*◌, ◌/◌, List, [], ◌∷◌, Option, none, some, leb, ◌==◌, if◌then◌else◌,
}

-- `port_pair`
pub record Pair : Type 0 where
  pub rtp : ℕ
  pub rtcp : ℕ

pub record Pool : Type 0 where
  pub start_port : ℕ
  pub ports : List ℕ

-- `i + start_port`, for `n` entries from `i` on
abbrev pub entries : ℕ → ℕ → ℕ → List ℕ
entries start i zero = []
entries start i (suc n) = (i + start) ∷ entries start (suc i) n

-- RTP_port_pool_init
unfoldable pub init : ℕ → ℕ → Pool
init n port = record { start_port = port; ports = entries port 0 n }

-- `(port - start) * 2 + start`, in signed arithmetic
abbrev pub pair_of : ℕ → ℕ → Pair
pair_of start port =
    let rtp = if leb start port then (port - start) * 2 + start else start - (start - port) * 2 in
    record { rtp = rtp; rtcp = rtp + 1 }

-- `(rtp - start) / 2 + start`, in signed arithmetic, where division rounds towards 0
abbrev pub port_of : ℕ → ℕ → ℕ
port_of start rtp = if leb start rtp then (rtp - start) / 2 + start else start - (start - rtp) / 2

-- The loop of RTP_get_port_pair: the first entry that is not 0, and the table with 0 there.
pub take_first : List ℕ → Option (ℕ × List ℕ)
take_first [] = none
take_first (p ∷ ps) =
    if p == 0
    then elim (take_first ps) [ none ↦ none | some (q, rest) ↦ some (q, p ∷ rest) ]
    else some (p, 0 ∷ ps)

-- RTP_get_port_pair: `none` is ERR_GENERIC.
unfoldable pub get_port_pair : Pool → Option (Pair × Pool)
unfolding take_first
get_port_pair r = elim (take_first r.ports) [
  | none ↦ none
  | some (p, ps) ↦ some (pair_of r.start_port p, record r { ports = ps })
]

-- The loop of RTP_release_port_pair: the first entry that is 0 becomes `v`.
pub fill_first : ℕ → List ℕ → Option (List ℕ)
fill_first v [] = none
fill_first v (p ∷ ps) =
    if p == 0
    then some (v ∷ ps)
    else elim (fill_first v ps) [ none ↦ none | some rest ↦ some (p ∷ rest) ]

-- RTP_release_port_pair: `none` is ERR_GENERIC.
unfoldable pub release_port_pair : Pair → Pool → Option Pool
unfolding fill_first
release_port_pair pair r = elim (fill_first (port_of r.start_port pair.rtp) r.ports) [
  | none ↦ none
  | some ps ↦ some (record r { ports = ps })
]
