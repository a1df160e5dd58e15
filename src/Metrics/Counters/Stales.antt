-- ===== src/Metrics/Counters/Stales.antt =====
-- Theorems on the counters of stale shares in src/metrics.rs.
use stratum_bee.Base.{ℕ, ◌+◌, ◌^◌, ◌<◌, ◌≡◌, arith}
use stratum_bee.Metrics.Counters.{StaleReason, PoolCounters, inc_stale}

-- The stale shares of every reason.
abbrev pub total_stales : PoolCounters → ℕ
total_stales k = k.stales_new_block + k.stales_expired + k.stales_reconnect

-- The counts of one reason.
abbrev pub stales_of : PoolCounters → StaleReason → ℕ
stales_of k StaleReason.new_block = k.stales_new_block
stales_of k StaleReason.expired = k.stales_expired
stales_of k StaleReason.reconnect = k.stales_reconnect

-- A stale share of a reason whose count is below the largest 64-bit number adds one to the count of
-- that reason and to the total over all reasons.
pub inc_stale-total :
    (k : PoolCounters) (reason : StaleReason)
    → stales_of k reason + 1 < 2 ^ 64
    → (total_stales (inc_stale k reason) ≡ total_stales k + 1)
      × (stales_of (inc_stale k reason) reason ≡ stales_of k reason + 1)
unfolding inc_stale
inc_stale-total k StaleReason.new_block h = (omega arith, omega arith)
inc_stale-total k StaleReason.expired h = (omega arith, omega arith)
inc_stale-total k StaleReason.reconnect h = (omega arith, omega arith)
