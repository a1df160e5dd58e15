-- ===== src/Metrics/Counters.antt =====
-- `PoolCounters` of src/metrics.rs. An atomic counter is its value; `fetch_add` wraps at 64 bits.
pub mod Stales
use stratum_bee.Base.{if◌then◌else◌, ℕ, ◌+◌, ◌-◌, ◌%◌, ◌^◌, Bool}

pub data StaleReason : Type 0 where
  new_block : StaleReason
  expired : StaleReason
  reconnect : StaleReason

pub record PoolCounters : Type 0 where
  pub jobs_sent : ℕ
  pub clean_jobs_sent : ℕ
  pub notify_deduped : ℕ
  pub notify_rate_limited : ℕ
  pub duplicate_shares : ℕ
  pub reconnects_total : ℕ
  pub submitblock_accepted : ℕ
  pub submitblock_rejected : ℕ
  pub submitblock_rpc_fail : ℕ
  pub version_rolling_violations : ℕ
  pub stales_new_block : ℕ
  pub stales_expired : ℕ
  pub stales_reconnect : ℕ
  pub zmq_block_received : ℕ
  pub zmq_blocks_detected : ℕ
  pub sv2_connections_total : ℕ
  pub sv2_connections_active : ℕ
  pub sv2_connections_closed : ℕ
  pub sv2_rejected_max_connections : ℕ
  pub sv2_rejected_per_ip : ℕ
  pub sv2_handshake_success : ℕ
  pub sv2_handshake_failures : ℕ
  pub sv2_setup_accepted : ℕ
  pub sv2_setup_rejected : ℕ
  pub sv2_channels_opened : ℕ
  pub sv2_channel_open_errors : ℕ
  pub sv2_channels_closed : ℕ
  pub sv2_unsupported_messages : ℕ
  pub sv2_submit_accepted : ℕ
  pub sv2_submit_rejected : ℕ
  pub sv2_blocks_found : ℕ

-- `PoolCounters::default()`
unfoldable pub zero_counters : PoolCounters
zero_counters = record {
  jobs_sent = 0;
  clean_jobs_sent = 0;
  notify_deduped = 0;
  notify_rate_limited = 0;
  duplicate_shares = 0;
  reconnects_total = 0;
  submitblock_accepted = 0;
  submitblock_rejected = 0;
  submitblock_rpc_fail = 0;
  version_rolling_violations = 0;
  stales_new_block = 0;
  stales_expired = 0;
  stales_reconnect = 0;
  zmq_block_received = 0;
  zmq_blocks_detected = 0;
  sv2_connections_total = 0;
  sv2_connections_active = 0;
  sv2_connections_closed = 0;
  sv2_rejected_max_connections = 0;
  sv2_rejected_per_ip = 0;
  sv2_handshake_success = 0;
  sv2_handshake_failures = 0;
  sv2_setup_accepted = 0;
  sv2_setup_rejected = 0;
  sv2_channels_opened = 0;
  sv2_channel_open_errors = 0;
  sv2_channels_closed = 0;
  sv2_unsupported_messages = 0;
  sv2_submit_accepted = 0;
  sv2_submit_rejected = 0;
  sv2_blocks_found = 0;
}

-- `fetch_add(1)`
abbrev pub fetch_add : ℕ → ℕ
fetch_add n = (n + 1) % 2 ^ 64

unfoldable pub inc_jobs_sent : PoolCounters → Bool → PoolCounters
inc_jobs_sent k clean = record k {
  jobs_sent = fetch_add k.jobs_sent;
  clean_jobs_sent = if clean then fetch_add k.clean_jobs_sent else k.clean_jobs_sent;
}

unfoldable pub inc_notify_deduped : PoolCounters → PoolCounters
inc_notify_deduped k = record k { notify_deduped = fetch_add k.notify_deduped }

unfoldable pub inc_notify_rate_limited : PoolCounters → PoolCounters
inc_notify_rate_limited k = record k { notify_rate_limited = fetch_add k.notify_rate_limited }

unfoldable pub inc_duplicate_share : PoolCounters → PoolCounters
inc_duplicate_share k = record k { duplicate_shares = fetch_add k.duplicate_shares }

unfoldable pub inc_reconnect : PoolCounters → PoolCounters
inc_reconnect k = record k { reconnects_total = fetch_add k.reconnects_total }

unfoldable pub inc_submitblock_accepted : PoolCounters → PoolCounters
inc_submitblock_accepted k = record k { submitblock_accepted = fetch_add k.submitblock_accepted }

unfoldable pub inc_submitblock_rejected : PoolCounters → PoolCounters
inc_submitblock_rejected k = record k { submitblock_rejected = fetch_add k.submitblock_rejected }

unfoldable pub inc_submitblock_rpc_fail : PoolCounters → PoolCounters
inc_submitblock_rpc_fail k = record k { submitblock_rpc_fail = fetch_add k.submitblock_rpc_fail }

unfoldable pub inc_version_rolling_violation : PoolCounters → PoolCounters
inc_version_rolling_violation k = record k {
  version_rolling_violations = fetch_add k.version_rolling_violations;
}

unfoldable pub inc_stale : PoolCounters → StaleReason → PoolCounters
inc_stale k StaleReason.new_block = record k { stales_new_block = fetch_add k.stales_new_block }
inc_stale k StaleReason.expired = record k { stales_expired = fetch_add k.stales_expired }
inc_stale k StaleReason.reconnect = record k { stales_reconnect = fetch_add k.stales_reconnect }

unfoldable pub inc_zmq_block_received : PoolCounters → PoolCounters
inc_zmq_block_received k = record k { zmq_block_received = fetch_add k.zmq_block_received }

unfoldable pub inc_zmq_blocks_detected : PoolCounters → PoolCounters
inc_zmq_blocks_detected k = record k { zmq_blocks_detected = fetch_add k.zmq_blocks_detected }

unfoldable pub inc_sv2_connection_opened : PoolCounters → PoolCounters
inc_sv2_connection_opened k = record k {
  sv2_connections_total = fetch_add k.sv2_connections_total;
  sv2_connections_active = fetch_add k.sv2_connections_active;
}

-- `saturating_sub(1)`
unfoldable pub dec_sv2_connection_active : PoolCounters → PoolCounters
dec_sv2_connection_active k = record k { sv2_connections_active = k.sv2_connections_active - 1 }

unfoldable pub inc_sv2_connection_closed : PoolCounters → PoolCounters
inc_sv2_connection_closed k = record k {
  sv2_connections_closed = fetch_add k.sv2_connections_closed;
}

unfoldable pub inc_sv2_rejected_max_connections : PoolCounters → PoolCounters
inc_sv2_rejected_max_connections k = record k {
  sv2_rejected_max_connections = fetch_add k.sv2_rejected_max_connections;
}

unfoldable pub inc_sv2_rejected_per_ip : PoolCounters → PoolCounters
inc_sv2_rejected_per_ip k = record k { sv2_rejected_per_ip = fetch_add k.sv2_rejected_per_ip }

unfoldable pub inc_sv2_handshake_success : PoolCounters → PoolCounters
inc_sv2_handshake_success k = record k { sv2_handshake_success = fetch_add k.sv2_handshake_success }

unfoldable pub inc_sv2_handshake_failure : PoolCounters → PoolCounters
inc_sv2_handshake_failure k = record k {
  sv2_handshake_failures = fetch_add k.sv2_handshake_failures;
}

unfoldable pub inc_sv2_setup_accepted : PoolCounters → PoolCounters
inc_sv2_setup_accepted k = record k { sv2_setup_accepted = fetch_add k.sv2_setup_accepted }

unfoldable pub inc_sv2_setup_rejected : PoolCounters → PoolCounters
inc_sv2_setup_rejected k = record k { sv2_setup_rejected = fetch_add k.sv2_setup_rejected }

unfoldable pub inc_sv2_channel_opened : PoolCounters → PoolCounters
inc_sv2_channel_opened k = record k { sv2_channels_opened = fetch_add k.sv2_channels_opened }

unfoldable pub inc_sv2_channel_open_error : PoolCounters → PoolCounters
inc_sv2_channel_open_error k = record k {
  sv2_channel_open_errors = fetch_add k.sv2_channel_open_errors;
}

unfoldable pub inc_sv2_channel_closed : PoolCounters → PoolCounters
inc_sv2_channel_closed k = record k { sv2_channels_closed = fetch_add k.sv2_channels_closed }

unfoldable pub inc_sv2_unsupported_message : PoolCounters → PoolCounters
inc_sv2_unsupported_message k = record k {
  sv2_unsupported_messages = fetch_add k.sv2_unsupported_messages;
}

unfoldable pub inc_sv2_submit_accepted : PoolCounters → PoolCounters
inc_sv2_submit_accepted k = record k { sv2_submit_accepted = fetch_add k.sv2_submit_accepted }

unfoldable pub inc_sv2_submit_rejected : PoolCounters → PoolCounters
inc_sv2_submit_rejected k = record k { sv2_submit_rejected = fetch_add k.sv2_submit_rejected }

unfoldable pub inc_sv2_block_found : PoolCounters → PoolCounters
inc_sv2_block_found k = record k { sv2_blocks_found = fetch_add k.sv2_blocks_found }
