-- ===== src/Services/Logging.antt =====
-- services/logging/index.js: the log collector, which keeps the newest 500 entries.
pub mod History
pub mod Server
use new_zone_reference.Prelude.{ℕ, String, List, [], ◌∷◌, map, push_bounded}
use new_zone_reference.Prelude.Int.{ℤ}
use new_zone_reference.Js.{Value, null, default}
use new_zone_reference.Js.Array.{neg, slice_from}

pub record Entry : Type 0 where
  pub ts : ℕ
  pub source : Value
  pub event : Value
  pub payload : Value

abbrev pub Logs : Type 0
Logs = List Entry

abbrev pub max_logs : ℕ
max_logs = 500

-- A call of `addLog` and the time at which it is made.
pub record Call : Type 0 where
  pub now : ℕ
  pub source : Value
  pub event : Value
  pub payload : Value

unfoldable pub entry_of : Call → Entry
entry_of c = record {
  ts = c.now;
  source = c.source;
  event = c.event;
  payload = default null c.payload;
}

-- `addLog`: the new buffer and the entry that it returns.
unfoldable pub add_log : Call → Logs → Logs × Entry
add_log c logs = let entry = entry_of c in (push_bounded max_logs entry logs, entry)

-- `getLogs`
unfoldable pub get_logs : ℤ → Logs → Logs
get_logs limit logs = slice_from (neg limit) logs

-- A run of calls of `addLog`.
unfoldable pub add_logs : List Call → Logs → Logs
add_logs [] logs = logs
add_logs (c ∷ cs) logs = add_logs cs (add_log c logs).0
