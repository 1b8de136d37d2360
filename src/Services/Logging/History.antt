-- ===== src/Services/Logging/History.antt =====
-- services/logging/index.js: the buffer against the full history of entries.
use Prim.Native.Nat.{min}
use new_zone_reference.Prelude.{
  ℕ, suc, ◌≤◌, ◌≡◌, refl, List, [], ◌∷◌, map, ◌∙◌, arith, length, push_all, push_all-last, last,
  last-last, length-last, length-map,
}
use new_zone_reference.Prelude.Int.{pos}
use new_zone_reference.Js.Array.{neg, slice_from}
use new_zone_reference.Services.Logging.{
  Logs, Call, max_logs, entry_of, add_log, get_logs, add_logs,
}

add_logs-push_all :
    (cs : List Call) (logs : Logs) → add_logs cs logs ≡ push_all max_logs (map entry_of cs) logs
unfolding add_logs add_log push_all
add_logs-push_all [] logs = refl
add_logs-push_all (c ∷ cs) logs = add_logs-push_all cs (add_log c logs).0

-- After any calls of `addLog` on an empty collector, the buffer holds the entries of the last 500
-- calls, or of all of them if there were fewer, in the order of the calls.
pub add_logs-last : (cs : List Call) → add_logs cs [] ≡ last max_logs (map entry_of cs)
unfolding last
add_logs-last cs = add_logs-push_all cs [] ∙ push_all-last max_logs (map entry_of cs) []

-- For a positive limit of at most 500, `getLogs` returns the last `limit` entries of the whole
-- history; for the limit zero it returns the whole buffer instead.
pub get_logs-add_logs :
    (cs : List Call) (n : ℕ)
    → suc n ≤ max_logs
    → (get_logs (pos (suc n)) (add_logs cs []) ≡ last (suc n) (map entry_of cs))
      × (get_logs (pos 0) (add_logs cs []) ≡ add_logs cs [])
unfolding get_logs neg slice_from
get_logs-add_logs cs n h =
    (rw (add_logs-last cs) (last-last (suc n) max_logs (map entry_of cs) h), refl)

-- The buffer never holds more than 500 entries, and holds every entry until there are more.
pub length-add_logs : (cs : List Call) → length (add_logs cs []) ≡ min max_logs (length cs)
length-add_logs cs =
    rw (add_logs-last cs)
      (omega (arith, length-last max_logs (map entry_of cs), length-map entry_of cs))
