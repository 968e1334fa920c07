-- ===== src/Sync/History.antt =====
-- src/cnaas_nms/devicehandler/sync_history.py, over the redis hash of events. JSON encoding is left
-- out: a value of the hash is its list of events. The redis server answers; the handlers that
-- swallow its errors are left out.
pub mod Events
use cnaas_nms.Prelude.{
  ℕ, zero, suc, String, Bool, true, false, Option, none, some, List, [], ◌∷◌, ◌++◌, if◌then◌else◌,
  lookup, insert, erase, mem, str_eq,
}
use cnaas_nms.Schema.{SyncEvent}

abbrev pub SyncEvents : Type 0
SyncEvents = List (String × List SyncEvent)

-- `if not by: by = "unknown"`
abbrev or_unknown : Option String → String
or_unknown none = "unknown"
or_unknown (some by) = if str_eq by "" then "unknown" else by

abbrev or_now : ℕ → Option ℕ → ℕ
or_now now none = now
or_now now (some zero) = now
or_now now (some (suc t)) = suc t

-- `json.loads(redis.hget(...))`, or no events
abbrev events_of : String → SyncEvents → List SyncEvent
events_of hostname history = elim (lookup hostname history) [ none ↦ [] | some events ↦ events ]

abbrev pub new_event : ℕ → String → Option String → (job_id timestamp : Option ℕ) → SyncEvent
new_event now cause by job_id timestamp = record {
  cause = cause;
  timestamp = or_now now timestamp;
  by = or_unknown by;
  job_id = job_id;
}

-- `add_sync_event(hostname, cause, by, job_id, timestamp)`: the hash is made with the first event,
-- else the event is appended to the host's.
unfoldable pub add_sync_event :
    (now : ℕ) (hostname cause : String) (by : Option String) (job_id timestamp : Option ℕ)
    → SyncEvents
    → SyncEvents
add_sync_event now hostname cause by job_id timestamp history =
    insert hostname (events_of hostname history ++ new_event now cause by job_id timestamp ∷ [])
      history

unfoldable select_hosts : List String → SyncEvents → SyncEvents
select_hosts hostnames [] = []
select_hosts hostnames ((hostname, events) ∷ history) =
    let rest = select_hosts hostnames history in
    if mem hostname hostnames then (hostname, events) ∷ rest else rest

-- `get_sync_events(hostnames)`
unfoldable pub get_sync_events : List String → SyncEvents → SyncEvents
unfolding select_hosts
get_sync_events [] history = history
get_sync_events (h ∷ hs) history = select_hosts (h ∷ hs) history

-- `remove_sync_events(hostname)`
unfoldable pub remove_sync_events : String → SyncEvents → SyncEvents
remove_sync_events hostname history = erase hostname history
