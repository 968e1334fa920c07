-- ===== src/Sync/History/Events.antt =====
-- The sync history as a map from hosts to events.
use cnaas_nms.Prelude.{
  ℕ, ◌≡◌, refl, List, [], ◌∷◌, ◌++◌, arith, String, Option, none, some, if◌then◌else◌, str_eq,
  lookup, lookup-insert, lookup-erase, eq_iff, mem, Bool-cases, inl, inr,
}
use cnaas_nms.Sync.History.{
  SyncEvents, add_sync_event, new_event, events_of, get_sync_events, select_hosts,
  remove_sync_events,
}

pub lookup-add_sync_event :
    (now : ℕ) (h cause : String) (by : Option String) (job_id timestamp : Option ℕ) (j : String)
    (history : SyncEvents)
    → lookup j (add_sync_event now h cause by job_id timestamp history) ≡ (
        if str_eq h j
        then some (events_of h history ++ new_event now cause by job_id timestamp ∷ [])
        else lookup j history)
unfolding add_sync_event
lookup-add_sync_event now h cause by job_id timestamp j history =
    lookup-insert h j (events_of h history ++ new_event now cause by job_id timestamp ∷ []) history

lookup-select_hosts :
    (hosts : List String) (j : String) (history : SyncEvents)
    → lookup j (select_hosts hosts history) ≡ (if mem j hosts then lookup j history else none)
unfolding select_hosts
lookup-select_hosts hosts j [] = elim (Bool-cases (mem j hosts)) [
  | inl e ↦ rw e refl
  | inr e ↦ rw e refl
]
lookup-select_hosts hosts j ((h, events) ∷ history) =
    ground (arith, eq_iff h j, lookup-select_hosts hosts j history)

-- Reading the history of some hosts after an event was added to one shows the event at the end of
-- that host's list, every other host's list as it was, and no host that was not asked for; and after
-- the host's events are removed it has none and the others keep theirs.
pub get-add_sync_event :
    (now : ℕ) (h cause : String) (by : Option String) (job_id timestamp : Option ℕ) (host : String)
    (hosts : List String) (j : String) (history : SyncEvents)
    → (lookup j
          (get_sync_events (host ∷ hosts) (add_sync_event now h cause by job_id timestamp history))
        ≡ (if mem j (host ∷ hosts)
            then (if str_eq h j
                then some (events_of h history ++ new_event now cause by job_id timestamp ∷ [])
                else lookup j history)
            else none))
      × (lookup j (get_sync_events [] (remove_sync_events h history))
          ≡ (if str_eq h j then none else lookup j history))
unfolding get_sync_events remove_sync_events
get-add_sync_event now h cause by job_id timestamp host hosts j history = (
  rw
      (
        lookup-select_hosts (host ∷ hosts) j
            (add_sync_event now h cause by job_id timestamp history),
        lookup-add_sync_event now h cause by job_id timestamp j history,
      )
      refl,
  lookup-erase h j history,
)
