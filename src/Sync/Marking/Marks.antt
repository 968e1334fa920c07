-- ===== src/Sync/Marking/Marks.antt =====
-- What marking leaves in the device table and in the sync history.
use cnaas_nms.Prelude.{
  ◌≡◌, refl, List, [], ◌∷◌, Bool, true, false, arith, String, Option, none, some, ◌||◌, ◌&&◌, ◌⊎◌,
  if◌then◌else◌, ◌==◌, lookup, mem, str_eq, eq_iff, lookup-erase, update,
}
use cnaas_nms.Prelude.Exec.{ok, pure, ◌>>=◌}
use cnaas_nms.Prelude.Same.{>>=-returned}
use cnaas_nms.Schema.{Db, Device}
use cnaas_nms.Sync.History.{remove_sync_events}
use cnaas_nms.Sync.Env.{Env}
use cnaas_nms.Sync.Tasks.{find_device}
use cnaas_nms.Sync.Locks.{SyncArgs, job_mode, release}
use cnaas_nms.Sync.Locks.Tries.{session_returned}
use cnaas_nms.Sync.Marking.{
  Outcome, touch, mark_synchronized, mark_one, mark_changed, mark_unchanged, mark_rows, mark_phase,
  release_rows, release_now,
}

abbrev no_events {ℓ} : {A : Type ℓ} → Option A → Bool
no_events none = true
no_events (some a) = false

-- The device is in the table, marked as synchronized, and has no sync event.
abbrev pub is_synced : String → Db → Bool
is_synced host db = elim (find_device host db.devices) [
  | none ↦ false
  | some dev ↦ dev.synchronized && no_events (lookup host db.sync_events)
]

pub find_device-set_device :
    (h host : String) (f : Device → Device) (devices : List Device)
    → ((d : Device) → (f d).hostname ≡ d.hostname)
    → find_device host (update (λ d. str_eq d.hostname h) f devices)
      ≡ elim (find_device host devices) [
        | none ↦ none
        | some d ↦ some (if str_eq host h then f d else d)
      ]
find_device-set_device h host f [] same = refl
find_device-set_device h host f (d ∷ devices) same = ground (
  arith,
  same d,
  eq_iff d.hostname h,
  eq_iff d.hostname host,
  eq_iff host h,
  find_device-set_device h host f devices same,
)

pub touch-is_synced :
    (env : Env) (h host : String) (db : Db)
    → (touch env h (mark_synchronized env.now) true db).0 ≡ ok tt
    → (str_eq host h ≡ true) ⊎ (is_synced host db ≡ true)
    → is_synced host (touch env h (mark_synchronized env.now) true db).1 ≡ true
unfolding touch remove_sync_events
touch-is_synced env h host db done was = ground (
  arith,
  eq_iff host h,
  eq_iff h host,
  lookup-erase h host db.sync_events,
  find_device-set_device h host (mark_synchronized env.now) db.devices (λ d. refl),
)

mark_unchanged-is_synced :
    (env : Env) (hosts : List String) (host : String) (db : Db)
    → (mark_unchanged env hosts db).0 ≡ ok tt
    → (mem host hosts ≡ true) ⊎ (is_synced host db ≡ true)
    → is_synced host (mark_unchanged env hosts db).1 ≡ true
unfolding mark_unchanged
mark_unchanged-is_synced env [] host db done was = unfold pure in ground arith
mark_unchanged-is_synced env (h ∷ hosts) host db done was =
    let (_, one, two, e) =
      >>=-returned (touch env h (mark_synchronized env.now) true) _ db tt done in
    rw e (
      mark_unchanged-is_synced env hosts host _ two
        (ground (arith, touch-is_synced env h host db one)))

module _ (env : Env) (args : SyncArgs) (dry : args.dry_run ≡ false)
    (mode : (job_mode env args == 2) ≡ false) where
  mark_one-is_synced :
      (h host : String) (db : Db)
      → (mark_one env args h db).0 ≡ ok tt
      → (str_eq host h ≡ true) ⊎ (is_synced host db ≡ true)
      → is_synced host (mark_one env args h db).1 ≡ true
  unfolding mark_one
  mark_one-is_synced h host db done was = ground (arith, touch-is_synced env h host db)

  mark_changed-is_synced :
      (hosts : List String) (host : String) (db : Db)
      → (mark_changed env args hosts db).0 ≡ ok tt
      → (mem host hosts ≡ true) ⊎ (is_synced host db ≡ true)
      → is_synced host (mark_changed env args hosts db).1 ≡ true
  unfolding mark_changed
  mark_changed-is_synced [] host db done was = unfold pure in ground arith
  mark_changed-is_synced (h ∷ hosts) host db done was =
      let (_, one, two, e) = >>=-returned (mark_one env args h) _ db tt done in
      rw e
        (mark_changed-is_synced hosts host _ two (ground (arith, mark_one-is_synced h host db one)))

  release_rows-is_synced :
      (host : String) (db : Db) → is_synced host (release_rows env args db).1 ≡ is_synced host db
  unfolding release_rows release_now ◌>>=◌ release
  release_rows-is_synced host db = ground arith

-- After a marking session that returned, of a sync that is no dry run and not in the two-step mode, every changed and every unchanged
-- host is marked as synchronized and has no sync event left.
pub mark_phase-is_synced :
    (env : Env) (args : SyncArgs) (out : Outcome) (host : String) (db : Db)
    → args.dry_run ≡ false
    → (job_mode env args == 2) ≡ false
    → (mem host out.changed || mem host out.unchanged) ≡ true
    → (mark_phase env args out db).0 ≡ ok tt
    → is_synced host (mark_phase env args out db).1 ≡ true
unfolding mark_phase mark_rows
mark_phase-is_synced env args out host db dry mode m h =
    let (one, here) = session_returned (mark_rows env args out) db tt h in
    let (_, two, three, e1) = >>=-returned (mark_changed env args out.changed) _ db tt one in
    let (_, four, five, e2) = >>=-returned (mark_unchanged env out.unchanged) _ _ tt three in
    let c = mark_changed-is_synced env args dry mode out.changed host db two in
    rw (here, e1, e2, release_rows-is_synced env args dry mode host _)
      (mark_unchanged-is_synced env out.unchanged host _ four (ground (arith, c)))
