-- ===== src/Cluster/Drain.antt =====
-- `DrainGate` and `DrainWatcher` of src/kvstore-node/src/cluster/drain_gate.{h,cpp}. What etcd answers
-- to the first read is an argument, and the events of the watch are a list.
use agent_state_storage.Base.{
  ◌≡◌, refl, Bool, true, false, List, [], ◌∷◌, if◌then◌else◌, Bool-cases, inl, inr,
}

pub data WatchEvent : Type 0 where
  puts deletes : WatchEvent

-- The answer of `Get`: an error, no marker, or a marker.
pub data GetResult : Type 0 where
  failed absent present : GetResult

pub record Watcher : Type 0 where
  pub draining : Bool
  pub watching : Bool

unfoldable pub should_reject_new_work : Watcher → Bool
should_reject_new_work w = w.draining

unfoldable pub set_draining : Bool → Watcher → Watcher
set_draining v w = record w { draining = v }

unfoldable pub start : GetResult → Watcher → Watcher × Bool
unfolding set_draining
start failed w = (w, false)
start absent w = (record (set_draining false w) { watching = true }, true)
start present w = (record (set_draining true w) { watching = true }, true)

abbrev is_put : WatchEvent → Bool
is_put puts = true
is_put deletes = false

-- The callback, while the watcher is subscribed.
unfoldable pub on_event : WatchEvent → Watcher → Watcher
unfolding set_draining
on_event ev w = if w.watching then set_draining (is_put ev) w else w

unfoldable pub stop : Watcher → Watcher
stop w = if w.watching then record w { watching = false } else w

unfoldable pub on_events : List WatchEvent → Watcher → Watcher
unfolding on_event
on_events [] w = w
on_events (ev ∷ evs) w = on_events evs (on_event ev w)

-- Whether the marker is there after the events.
abbrev pub marker_after : Bool → List WatchEvent → Bool
marker_after there [] = there
marker_after there (ev ∷ evs) = marker_after (is_put ev) evs

watching_follows :
    (evs : List WatchEvent) (d : Bool)
    → should_reject_new_work (on_events evs (record { draining = d; watching = true }))
      ≡ marker_after d evs
unfolding on_events on_event set_draining should_reject_new_work
watching_follows [] d = refl
watching_follows (ev ∷ evs) d = watching_follows evs (is_put ev)

stopped_ignores :
    (evs : List WatchEvent) (d : Bool)
    → should_reject_new_work (on_events evs (record { draining = d; watching = false })) ≡ d
unfolding on_events on_event should_reject_new_work
stopped_ignores [] d = refl
stopped_ignores (ev ∷ evs) d = stopped_ignores evs d

-- A started watcher refuses new work exactly while the marker is there, whatever events follow; one
-- that could not read the marker reports it and changes nothing; one that was stopped ignores every
-- event and leaves the gate as it was.
pub start_follows :
    (evs : List WatchEvent) (w : Watcher)
    → (should_reject_new_work (on_events evs (start present w).0) ≡ marker_after true evs)
      × (should_reject_new_work (on_events evs (start absent w).0) ≡ marker_after false evs)
      × (start failed w ≡ (w, false))
      × (should_reject_new_work (on_events evs (stop w)) ≡ should_reject_new_work w)
unfolding start stop set_draining should_reject_new_work
start_follows evs w = (
  watching_follows evs true,
  watching_follows evs false,
  refl,
  elim (Bool-cases w.watching) [
    | inl h ↦ rw h (stopped_ignores evs w.draining)
    | inr h ↦ rw h (stopped_ignores evs w.draining)
  ],
)
