-- ===== src/Ingest/Watermark.antt =====
-- `WatermarkTracker` of src/kvstore-node/src/ingest/watermark.cpp. A lost `compare_exchange` in
-- `Publish` only repeats the test, so each call is one step on the map of marks.
use agent_state_storage.Base.{
  ℕ, ◌≡◌, refl, List, [], ◌∷◌, ltb, if◌then◌else◌, Option, some, none, length, max, arith, is_some,
}
use agent_state_storage.Base.Map.{find, assign, erase, find-assign_self}

abbrev pub Marks : Type 0
Marks = List (ℕ × ℕ)

-- `try_emplace` leaves a handle that is there alone.
unfoldable pub track : ℕ → Marks → Marks
track h m = if is_some (find h m) then m else assign h 0 m

abbrev mark : Option ℕ → ℕ
mark none = 0
mark (some wm) = wm

abbrev published : ℕ → ℕ → Option ℕ → Marks → Marks × ℕ
published h new_wm none m = (m, 0)
published h new_wm (some cur) m = if ltb cur new_wm then (assign h new_wm m, new_wm) else (m, cur)

unfoldable pub publish : ℕ → ℕ → Marks → Marks × ℕ
publish h new_wm m = published h new_wm (find h m) m

unfoldable pub read : ℕ → Marks → ℕ
read h m = mark (find h m)

unfoldable pub drop_mark : ℕ → Marks → Marks × ℕ
drop_mark h m = if is_some (find h m) then (erase h m, read h m) else (m, 0)

unfoldable pub size : Marks → ℕ
size m = length m

unfoldable pub publish_all : ℕ → List ℕ → Marks → Marks
unfolding publish
publish_all h [] m = m
publish_all h (wm ∷ wms) m = publish_all h wms (publish h wm m).0

abbrev pub max_of : ℕ → List ℕ → ℕ
max_of cur [] = cur
max_of cur (wm ∷ wms) = max_of (max cur wm) wms

find-publish :
    (h cur wm : ℕ) (m : Marks) → find h m ≡ some cur → find h (publish h wm m).0 ≡ some (max cur wm)
unfolding publish
find-publish h cur wm m e = rw e (ground (arith, find-assign_self h wm m, e))

-- Whatever the producers of a handle publish and in whatever order, its mark is the largest value
-- published, and so never goes back.
pub publish_all_max :
    (wms : List ℕ) (h cur : ℕ) (m : Marks)
    → find h m ≡ some cur
    → read h (publish_all h wms m) ≡ max_of cur wms
unfolding publish_all read
publish_all_max [] h cur m e = rw e refl
publish_all_max (wm ∷ wms) h cur m e =
    publish_all_max wms h (max cur wm) (publish h wm m).0 (find-publish h cur wm m e)
