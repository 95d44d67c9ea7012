-- ===== src/Session/Scan.antt =====
-- `Scan`, and the loop of `DeletePrefix`, of
-- src/kvstore-node/src/session/ordered_log_store.cpp. An iterator is the list of the entries from it
-- on; `end()` is the empty list. Where the code walks down, the entries before it stand beside them,
-- last first.
pub mod Range
pub mod Forward
pub mod Matching
pub mod Backward
use agent_state_storage.Base.{
  ℕ, zero, suc, ◌+◌, ◌-◌, ◌≡◌, take, Bool, true, false, ◌&&◌, ◌||◌, not, Option, none, some, List,
  [], ◌∷◌, ◌++◌, length, ltb, leb, ◌==◌, if◌then◌else◌, is_empty, map,
}
use mathlib.Core.List
use agent_state_storage.Session.Key.{key_lt, prefix_matches}
use agent_state_storage.Session.Table.{Table}

-- `map_.lower_bound(k)`: the entries from the first key that is not before `k`.
unfoldable pub lower_bound : List ℕ → Table → Table
lower_bound k [] = []
lower_bound k (e ∷ m) = let rest = lower_bound k m in if key_lt e.0 k then rest else e ∷ m

-- `map_.upper_bound(k)`: the entries from the first key after `k`.
unfoldable pub upper_bound : List ℕ → Table → Table
upper_bound k [] = []
upper_bound k (e ∷ m) = let rest = upper_bound k m in if key_lt k e.0 then e ∷ m else rest

-- The loop of `DeletePrefix`.
unfoldable pub matching : List ℕ → Table → List (List ℕ)
matching prefix [] = []
matching prefix (e ∷ m) =
    let rest = matching prefix m in if prefix_matches e.0 prefix then e.0 ∷ rest else []

unfoldable pub prefix_keys : List ℕ → Table → List (List ℕ)
prefix_keys prefix m = matching prefix (lower_bound prefix m)

-- An empty bound is no bound.
pub record ScanOptions : Type 0 where
  pub prefix : List ℕ
  pub start_after : List ℕ
  pub end_before : List ℕ
  pub limit : ℕ
  pub max_bytes : ℕ
  pub reverse : Bool

-- The test in `take`: whether `limit` or `max_bytes` cuts the result before the entry. `count` and
-- `bytes` are of what was taken.
unfoldable pub cut : ScanOptions → ℕ → ℕ → (List ℕ × List ℕ) → Bool
cut o count bytes (k, v) =
    (not (o.limit == 0) && leb o.limit count)
    || (not (o.max_bytes == 0)
        && (not (count == 0) && ltb o.max_bytes (bytes + (length k + length v))))

-- The loop of the forward scan: the entries taken, and `more`.
unfoldable pub scan_up : ScanOptions → ℕ → ℕ → Table → Table × Bool
unfolding cut
scan_up o count bytes [] = ([], false)
scan_up o count bytes (e ∷ m) =
    let rest = scan_up o (count + 1) (bytes + (length e.0 + length e.1)) m in
    if not (prefix_matches e.0 o.prefix)
    then ([], false)
    else if not (is_empty o.end_before) && not (key_lt e.0 o.end_before)
    then ([], false)
    else if cut o count bytes e
    then ([], true)
    else (e ∷ rest.0, rest.1)

-- The loop of the reverse scan, over the entries before the position, last first.
unfoldable pub scan_down : ScanOptions → ℕ → ℕ → Table → Table × Bool
unfolding cut
scan_down o count bytes [] = ([], false)
scan_down o count bytes (e ∷ m) =
    let rest = scan_down o (count + 1) (bytes + (length e.0 + length e.1)) m in
    if not (prefix_matches e.0 o.prefix)
    then ([], false)
    else if not (is_empty o.start_after) && not (key_lt o.start_after e.0)
    then ([], false)
    else if cut o count bytes e
    then ([], true)
    else (e ∷ rest.0, rest.1)

-- Where the forward scan begins.
unfoldable pub scan_start : ScanOptions → Table → Table
scan_start o m =
    if is_empty o.start_after || key_lt o.start_after o.prefix
    then lower_bound o.prefix m
    else upper_bound o.start_after m

-- `while (it != map_.end() && PrefixMatches(it->first, o.prefix)) ++it;`
unfoldable pub skip_matching : List ℕ → Table → Table
skip_matching prefix [] = []
skip_matching prefix (e ∷ m) =
    let rest = skip_matching prefix m in if prefix_matches e.0 prefix then rest else e ∷ m

-- `it == map_.end() || (eb != map_.end() && eb->first < it->first)`
unfoldable pub is_lower : Table → Table → Bool
is_lower eb [] = true
is_lower [] (i ∷ it) = false
is_lower (b ∷ eb) (i ∷ it) = key_lt b.0 i.0

-- The position just past the last candidate of the reverse scan.
unfoldable pub scan_end : ScanOptions → Table → Table
scan_end o m =
    let it = skip_matching o.prefix (lower_bound o.prefix m) in
    let eb = lower_bound o.end_before m in
    if not (is_empty o.end_before) && is_lower eb it then eb else it

-- The entries of the map before an iterator, last first.
unfoldable pub walk_down : Table → Table → Table
walk_down m it = List.reverse (take (length m - length it) m)

-- `Scan`: the result, and `*has_more`.
unfoldable pub scan : ScanOptions → Table → Table × Bool
scan o m =
    if not o.reverse
    then scan_up o 0 0 (scan_start o m)
    else scan_down o 0 0 (walk_down m (scan_end o m))
