-- ===== src/Session/Log.antt =====
-- The replay loop of `OrderedLogStore::Open`, src/kvstore-node/src/session/ordered_log_store.cpp,
-- over the bytes that were read. The list `rest` is the buffer from `off` on, and `remaining` is its
-- length. A round consumes 12 bytes at least, so as much fuel as there are bytes is enough.
pub mod Records
pub mod Recovery
pub mod Reopen
use agent_state_storage.Base.{
  ℕ, zero, suc, ◌+◌, ◌-◌, ◌≤◌, Bool, true, false, ◌&&◌, ◌||◌, Option, none, some, List, [], ◌∷◌,
  ◌++◌, length, take, drop, ltb, leb, ◌==◌, if◌then◌else◌, arith, ◌≡◌, ◌≢◌, ◌<◌,
}
use agent_state_storage.Base.Bytes.{get_u32}
use agent_state_storage.Session.Crc.{crc32}
use agent_state_storage.Session.Codec.{Mutation, decode_body}
use agent_state_storage.Session.Table.{Live, apply_to_map}

-- `ok` of the loop's body, with the decoded batch.
unfoldable pub read_record : List ℕ → Option (List Mutation)
read_record rest =
    let rec_len = get_u32 rest in
    if leb 12 rec_len && leb rec_len (length rest)
    then (let body = take (rec_len - 8) (drop 4 rest) in
        if crc32 body == get_u32 (drop (rec_len - 4) rest) then decode_body body else none)
    else none

unfoldable pub all_zero : List ℕ → Bool
all_zero [] = true
all_zero (b ∷ bs) = b == 0 && all_zero bs

unfoldable pub torn_tail : List ℕ → Bool
unfolding all_zero
torn_tail rest =
    let rec_len = get_u32 rest in
    ltb (length rest) rec_len || ((leb 12 rec_len && rec_len == length rest) || all_zero rest)

-- How the loop ends: at the offset up to which the file is kept, or refusing a corrupt file.
pub data Replayed : Type 0 where
  kept : Live → ℕ → Replayed
  corrupt : ℕ → Replayed
  out_of_fuel : Replayed

unfoldable pub replay : ℕ → ℕ → List ℕ → Live → Replayed
unfolding read_record torn_tail
replay zero off rest s = out_of_fuel
replay (suc fuel) off rest s = elim (ltb (length rest) 12) [
  | true ↦ kept s off
  | false ↦ elim (read_record rest) [
    | none ↦ if torn_tail rest then kept s off else corrupt off
    | some batch ↦
        replay fuel (off + get_u32 rest) (drop (get_u32 rest) rest) (apply_to_map s batch)
  ]
]

abbrev pub empty_live : Live
empty_live = record { table = []; bytes = 0 }

unfoldable pub replay_file : List ℕ → Replayed
replay_file buf = replay (suc (length buf)) 0 buf empty_live
