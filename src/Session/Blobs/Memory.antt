-- ===== src/Session/Blobs/Memory.antt =====
-- A blob in memory, read back.
use agent_state_storage.Base.{
  ℕ, zero, suc, ◌+◌, ◌≤◌, ◌<◌, ltb, ◌≡◌, refl, sym, ap, ◌∙◌, true, false, List, [], ◌∷◌, ◌++◌,
  length, length-append, length-drop, take, drop, some, arith,
}
use mathlib.Core.List.{append_assoc, append-nil}
use agent_state_storage.Session.Key.{key_eq_self}
use agent_state_storage.Session.Table.{Table, find, assign}
use agent_state_storage.Session.Table.Laws.{find-assign}
use agent_state_storage.Session.Blobs.{
  max_blob_bytes, chunk_bytes, MemWriter, mem_write, mem_commit, send_chunks, mem_read_at, mem_read,
}

-- The calls of `Write` with the parts, as long as they succeed.
unfoldable pub mem_write_all : List (List ℕ) → MemWriter → MemWriter
unfolding mem_write
mem_write_all [] w = w
mem_write_all (part ∷ parts) w = mem_write_all parts (mem_write part w).1

abbrev pub joined : List (List ℕ) → List ℕ
joined [] = []
joined (part ∷ parts) = part ++ joined parts

abbrev pub mem_writer : List ℕ → List ℕ → MemWriter
mem_writer key buf = record { key = key; buf = buf; is_done = false }

mem_write_all-joined :
    (key buf : List ℕ) (parts : List (List ℕ))
    → length buf + length (joined parts) ≤ max_blob_bytes
    → mem_write_all parts (mem_writer key buf) ≡ mem_writer key (buf ++ joined parts)
unfolding mem_write_all mem_write
mem_write_all-joined key buf [] fits = ap (mem_writer key) (sym (append-nil buf))
mem_write_all-joined key buf (part ∷ parts) fits =
    let size = length-append part (joined parts) in
    let small : ltb max_blob_bytes (length buf + length part) ≡ false = ground arith in
    rw (small, mem_write_all)
      (mem_write_all-joined key (buf ++ part) parts (omega (arith, length-append buf part))
        ∙ ap (mem_writer key) (append_assoc buf part (joined parts)))

take-drop : (n : ℕ) (xs : List ℕ) → take n xs ++ drop n xs ≡ xs
take-drop zero xs = refl
take-drop (suc n) [] = refl
take-drop (suc n) (x ∷ xs) = ap (◌∷◌ x) (take-drop n xs)

send_chunks_all :
    (chunk fuel : ℕ) (bytes : List ℕ)
    → 0 < chunk
    → length bytes < fuel
    → send_chunks chunk fuel [] bytes ≡ (true, bytes)
unfolding send_chunks
send_chunks_all chunk zero bytes some_bytes enough = absurd (omega arith)
send_chunks_all zero (suc fuel) bytes some_bytes enough = absurd (omega arith)
send_chunks_all (suc chunk) (suc fuel) [] some_bytes enough = refl
send_chunks_all (suc chunk) (suc fuel) (b ∷ bytes) some_bytes enough =
    let less = length-drop chunk bytes in
    rw
      (
        send_chunks_all (suc chunk) fuel (drop chunk bytes) some_bytes (omega arith),
        take-drop chunk bytes,
      )
      refl

-- A blob of at most 4 GiB that is written to memory in parts and committed is read back whole by a
-- reader that accepts every chunk.
pub mem_read-mem_commit :
    (key : List ℕ) (parts : List (List ℕ)) (mem : Table)
    → length (joined parts) ≤ max_blob_bytes
    → let r = mem_commit (mem_write_all parts (mem_writer key [])) mem in
      (r.0 ≡ true) × (mem_read [] key r.2 ≡ (true, joined parts))
unfolding mem_commit mem_read
mem_read-mem_commit key parts mem fits =
    let found : find key (assign key (joined parts) mem) ≡ some (joined parts) =
      find-assign key key (joined parts) mem ∙ rw (key_eq_self key) refl in
    rw (mem_write_all-joined key [] parts (omega arith)) (
      refl,
      ap (mem_read_at []) found
          ∙ send_chunks_all chunk_bytes (suc (length (joined parts))) (joined parts) (omega arith)
              (omega arith),
    )
