-- ===== src/Session/File.antt =====
-- The files of src/kvstore-node/src/session/ordered_log_store.cpp: `WriteAll` over the results that
-- the system calls give, and what `write` and `ftruncate` leave in a file. A file is the list of its
-- bytes. Sizes and offsets of files stay below 2 ^ 63 (off_t) and do not wrap.
use agent_state_storage.Base.{
  ℕ, zero, suc, ◌+◌, ◌-◌, ◌≤◌, ◌≡◌, refl, Bool, true, false, List, [], ◌∷◌, ◌++◌, length, take,
  drop, min, arith, ◌==◌, if◌then◌else◌, take_all, take-append_length, length-append,
}
use mathlib.Core.List.{append-nil}

-- One call of `::write`: EINTR, another error, or a count of at most the bytes that were asked for.
pub data WriteResult : Type 0 where
  interrupted failed : WriteResult
  wrote : ℕ → WriteResult

-- `WriteAll` of `n` bytes: whether it succeeded, and how many bytes reached the file. Where the list
-- of results ends, the next call writes all that is left.
unfoldable pub write_all : List WriteResult → ℕ → Bool × ℕ
write_all [] n = (true, n)
write_all (interrupted ∷ rs) n = if n == 0 then (true, 0) else write_all rs n
write_all (failed ∷ rs) n = if n == 0 then (true, 0) else (false, 0)
write_all (wrote k ∷ rs) n =
    let rest = write_all rs (n - min k n) in
    if n == 0 then (true, 0) else (rest.0, min k n + rest.1)

-- A successful `WriteAll` wrote every byte; a failed one wrote no more than there were.
pub write_all_lem :
    (rs : List WriteResult) (n : ℕ)
    → ((write_all rs n).1 ≤ n) × ((write_all rs n).0 ≡ true → (write_all rs n).1 ≡ n)
unfolding write_all
write_all_lem [] n = (omega arith, λ h. refl)
write_all_lem (interrupted ∷ rs) n = ground (arith, write_all_lem rs n)
write_all_lem (failed ∷ rs) n = ground arith
write_all_lem (wrote k ∷ rs) n = ground (arith, write_all_lem rs (n - min k n))

unfoldable pub zeros : ℕ → List ℕ
zeros zero = []
zeros (suc n) = 0 ∷ zeros n

-- `ftruncate(fd, n)`, which extends a shorter file by zeros.
unfoldable pub truncate_to : ℕ → List ℕ → List ℕ
unfolding zeros
truncate_to n file = take n file ++ zeros (n - length file)

-- The file after `data` was written at `pos`.
unfoldable pub write_at : ℕ → List ℕ → List ℕ → List ℕ
unfolding truncate_to
write_at pos bytes file = truncate_to pos file ++ (bytes ++ drop (pos + length bytes) file)

drop_of_length-le {ℓ} : {A : Type ℓ} (n : ℕ) (xs : List A) → length xs ≤ n → drop n xs ≡ []
drop_of_length-le zero [] h = refl
drop_of_length-le zero (x ∷ xs) h = absurd (omega arith)
drop_of_length-le (suc n) [] h = refl
drop_of_length-le (suc n) (x ∷ xs) h = drop_of_length-le n xs (omega arith)

pub truncate_to_self : (file : List ℕ) → truncate_to (length file) file ≡ file
unfolding truncate_to
truncate_to_self file =
    let e : length file - length file ≡ 0 = omega arith in
    rw e (rw append-nil (take_all (length file) file (omega arith)))

-- A write at the end of the file appends.
pub write_at_end : (bytes file : List ℕ) → write_at (length file) bytes file ≡ file ++ bytes
unfolding write_at
write_at_end bytes file =
    rw (truncate_to_self file)
      (rw (drop_of_length-le (length file + length bytes) file (omega arith)) (rw append-nil))

-- Truncating to the old end undoes an append.
pub truncate_to-append : (file bytes : List ℕ) → truncate_to (length file) (file ++ bytes) ≡ file
unfolding truncate_to
truncate_to-append file bytes =
    let size = length-append file bytes in
    let e : length file - length (file ++ bytes) ≡ 0 = omega arith in
    rw e (rw append-nil (take-append_length file bytes))
