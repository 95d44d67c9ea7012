-- ===== src/Session/Log/Reopen.antt =====
-- Opening any file twice: the first replay truncates the file to the offset it kept, and the second
-- replay of what is left gives the same map and keeps all of it.
use agent_state_storage.Base.{
  ℕ, zero, suc, ◌+◌, ◌-◌, ◌≤◌, ◌<◌, ◌≡◌, ◌≢◌, ◌⊎◌, refl, sym, ap, ◌∙◌, false, none, some, List, [],
  ◌∷◌, length, take, drop, ltb, if◌then◌else◌, arith, inl, inr, Bool-cases, Option-cases,
  length-take, length-drop, take-nil,
}
use agent_state_storage.Base.Bytes.{get_u32, get_u32-take}
use agent_state_storage.Session.Codec.{Mutation}
use agent_state_storage.Session.Table.{Live, apply_to_map}
use agent_state_storage.Session.Log.{
  read_record, torn_tail, Replayed, kept, corrupt, out_of_fuel, replay, empty_live, replay_file,
}

module _ {ℓ} {A : Type ℓ} where
  take-take : (m n : ℕ) (xs : List A) → m ≤ n → take m (take n xs) ≡ take m xs
  take-take zero n xs h = refl
  take-take (suc m) (suc n) [] h = refl
  take-take (suc m) (suc n) (x ∷ xs) h = ap (◌∷◌ x) (take-take m n xs (omega arith))
  take-take (suc m) zero xs h = absurd (omega arith)

  drop-take : (m n : ℕ) (xs : List A) → drop m (take n xs) ≡ take (n - m) (drop m xs)
  drop-take zero n xs = let e : n - 0 ≡ n = omega arith in rw e
  drop-take (suc m) zero [] = let e : 0 - suc m ≡ 0 = omega arith in rw e
  drop-take (suc m) zero (x ∷ xs) = let e : 0 - suc m ≡ 0 = omega arith in rw e
  drop-take (suc m) (suc n) [] = sym (take-nil (suc n - suc m))
  drop-take (suc m) (suc n) (x ∷ xs) =
      let e : suc n - suc m ≡ n - m = omega arith in rw e (drop-take m n xs)

read_record_bounds :
    (rest : List ℕ) (batch : List Mutation)
    → read_record rest ≡ some batch
    → (12 ≤ get_u32 rest) × (get_u32 rest ≤ length rest)
unfolding read_record
read_record_bounds rest batch h = ground arith

-- A record is read from its own bytes alone.
read_record-take :
    (rest : List ℕ) (n : ℕ)
    → 12 ≤ get_u32 rest
    → get_u32 rest ≤ length rest
    → get_u32 rest ≤ n
    → read_record (take n rest) ≡ read_record rest
unfolding read_record
read_record-take rest n lo hi fits =
    let r = get_u32 rest in
    let len : get_u32 (take n rest) ≡ r = get_u32-take n rest (omega arith) in
    let body : take (r - 8) (drop 4 (take n rest)) ≡ take (r - 8) (drop 4 rest) =
      ap (take (r - 8)) (drop-take 4 n rest)
      ∙ take-take (r - 8) (n - 4) (drop 4 rest) (omega arith) in
    let sum : get_u32 (drop (r - 4) (take n rest)) ≡ get_u32 (drop (r - 4) rest) =
      ap get_u32 (drop-take (r - 4) n rest)
      ∙ get_u32-take (n - (r - 4)) (drop (r - 4) rest) (omega arith) in
    let size = length-take n rest in simp (len, body, sum) (ground arith)

replay_more :
    (fuel off : ℕ) (rest : List ℕ) (s : Live) (b : List Mutation)
    → read_record rest ≡ some b
    → replay (suc fuel) off rest s
      ≡ replay fuel (off + get_u32 rest) (drop (get_u32 rest) rest) (apply_to_map s b)
unfolding replay
replay_more fuel off rest s b h =
    let bounds = read_record_bounds rest b h in
    let long : ltb (length rest) 12 ≡ false = ground arith in rw (long, replay) (rw (h, replay))

-- A round ends the loop where it stands, or reads a record and goes on behind it.
abbrev Stops : ℕ → List ℕ → Live → Type 0
Stops off rest s =
    (x : Replayed) × ((x ≡ kept s off) ⊎ (x ≡ corrupt off))
    × ((fuel : ℕ) → replay (suc fuel) off rest s ≡ x)

replay_unread :
    (off : ℕ) (rest : List ℕ) (s : Live)
    → read_record rest ≡ none
    → (fuel : ℕ)
    → replay (suc fuel) off rest s ≡ (
        if ltb (length rest) 12
        then kept s off
        else if torn_tail rest
        then kept s off
        else corrupt off)
unfolding replay
replay_unread off rest s h fuel = elim (Bool-cases (ltb (length rest) 12)) [
  | inl e ↦ rw (e, replay)
  | inr e ↦ rw (e, replay) (rw (h, replay))
]

replay_cases :
    (off : ℕ) (rest : List ℕ) (s : Live)
    → Stops off rest s ⊎ ((b : List Mutation) × (read_record rest ≡ some b))
replay_cases off rest s = elim (Option-cases (read_record rest)) [
  | inl e ↦ inl (
    (if ltb (length rest) 12
        then kept s off
        else if torn_tail rest
        then kept s off
        else corrupt off),
    ground arith,
    replay_unread off rest s e,
  )
  | inr more ↦ inr more
]

-- With more fuel than bytes the loop does not run out of fuel.
pub replay_total :
    (fuel off : ℕ) (rest : List ℕ) (s : Live)
    → length rest < fuel
    → replay fuel off rest s ≢ out_of_fuel
replay_total zero off rest s h = absurd (omega arith)
replay_total (suc fuel) off rest s h = elim (replay_cases off rest s) [
  | inl (x, stop, e) ↦ rw (e fuel) (ground arith)
  | inr (b, e) ↦
      let bounds = read_record_bounds rest b e in
      let left = length-drop (get_u32 rest) rest in
      rw (replay_more fuel off rest s b e)
        (replay_total fuel _ (drop (get_u32 rest) rest) (apply_to_map s b) (omega arith))
]

replay_fuel :
    (f g off : ℕ) (rest : List ℕ) (s : Live)
    → length rest < f
    → length rest < g
    → replay f off rest s ≡ replay g off rest s
replay_fuel (suc f) (suc g) off rest s hf hg = elim (replay_cases off rest s) [
  | inl (x, stop, e) ↦ e f ∙ sym (e g)
  | inr (b, e) ↦
      let bounds = read_record_bounds rest b e in
      let left = length-drop (get_u32 rest) rest in
      replay_more f off rest s b e
      ∙ replay_fuel f g _ (drop (get_u32 rest) rest) (apply_to_map s b) (omega arith) (omega arith)
      ∙ sym (replay_more g off rest s b e)
]
replay_fuel _ _ off rest s hf hg = absurd (omega arith)

replay_empty : (fuel off : ℕ) (s : Live) → replay (suc fuel) off [] s ≡ kept s off
unfolding replay
replay_empty fuel off s = refl

-- The kept part replays as the whole did.
abbrev Keeps : ℕ → ℕ → List ℕ → Live → Live → ℕ → Type 0
Keeps fuel off rest s t e =
    (off ≤ e) × (e ≤ off + length rest) × (replay fuel off (take (e - off) rest) s ≡ kept t e)

Keeps-stopped :
    (fuel off : ℕ) (rest : List ℕ) (s t : Live) (e : ℕ)
    → kept s off ≡ kept t e
    → Keeps (suc fuel) off rest s t e
Keeps-stopped fuel off rest s t e h =
    let o : off ≡ e = cc in
    let z : e - off ≡ 0 = omega arith in
    (omega arith, omega arith, rw z (replay_empty fuel off s ∙ h))

Keeps-more :
    (fuel off : ℕ) (rest : List ℕ) (s t : Live) (e : ℕ) (b : List Mutation)
    → read_record rest ≡ some b
    → Keeps fuel (off + get_u32 rest) (drop (get_u32 rest) rest) (apply_to_map s b) t e
    → Keeps (suc fuel) off rest s t e
Keeps-more fuel off rest s t e b h (lo, hi, ih) =
    let r = get_u32 rest in
    let n = e - off in
    let (b1, b2) = read_record_bounds rest b h in
    let left = length-drop r rest in
    let read : read_record (take n rest) ≡ some b =
      read_record-take rest n b1 b2 (omega arith) ∙ h in
    let len : get_u32 (take n rest) ≡ r = get_u32-take n rest (omega arith) in
    let d : n - r ≡ e - (off + r) = omega arith in
    (
      omega arith,
      omega arith,
      replay_more fuel off (take n rest) s b read
          ∙ ap (λ k. replay fuel (off + k) (drop k (take n rest)) (apply_to_map s b)) len
          ∙ ap (λ p. replay fuel (off + r) p (apply_to_map s b))
              (drop-take r n rest ∙ ap (λ k. take k (drop r rest)) d)
          ∙ ih,
    )

replay-take :
    (fuel off : ℕ) (rest : List ℕ) (s t : Live) (e : ℕ)
    → replay fuel off rest s ≡ kept t e
    → Keeps fuel off rest s t e
replay-take zero off rest s t e h = unfold replay in absurd (cc)
replay-take (suc fuel) off rest s t e h = elim (replay_cases off rest s) [
  | inl (x, inl same, stop) ↦ Keeps-stopped fuel off rest s t e (sym same ∙ sym (stop fuel) ∙ h)
  | inl (x, inr bad, stop) ↦ absurd (cc (bad, stop fuel))
  | inr (b, more) ↦ Keeps-more fuel off rest s t e b more (
      replay-take fuel (off + get_u32 rest) (drop (get_u32 rest) rest) (apply_to_map s b) t e
        (sym (replay_more fuel off rest s b more) ∙ h))
]

-- Whatever a file holds, once a replay has truncated it, the next replay gives the same map and
-- keeps the whole of it.
pub replay_file-take :
    (buf : List ℕ) (t : Live) (e : ℕ)
    → replay_file buf ≡ kept t e
    → (e ≤ length buf) × (replay_file (take e buf) ≡ kept t e)
unfolding replay_file
replay_file-take buf t e h =
    let (_, fits, same) = replay-take (suc (length buf)) 0 buf empty_live t e h in
    let z : e - 0 ≡ e = omega arith in
    let size = length-take e buf in
    (
      omega arith,
      replay_fuel (suc (length (take e buf))) (suc (length buf)) 0 (take e buf) empty_live
            (omega arith) (omega arith)
          ∙ ap (λ k. replay (suc (length buf)) 0 (take k buf) empty_live) (sym z)
          ∙ same,
    )
