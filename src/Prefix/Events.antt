-- ===== src/Prefix/Events.antt =====
-- src/kvstore-node/src/prefix/kv_event_stream.{h,cpp}. An array is a function from its indices. A
-- ring is pushed to and popped from under the stream's mutex, so each method but `Publish` is one step;
-- `Publish` draws its epoch before it takes the mutex, which makes it two steps.
pub mod Queues
pub mod Order
pub mod Runs
mod Tests
use Prim.Native.Nat.{bit_or}
use agent_state_storage.Base.{
  ℕ, ◌+◌, ◌-◌, ◌/◌, ◌%◌, ◌==◌, ltb, leb, Bool, true, false, List, [], ◌∷◌, ◌++◌, map, if◌then◌else◌,
  Option, none, some,
}
use agent_state_storage.Base.Bytes.{u32_mod, u64_mod}

pub record Event : Type 0 where
  pub etype : ℕ
  pub tier : ℕ
  pub locator : ℕ
  pub epoch : ℕ
  pub unix_nanos : ℕ

-- `v |= v >> k`, with `2 ^ k`
abbrev smear : ℕ → ℕ → ℕ
smear p v = bit_or v (v / p)

-- `Roundup`: past 2 ^ 31 the `+ 1` wraps to 0.
unfoldable pub roundup : ℕ → ℕ
roundup v =
    if ltb v 8
    then 8
    else (smear 65536 (smear 256 (smear 16 (smear 4 (smear 2 (v - 1))))) + 1) % u32_mod

-- `SubscriberRing`. Its `capacity` is a power of two, so `& mask_` is `% capacity`, or it is 0, and
-- then no slot is ever read or written.
pub record Ring : Type 0 where
  pub capacity : ℕ
  pub buf : ℕ → Event
  pub head : ℕ
  pub tail : ℕ
  pub overflow : ℕ

abbrev pub no_event : Event
no_event = record { etype = 0; tier = 0; locator = 0; epoch = 0; unix_nanos = 0 }

unfoldable pub new_ring : ℕ → Ring
unfolding roundup
new_ring capacity_pow2 = record {
  capacity = roundup capacity_pow2;
  buf = λ i. no_event;
  head = 0;
  tail = 0;
  overflow = 0;
}

-- `h - t` of two 64-bit counters
abbrev pub distance : ℕ → ℕ → ℕ
distance h t = (h + (u64_mod - t)) % u64_mod

-- `buf_[i] = ev`
abbrev pub store : (ℕ → Event) → ℕ → Event → ℕ → Event
store buf i ev j = if j == i then ev else buf j

unfoldable pub try_push : Event → Ring → Ring × Bool
try_push ev r =
    if leb r.capacity (distance r.head r.tail)
    then (record r { overflow = (r.overflow + 1) % u64_mod }, false)
    else (
      record r { buf = store r.buf (r.head % r.capacity) ev; head = (r.head + 1) % u64_mod },
      true,
    )

unfoldable pub try_pop : Ring → Ring × Option Event
try_pop r =
    if r.tail == r.head
    then (r, none)
    else (record r { tail = (r.tail + 1) % u64_mod }, some (r.buf (r.tail % r.capacity)))

pub record Stream : Type 0 where
  pub subs : List (ℕ × Ring)
  pub next_handle : ℕ
  pub epoch : ℕ

unfoldable pub new_stream : Stream
new_stream = record { subs = []; next_handle = 1; epoch = 0 }

-- The event as it is pushed; `now` is the clock.
abbrev pub stamp : ℕ → ℕ → Event → Event
stamp epoch now ev = record ev {
  epoch = epoch;
  unix_nanos = if ev.unix_nanos == 0 then now else ev.unix_nanos;
}

-- The loop of `Publish`.
unfoldable pub push_all : Event → List (ℕ × Ring) → List (ℕ × Ring)
unfolding try_push
push_all ev subs = map (λ s. (s.0, (try_push ev s.1).0)) subs

-- `Publish` up to the mutex: the stream, and the event with its epoch and its time.
unfoldable pub draw_epoch : ℕ → Event → Stream → Stream × Event
draw_epoch now ev s =
    let epoch = (s.epoch + 1) % u64_mod in (record s { epoch = epoch }, stamp epoch now ev)

-- `Publish` from the mutex on.
unfoldable pub deliver : Event → Stream → Stream
unfolding push_all
deliver stamped s = record s { subs = push_all stamped s.subs }

-- `Publish` with no other call in between.
unfoldable pub publish : ℕ → Event → Stream → Stream
unfolding draw_epoch deliver
publish now ev s = let r = draw_epoch now ev s in deliver r.1 r.0

unfoldable pub subscribe : ℕ → Stream → Stream × ℕ
unfolding new_ring
subscribe ring_capacity_pow2 s = (
  record s {
    subs = s.subs ++ ((s.next_handle, new_ring ring_capacity_pow2) ∷ []);
    next_handle = (s.next_handle + 1) % u64_mod;
  },
  s.next_handle,
)

-- `find_if` and `erase`: the first subscriber with the handle.
unfoldable pub erase_first : ℕ → List (ℕ × Ring) → List (ℕ × Ring)
erase_first h [] = []
erase_first h (s ∷ subs) = let rest = erase_first h subs in if s.0 == h then subs else s ∷ rest

unfoldable pub unsubscribe : ℕ → Stream → Stream
unfolding erase_first
unsubscribe h s = record s { subs = erase_first h s.subs }

-- The loop of `Poll`.
unfoldable pub poll_first : ℕ → List (ℕ × Ring) → List (ℕ × Ring) × Option Event
unfolding try_pop
poll_first h [] = ([], none)
poll_first h (s ∷ subs) =
    let rest = poll_first h subs in
    if s.0 == h then ((s.0, (try_pop s.1).0) ∷ subs, (try_pop s.1).1) else (s ∷ rest.0, rest.1)

unfoldable pub poll : ℕ → Stream → Stream × Option Event
unfolding poll_first
poll h s = let r = poll_first h s.subs in (record s { subs = r.0 }, r.1)

-- `NodeEpoch`
unfoldable pub node_epoch : Stream → ℕ
node_epoch s = s.epoch
