-- ===== src/Transport/Tests.antt =====
-- Transfers of two tenants.
use agent_state_storage.Base.{◌≡◌, refl, false, [], ◌∷◌, some}
use agent_state_storage.Transport.Scheduler.{WorkItem, Queue, p1, try_dequeue, tenant_queue}
use agent_state_storage.Transport.Scheduler.Dequeue.{Outcome, try_dequeue_cases}

abbrev big : WorkItem
big = record { id = 1; priority = p1; bytes = 900; tenant = 7 }

abbrev small : WorkItem
small = record { id = 2; priority = p1; bytes = 50; tenant = 8 }

abbrev queue : Queue
queue = record {
  tenant_queues = (7, big ∷ []) ∷ (8, small ∷ []) ∷ [];
  rr_order = 7 ∷ 8 ∷ [];
  total_depth = 2;
  in_flight = 700;
  reservation = 750;
  consecutive_skips = 3;
}

-- The first tenant's item is too big, so it goes to the back and the second tenant is served.
abbrev served : Queue
served = record queue {
  tenant_queues = (7, big ∷ []) ∷ [];
  rr_order = 7 ∷ [];
  total_depth = 1;
  in_flight = 750;
  consecutive_skips = 0;
}

dequeue_small : try_dequeue 50 0 queue ≡ (served, some (small, false))
unfolding try_dequeue
dequeue_small = refl

try_dequeue_cases_example : Outcome 2 50 0 queue (try_dequeue 50 0 queue)
try_dequeue_cases_example = try_dequeue_cases 50 0 queue refl

tenant_first : tenant_queue 7 queue.tenant_queues ≡ big ∷ []
unfolding tenant_queue
tenant_first = refl
