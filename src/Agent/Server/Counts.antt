-- ===== src/Agent/Server/Counts.antt =====
-- internal/agent/protocol.go: the semaphore, the wait group and the connections of a `Server`.
use shimux.Base.{ℕ, suc, ◌+◌, ◌≤◌, ◌<◌, ◌≡◌, true, arith}
use shimux.Agent.Server.Goroutines.{
  max_concurrent, Loop, holding, spawning, ending, gone, Server, Work, Handled, handle, fail,
  acquire, spawn, finish, release, leave, end, return, Step, work, connect, close, Reach, start,
  next,
}

-- `acceptLoop` has not done its `wg.Done`.
abbrev pub alive : Loop → ℕ
alive gone = 0
alive _ = 1

-- A slot that `acceptLoop` took for a goroutine that it has not started.
abbrev pub reserved : Loop → ℕ
reserved spawning = 1
reserved _ = 0

-- A connection that `acceptLoop` holds.
abbrev pub held : Loop → ℕ
held holding = 1
held spawning = 1
held _ = 0

-- The connections that are open: those handled and the one held.
abbrev pub open_conns : Server → ℕ
open_conns s = s.handling + held s.loop

pub record IsCounted (s : Server) : Type 0 where
  pub slots : s.sem ≡ s.handling + s.handled + reserved s.loop
  pub capped : s.sem ≤ max_concurrent
  pub group : s.wg ≡ s.handling + s.handled + s.leaving + alive s.loop
  pub quiet : s.returned ≡ true → (s.closed ≡ true) × (s.wg ≡ 0)

pub Work-IsCounted : {s t : Server} → Work s t → IsCounted s → IsCounted t
Work-IsCounted (fail e) i = ground arith
Work-IsCounted (acquire e l) i = ground arith
Work-IsCounted (spawn e) i = ground arith
Work-IsCounted (release e) i = ground arith
Work-IsCounted (leave e) i = ground arith
Work-IsCounted (end e) i = ground arith
Work-IsCounted (return c z r) i = ground arith

pub Handled-IsCounted : {s t : Server} → Handled s t → IsCounted s → IsCounted t
Handled-IsCounted (finish e) i = ground arith

Step-IsCounted : {s t : Server} → Step s t → IsCounted s → IsCounted t
Step-IsCounted (work w) i = Work-IsCounted w i
Step-IsCounted (handle h) i = Handled-IsCounted h i
Step-IsCounted (connect e c) i = ground arith
Step-IsCounted close i = ground arith

-- The slots taken and the count of the wait group are those of the goroutines that are under way.
pub Reach-IsCounted : {s : Server} → Reach s → IsCounted s
Reach-IsCounted start = ground arith
Reach-IsCounted (next r st) = Step-IsCounted st (Reach-IsCounted r)

-- At any time at most 16 goroutines handle a connection, and at most 17 accepted connections are open:
-- `acceptLoop` accepts one more before it waits for a slot.
pub handling_bounded :
    {s : Server} → Reach s → (s.handling ≤ max_concurrent) × (open_conns s ≤ suc max_concurrent)
handling_bounded r = ground (arith, Reach-IsCounted r)

-- No slot is released that was not taken, so the receive from `sem` never blocks; the wait group never
-- goes below zero; and `wg.Add` is never called at zero, where it would race with `wg.Wait`.
pub no_underflow :
    {s : Server}
    → Reach s
    → (0 < s.handled → 0 < s.sem)
      × (0 < s.leaving → 0 < s.wg)
      × (s.loop ≡ ending → 0 < s.wg)
      × (s.loop ≡ spawning → 0 < s.wg)
no_underflow r = ground (arith, Reach-IsCounted r)

-- When a call of `Close` has returned, the listener is closed, `acceptLoop` and every goroutine of a
-- connection have ended, no connection is open and every slot is free.
pub returned_quiet :
    {s : Server}
    → Reach s
    → s.returned ≡ true
    → (s.closed ≡ true)
      × (s.loop ≡ gone)
      × (s.handling + s.handled + s.leaving ≡ 0)
      × (open_conns s ≡ 0)
      × (s.sem ≡ 0)
returned_quiet r q = ground (arith, Reach-IsCounted r)
