-- ===== src/Agent/Server/Goroutines.antt =====
-- internal/agent/protocol.go: the goroutines of a `Server`, interleaved in any order. Connections are
-- alike, so the goroutines at each place are counted.
use shimux.Base.{ℕ, suc, ◌-◌, ◌<◌, ◌≡◌, Bool, true, false}

-- `cap(s.sem)`
abbrev pub max_concurrent : ℕ
max_concurrent = 16

-- Where `acceptLoop` stands: in `Accept`; with a connection, in front of the semaphore; with a
-- connection and its slot; past the loop, in front of the deferred `wg.Done`; returned.
pub data Loop : Type 0 where
  accepting holding spawning ending gone : Loop

pub record Server : Type 0 where
  pub loop : Loop
  -- goroutines in `handleConn`, in front of the release of their slot, and in front of `wg.Done`
  pub handling : ℕ
  pub handled : ℕ
  pub leaving : ℕ
  -- slots taken in `sem`, and the count of `wg`
  pub sem : ℕ
  pub wg : ℕ
  -- `closeOnce` has run; some call of `Close` has returned
  pub closed : Bool
  pub returned : Bool

-- `ListenAndServe` returns: `wg.Add(1)` and `go srv.acceptLoop()` are done.
abbrev pub started : Server
started = record {
  loop = accepting;
  handling = 0;
  handled = 0;
  leaving = 0;
  sem = 0;
  wg = 1;
  closed = false;
  returned = false;
}

-- A step that a goroutine of the server or a call of `Close` takes of itself. `fail` is an error of
-- `Accept`: after `Close` there is one, and there may be one before, for a reason of the system.
pub data Work (s : Server) : Server → Type 0 where
  fail : s.loop ≡ accepting → Work s (record s { loop = ending })
  acquire :
      s.loop ≡ holding
      → s.sem < max_concurrent
      → Work s (record s { loop = spawning; sem = suc s.sem })
  spawn :
      s.loop ≡ spawning
      → Work s (record s { loop = accepting; wg = suc s.wg; handling = suc s.handling })
  release :
      {n : ℕ}
      → s.handled ≡ suc n
      → Work s (record s { handled = n; sem = s.sem - 1; leaving = suc s.leaving })
  leave : {n : ℕ} → s.leaving ≡ suc n → Work s (record s { leaving = n; wg = s.wg - 1 })
  end : s.loop ≡ ending → Work s (record s { loop = gone; wg = s.wg - 1 })
  return : s.closed ≡ true → s.wg ≡ 0 → s.returned ≡ false → Work s (record s { returned = true })

-- `handleConn` returns, with its connection closed. Its reads and writes have a deadline, but the handler
-- that it calls has none: whether this step is taken is not up to the server.
pub data Handled (s : Server) : Server → Type 0 where
  finish :
      {n : ℕ} → s.handling ≡ suc n → Handled s (record s { handling = n; handled = suc s.handled })

-- A step of the server or of what is around it: a call of `handleConn` returns, a client connects, or a
-- call of `Close` closes the listener in its `Once`.
pub data Step (s : Server) : Server → Type 0 where
  work : {t : Server} → Work s t → Step s t
  handle : {t : Server} → Handled s t → Step s t
  connect : s.loop ≡ accepting → s.closed ≡ false → Step s (record s { loop = holding })
  close : Step s (record s { closed = true })

pub data Reach : Server → Type 0 where
  start : Reach started
  next : {s t : Server} → Reach s → Step s t → Reach t
