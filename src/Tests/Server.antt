-- ===== src/Tests/Server.antt =====
-- The server of an agent: states that it reaches, and its theorems there.
use shimux.Base.{ℕ, zero, suc, ◌+◌, ◌≤◌, ◌<◌, ◌≡◌, refl, true, false, arith}
use shimux.Agent.Server.Goroutines.{
  Server, Reach, start, next, work, handle, connect, close, acquire, spawn, finish, release, leave,
  end, fail, return, accepting, holding, ending, gone, max_concurrent, spawning,
}
use shimux.Agent.Server.Counts.{open_conns, handling_bounded, no_underflow, returned_quiet}
use shimux.Agent.Server.Shutdown.{
  Runs, here, more, more_handled, Stalled, work_left, Runs-bounded, Returns, closed-Returns,
}

-- `n` connections are handled.
abbrev serving : ℕ → Server
serving n = record {
  loop = accepting;
  handling = n;
  handled = 0;
  leaving = 0;
  sem = n;
  wg = suc n;
  closed = false;
  returned = false;
}

serving-Reach : (n : ℕ) → n ≤ 16 → Reach (serving n)
serving-Reach zero h = start
serving-Reach (suc n) h =
    next
      (next (next (serving-Reach n (omega (arith, h))) (connect refl refl))
        (work (acquire refl (omega (arith, h)))))
      (work (spawn refl))

-- 16 connections are handled and one more is held.
abbrev full : Server
full = record (serving 16) { loop = holding }

full-Reach : Reach full
full-Reach = next (serving-Reach 16 (omega arith)) (connect refl refl)

seventeen_open : open_conns full ≡ 17
seventeen_open = refl

-- One connection was handled, its slot is to be released, and `Close` is called.
abbrev closing : Server
closing = record (serving 0) { handled = 1; sem = 1; wg = 2; closed = true }

closing-Reach : Reach closing
closing-Reach = next (next (serving-Reach 1 (omega arith)) (handle (finish refl))) close

abbrev closed_server : Server
closed_server = record (serving 0) { loop = gone; wg = 0; closed = true; returned = true }

closing-Runs : Runs closing 5 closed_server
closing-Runs =
    more (more (more (more (more here (release refl)) (leave refl)) (fail refl)) (end refl))
      (return refl refl refl)

Runs-Reach : {s t : Server} {k : ℕ} → Runs s k t → Reach s → Reach t
Runs-Reach here r = r
Runs-Reach (more runs w) r = next (Runs-Reach runs r) (work w)
Runs-Reach (more_handled runs w) r = next (Runs-Reach runs r) (handle w)

handling_bounded_example : (full.handling ≤ max_concurrent) × (open_conns full ≤ suc max_concurrent)
handling_bounded_example = handling_bounded full-Reach

no_underflow_example :
    (0 < closing.handled → 0 < closing.sem)
    × (0 < closing.leaving → 0 < closing.wg)
    × (closing.loop ≡ ending → 0 < closing.wg)
    × (closing.loop ≡ spawning → 0 < closing.wg)
no_underflow_example = no_underflow closing-Reach

returned_quiet_example :
    (closed_server.closed ≡ true)
    × (closed_server.loop ≡ gone)
    × (closed_server.handling + closed_server.handled + closed_server.leaving ≡ 0)
    × (open_conns closed_server ≡ 0)
    × (closed_server.sem ≡ 0)
returned_quiet_example = returned_quiet (Runs-Reach closing-Runs closing-Reach) refl

Runs-bounded_example : 5 + work_left closed_server ≤ work_left closing
Runs-bounded_example = Runs-bounded closing-Runs

-- A connection is being handled when `Close` is called.
abbrev waiting : Server
waiting = record (serving 1) { closed = true }

closed-Returns_example :
    Returns waiting × ((t : Server) → Stalled waiting t → 0 < 1 → t.returned ≡ false)
closed-Returns_example = closed-Returns (next (serving-Reach 1 (omega arith)) close) refl
