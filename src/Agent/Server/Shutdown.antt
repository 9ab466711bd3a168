-- ===== src/Agent/Server/Shutdown.antt =====
-- internal/agent/protocol.go: `Server.Close` waits for the goroutines of the server.
use shimux.Base.{
  ltb, if◌then◌else◌, Bool-cases, ℕ, zero, suc, ◌+◌, ◌*◌, ◌≤◌, ◌<◌, ◌≡◌, refl, inl, inr, true,
  false, arith, ◌⊎◌,
}
use shimux.Agent.Server.Goroutines.{
  max_concurrent, Loop, accepting, holding, spawning, ending, gone, Server, Work, Handled, fail,
  acquire, spawn, finish, release, leave, end, return, Reach,
}
use shimux.Agent.Server.Counts.{IsCounted, Work-IsCounted, Handled-IsCounted, Reach-IsCounted}

-- The steps that `acceptLoop` has to go, with those of the goroutine that it starts.
abbrev pub loop_work : Loop → ℕ
loop_work holding = 7
loop_work spawning = 6
loop_work accepting = 2
loop_work ending = 1
loop_work gone = 0

-- The steps that are left, the returns of `handleConn` among them.
abbrev pub work_left : Server → ℕ
work_left s =
    loop_work s.loop + 3 * s.handling + 2 * s.handled + s.leaving + (if s.returned then 0 else 1)

Work-decreases : {s t : Server} → Work s t → work_left t < work_left s
Work-decreases (fail e) = ground arith
Work-decreases (acquire e l) = ground arith
Work-decreases (spawn e) = ground arith
Work-decreases (release e) = ground arith
Work-decreases (leave e) = ground arith
Work-decreases (end e) = ground arith
Work-decreases (return c z r) = ground arith

Handled-decreases : {s t : Server} → Handled s t → work_left t < work_left s
Handled-decreases (finish e) = ground arith

-- `t` is reached from `s` by `k` steps, each of the server or a return of `handleConn`.
pub data Runs (s : Server) : ℕ → Server → Type 0 where
  here : Runs s 0 s
  more : {k : ℕ} {t u : Server} → Runs s k t → Work t u → Runs s (suc k) u
  more_handled : {k : ℕ} {t u : Server} → Runs s k t → Handled t u → Runs s (suc k) u

-- With no new connection the server comes to rest: from any state it takes at most the steps that
-- `work_left` counts, the returns of `handleConn` included, in whatever order its goroutines run.
pub Runs-bounded : {s t : Server} {k : ℕ} → Runs s k t → k + work_left t ≤ work_left s
Runs-bounded here = omega arith
Runs-bounded (more r w) = omega (arith, Runs-bounded r, Work-decreases w)
Runs-bounded (more_handled r w) = omega (arith, Runs-bounded r, Handled-decreases w)

-- A state in which a call of `handleConn` has not returned, or the server has a step of its own.
abbrev pub GoesOn : Server → Type 0
GoesOn s = (0 < s.handling) ⊎ ((t : Server) × Work s t)

-- A goroutine that has handled a connection can go on; one that handles it waits for the handler.
busy_progress : (s : Server) → 0 < s.handling + s.handled → GoesOn s
busy_progress s h = by_counts s.handling refl s.handled refl
  where
    by_counts : (a : ℕ) → s.handling ≡ a → (b : ℕ) → s.handled ≡ b → GoesOn s
    by_counts (suc a) e b e' = inl (omega arith)
    by_counts zero e (suc b) e' = inr (_, release e')
    by_counts zero e zero e' = absurd (omega arith)

gone_progress :
    (s : Server) → IsCounted s → s.loop ≡ gone → s.closed ≡ true → s.returned ≡ false → GoesOn s
gone_progress s i e c r = by_counts s.leaving refl (s.handling + s.handled) refl
  where
    by_counts : (a : ℕ) → s.leaving ≡ a → (b : ℕ) → s.handling + s.handled ≡ b → GoesOn s
    by_counts (suc a) l b h = inr (_, leave l)
    by_counts zero l (suc b) h = busy_progress s (omega arith)
    by_counts zero l zero h = inr (_, return c (ground arith) r)

-- Closed and not at rest, the server has a step to take or waits for a handler.
progress : (s : Server) → IsCounted s → s.closed ≡ true → s.returned ≡ false → GoesOn s
progress s i c r = by_loop s.loop refl
  where
    by_loop : (l : Loop) → s.loop ≡ l → GoesOn s
    by_loop accepting e = inr (_, fail e)
    by_loop holding e = elim (Bool-cases (ltb s.sem max_concurrent)) [
      | inl room ↦ inr (_, acquire e (ground arith))
      | inr full ↦ busy_progress s (ground arith)
    ]
    by_loop spawning e = inr (_, spawn e)
    by_loop ending e = inr (_, end e)
    by_loop gone e = gone_progress s i e c r

-- However the steps of the server and the returns of `handleConn` are interleaved, the server gets to
-- where a call of `Close` has returned, unless a call of `handleConn` never returns: on the way there is
-- no state in which the server has no step of its own and no such call is under way.
pub data Returns : Server → Type 0 where
  done : {s : Server} → s.returned ≡ true → Returns s
  after :
      {s : Server}
      → GoesOn s
      → ((t : Server) → Work s t → Returns t)
      → ((t : Server) → Handled s t → Returns t)
      → Returns s

Work-closed : {s t : Server} → Work s t → s.closed ≡ true → t.closed ≡ true
Work-closed (fail e) c = c
Work-closed (acquire e l) c = c
Work-closed (spawn e) c = c
Work-closed (release e) c = c
Work-closed (leave e) c = c
Work-closed (end e) c = c
Work-closed (return z g r) c = c

Handled-closed : {s t : Server} → Handled s t → s.closed ≡ true → t.closed ≡ true
Handled-closed (finish e) c = c

Returns-below : (n : ℕ) (s : Server) → work_left s < n → IsCounted s → s.closed ≡ true → Returns s
Returns-below zero s h i c = elim h [ ]
Returns-below (suc n) s h i c = elim (Bool-cases s.returned) [
  | inl q ↦ done q
  | inr q ↦
      after (progress s i c q)
        (λ t w.
          Returns-below n t (omega (arith, Work-decreases w)) (Work-IsCounted w i)
            (Work-closed w c))
        (λ t w.
          Returns-below n t (omega (arith, Handled-decreases w)) (Handled-IsCounted w i)
            (Handled-closed w c))
]

-- `t` is reached from `s` while no call of `handleConn` returns.
pub data Stalled (s : Server) : Server → Type 0 where
  stalled : Stalled s s
  stalled_on : {t u : Server} → Stalled s t → Work t u → Stalled s u

Work-handling : {s t : Server} → Work s t → s.handling ≤ t.handling
Work-handling (fail e) = omega arith
Work-handling (acquire e l) = omega arith
Work-handling (spawn e) = omega arith
Work-handling (release e) = omega arith
Work-handling (leave e) = omega arith
Work-handling (end e) = omega arith
Work-handling (return z g r) = omega arith

Stalled-handling : {s t : Server} → Stalled s t → s.handling ≤ t.handling
Stalled-handling stalled = omega arith
Stalled-handling (stalled_on h w) = omega (arith, Stalled-handling h, Work-handling w)

Stalled-IsCounted : {s t : Server} → Stalled s t → IsCounted s → IsCounted t
Stalled-IsCounted stalled i = i
Stalled-IsCounted (stalled_on h w) i = Work-IsCounted w (Stalled-IsCounted h i)

-- Once the listener is closed, in every state that the server can be in: on every interleaving of its
-- goroutines a call of `Close` returns after finitely many steps, and until then the server has a step
-- of its own or waits for a call of `handleConn` that has not returned. The calls of `handleConn` must
-- return for that: as long as none that is under way does, no call of `Close` returns, since the
-- deadline of a connection does not bound the handler.
pub closed-Returns :
    {s : Server}
    → Reach s
    → s.closed ≡ true
    → Returns s × ((t : Server) → Stalled s t → 0 < s.handling → t.returned ≡ false)
closed-Returns {s} r c =
    let i = Reach-IsCounted r in
    (
      Returns-below (suc (work_left s)) s (omega arith) i c,
      λ t h busy. ground (arith, Stalled-IsCounted h i, Stalled-handling h, busy),
    )
