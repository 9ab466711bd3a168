-- ===== src/Tests/Commands.antt =====
-- Commands, and the exchange with an agent.
use shimux.Base.{
  length, Bytes, str, Error, wrap, ℕ, ◌+◌, ◌-◌, ◌/◌, ◌%◌, ◌<◌, ◌≡◌, refl, ◌↔◌, true, false, none,
  some, [], ◌∷◌, ◌++◌,
}
use shimux.Base.Decimal.{decimal}
use shimux.Tmux.Format.{expand_format}
use shimux.Tmux.Format.Expansion.{Expands, expand_format_iff}
use shimux.Tmux.Parser.{ParseResult, no_options}
use shimux.Tmux.Parser.Commands.{SplitWindowOptions, KillPaneOptions}
use shimux.Tmux.Commands.{
  State, execute, extract_pane_id, handle_kill_pane, exit_fail, session_context,
}
use shimux.Tmux.Commands.Effects.{IsProper, execute-IsProper}
use shimux.Tmux.Commands.Invariant.{InOrder, execute-InOrder}
use shimux.Tmux.Commands.Kill.{Forgets, kill_pane-outcome}
use shimux.Tmux.Commands.Target.{starts_digit, extract_pane_id-decimal}
use shimux.Agent.Client.{send_keys, send_keys_with_timeout, gave_up}
use shimux.Agent.Retry.{Fails, fails_none, fails_more, last_of, send_keys-retries}
use shimux.Tests.World.{context, net, refused}
use shimux.Tests.Panes.{two_panes, two, two-Represents, two-OneActive, two-room}

abbrev two_state : State ℕ
two_state = record { manager = two_panes; stdout = []; stderr = []; world = 0 }

expand_format_iff_example :
    (expand_format (str "#{session_name}:#{x") (session_context (str "work")) ≡ str "work:#{x")
    ↔ Expands (session_context (str "work")) (str "#{session_name}:#{x") (str "work:#{x")
expand_format_iff_example =
    expand_format_iff (session_context (str "work")) (str "#{session_name}:#{x") (str "work:#{x")

abbrev split : ParseResult
split = record {
  global = no_options;
  command = str "split-window";
  args = str "-h" ∷ str "-P" ∷ [];
}

execute-IsProper_example : IsProper split.command two_state (execute context split two_state)
execute-IsProper_example = execute-IsProper context split two_state

execute-InOrder_example : InOrder split.command two (execute context split two_state).state.manager
execute-InOrder_example =
    execute-InOrder context split two_state two two-room two-Represents two-OneActive

dot : starts_digit (str ".x") ≡ false
unfolding shimux.Base.Decimal.is_digit
dot = refl

extract_pane_id-decimal_example :
    extract_pane_id (str "main:0" ++ b'%' ∷ (decimal 5 ++ str ".x")) ≡ decimal 5
extract_pane_id-decimal_example = extract_pane_id-decimal (str "main:0") (str ".x") 5 dot refl

abbrev to_the_right : SplitWindowOptions
to_the_right = record {
  horizontal = true;
  direction = str "right";
  target = [];
  size = [];
  print_after = true;
  format = [];
}

abbrev killed : KillPaneOptions
killed = record { target = str "%7" }

names_seven : extract_pane_id (str "%7") ≡ str "7"
unfolding extract_pane_id shimux.Base.Decimal.is_digit
names_seven = refl

kill_pane-outcome_example :
    ((e : Error) (w : ℕ)
      → context.controller.close_surface two_state.world ≡ (some e, w)
      → handle_kill_pane context killed two_state
        ≡ exit_fail (wrap (str "kill-pane") e) (record two_state { world = w }))
    × ((w : ℕ)
        → context.controller.close_surface two_state.world ≡ (none, w)
        → Forgets (str "7") two two_state w (handle_kill_pane context killed two_state))
kill_pane-outcome_example =
    kill_pane-outcome context killed (str "7") two two_state names_seven (λ e. cc) two-Represents

abbrev path : Bytes
path = str "/tmp/shimux/work/pane-1.sock"

abbrev connect : Error
connect = wrap (str "connect to " ++ path) refused

refused_twice :
    Fails (send_keys_with_timeout net path (str "ls")) net.sleep 0 (connect ∷ connect ∷ []) 0 2
unfolding send_keys_with_timeout
refused_twice = fails_more refl (fails_more refl fails_none)

send_keys-retries_example :
    ((w : ℕ)
      → send_keys_with_timeout net path (str "ls") 2 ≡ (none, w)
      → length (connect ∷ connect ∷ []) < 10
      → send_keys net path (str "ls") 0 ≡ (none, w))
    × (length (connect ∷ connect ∷ []) ≡ 10
        → send_keys net path (str "ls") 0
          ≡ (some (gave_up (last_of none (connect ∷ connect ∷ []))), 2))
send_keys-retries_example =
    send_keys-retries net path (str "ls") (connect ∷ connect ∷ []) 0 2 refused_twice

-- It is the success after two failures.
sent : send_keys net path (str "ls") 0 ≡ (none, 7)
unfolding send_keys send_keys_with_timeout
sent = refl
