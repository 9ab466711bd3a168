-- ===== src/Tests/Typed.antt =====
-- send-keys, typed into the terminal of an agent: as a command and as the program.
use shimux.Base.{
  ltb, leb, ◌==◌, within, if◌then◌else◌, leb→le, leb-false→lt, le→leb, ==_iff, Bool-cases,
  Option-cases, length, take, drop, all, length-append, all-append, All, All-append, All-map,
  Distinct, Distinct-concat, In, In-All, All-of-In, Bytes, str, equal, is, equal_iff, equal_refl,
  equal_sym, equal-false, Error, message, wrap, pane_not_found, socket_in_use, exit_error, Result,
  ok, err, ◌>>=◌, error_text, ℕ, zero, suc, ◌+◌, ◌-◌, ◌*◌, ◌/◌, ◌%◌, ◌^◌, ◌≤◌, ◌<◌, ◌≡◌, refl, sym,
  ap, subst, ◌∙◌, ◌≢◌, ◌↔◌, ◌⊎◌, inl, inr, Bool, true, false, not, ◌&&◌, ◌||◌, Option, none, some,
  List, [], ◌∷◌, ◌++◌, map, append-nil, append_assoc, arith,
}
use shimux.Base.FilePath.{base_name}
use shimux.Agent.Exchange.{Wire, client_side}
use shimux.Tmux.Parser.Keys.{SendKeysOptions}
use shimux.Tmux.Keys.{build_send_keys_data, expand_special_key}
use shimux.Tmux.Commands.{Context, State, handle_send_keys, exit_ok, target_pane, extract_pane_id}
use shimux.Tmux.Commands.Typed.{joined, send_keys-typed}
use shimux.Cli.{Process, run_main}
use shimux.Cli.Typed.{agent_path, with_agent, run_main-typed}
use shimux.Tests.Exchange.{codec, answered}
use shimux.Tests.Agent.{agent_process}
use shimux.Agent.Client.{safe_socket_path}
use shimux.Tests.World.{host, no_manager}

-- A terminal that keeps what is typed.
abbrev typing : Bytes → Bytes → Option Error × Bytes
typing text typed = (none, typed ++ text)

abbrev typing_on : Bytes → Bytes → Option Error × Bytes
typing_on typed text = typing text typed

-- The path of pane 1.
abbrev pane_one : Bytes
pane_one = safe_socket_path host (str "work") (str "1")

abbrev wire_context : Context (Wire Bytes)
wire_context = record {
  controller = record {
    new_window = λ w. (none, w);
    new_tab = λ w. (none, w);
    new_split = λ d w. (none, w);
    goto_split = λ d w. (none, w);
    close_surface = λ w. (none, w);
  };
  net = client_side pane_one codec (λ s. s) typing;
  host = host;
  visit = λ m. [];
  session = str "work";
}

-- `send-keys -t %1 ls Enter`
abbrev ls_enter : SendKeysOptions
ls_enter = record { target = str "%1"; literal = false; keys = str "ls" ∷ str "Enter" ∷ [] }

abbrev wire_state : State (Wire Bytes)
wire_state = record {
  manager = no_manager;
  stdout = [];
  stderr = [];
  world = record { agent = str "$ "; sent = []; replied = [] };
}

ls_text : build_send_keys_data ls_enter.keys ls_enter.literal ≡ str "ls\r"
unfolding build_send_keys_data expand_special_key shimux.Base.Maps.lookup
    shimux.Tmux.Keys.Table.special_keys shimux.Tmux.Keys.expand_modified
    shimux.Tmux.Keys.parse_modifiers
ls_text = refl

ls_pane :
    target_pane
      (joined pane_one codec (λ s. s) typing wire_context)
      ls_enter.target
      wire_state.manager
    ≡ str "1"
unfolding target_pane extract_pane_id shimux.Base.Decimal.is_digit equal
ls_pane = refl

typed_once :
    (w : Wire Bytes) × (handle_send_keys
        (joined pane_one codec (λ s. s) typing wire_context)
        ls_enter
        wire_state
      ≡ exit_ok (record wire_state { world = w }))
    × (w.agent ≡ str "$ ls\r")
typed_once =
    (send_keys-typed pane_one codec (λ s. s) typing wire_context ls_enter wire_state
        (λ e. absurd (omega (arith, ap length (sym ls_text ∙ e))))
        (λ e. absurd (omega (arith, ap length (sym ls_pane ∙ e)))) (str "ls\r")
        (ap (safe_socket_path host (str "work")) ls_pane) (ap ok ls_text) (ap ok (sym ls_text))
        (omega arith) answered).0
      (str "$ ls\r") (ap (typing_on (str "$ ")) ls_text)

-- The program that the wrapper linked as `tmux`.
abbrev process : Process (Wire Bytes)
process = record {
  sys = record {
    process_id = 42;
    executable = ok (str "/usr/bin/shimux");
    environ = [];
    path = str "/bin";
    make_temp_dir = λ pattern w. (ok (str "/tmp/d"), w);
    symlink = λ target link w. (none, w);
    remove_all = λ dir w. w;
    run_child = λ args env w. (none, w);
  };
  net = client_side pane_one codec (λ s. s) typing;
  host = host;
  exec_script = λ script w. (none, w);
  visit = λ m. [];
  getenv = λ k. str "work";
  home = ok (str "/root");
  version = str "dev";
  quote = λ s. s;
}

called_tmux : is (base_name (str "/tmp/d/tmux")) "tmux" ≡ true
unfolding base_name equal
called_tmux = refl

ls_target : extract_pane_id ls_enter.target ≡ str "1"
unfolding extract_pane_id shimux.Base.Decimal.is_digit
ls_target = refl

ls_served : agent_path agent_process (str "work") (extract_pane_id ls_enter.target) ≡ pane_one
unfolding shimux.AgentCli.agent_of
ls_served = ap (agent_path agent_process (str "work")) ls_target

-- `tmux send-keys -t %1 -- ls Enter`
run_main-typed_example :
    (w : Wire Bytes) × (run_main
        (with_agent pane_one codec (λ s. s) typing process)
        (str "/tmp/d/tmux"
          ∷ str "send-keys"
          ∷ str "-t"
          ∷ str "%1"
          ∷ str "--"
          ∷ str "ls"
          ∷ str "Enter"
          ∷ [])
        wire_state.world
      ≡ record { code = 0; stdout = []; stderr = []; world = w })
    × (w.agent ≡ str "$ ls\r")
run_main-typed_example =
    (run_main-typed pane_one codec (λ s. s) typing agent_process process (str "/tmp/d/tmux")
        ls_enter (str "ls\r") wire_state.world refl ls_served called_tmux
        (λ e. absurd (omega (arith, ap length (sym ls_text ∙ e))))
        (λ e. absurd (omega (arith, ap length (sym ls_target ∙ e)))) (ap ok ls_text)
        (ap ok (sym ls_text)) (omega arith) answered).0
      (str "$ ls\r") (ap (typing_on (str "$ ")) ls_text)
