-- ===== src/Tests/Mock.antt =====
-- The commands over the controller that records its calls.
use shimux.Base.{str, message, ok, err, ◌≡◌, refl, none, some, [], ◌∷◌}
use shimux.Ghostty.{split_right}
use shimux.Ghostty.Mock.{mock_new_split, MockController, mock_controller, split_arg}
use shimux.Agent.Client.{Net}
use shimux.Tmux.Parser.{ParseResult, no_options, scan}
use shimux.Tmux.Commands.{Context, State, execute, handle_split_window}
use shimux.Tmux.Parser.Commands.{parse_split_window}
use shimux.Tmux.Commands.Calls.{Calls, execute-Calls}
use shimux.Tests.World.{host, refused, no_manager}

-- No agent can be reached.
abbrev no_agent : Net MockController
no_agent = record {
  dial = λ path w. (some refused, w);
  marshal_request = λ text. ok text;
  write = λ bytes w. (none, w);
  close_write = λ w. w;
  read_response = λ w. (err refused, w);
  close = λ w. w;
  sleep = λ ms w. w;
}

abbrev mock_context : Context MockController
mock_context = record {
  controller = mock_controller;
  net = no_agent;
  host = host;
  visit = λ m. [];
  session = str "work";
}

-- As in the test of a failing split.
abbrev failing_mock : MockController
failing_mock = record {
  calls = [];
  split_err = some (message (str "split failed"));
  goto_err = none;
  close_err = none;
}

abbrev mock_state : State MockController
mock_state = record { manager = no_manager; stdout = []; stderr = []; world = failing_mock }

-- `split-window -h`
abbrev split_right_args : ParseResult
split_right_args = record {
  global = no_options;
  command = str "split-window";
  args = str "-h" ∷ [];
}

split_right-fails : (execute mock_context split_right_args mock_state).code ≡ 1
unfolding execute handle_split_window parse_split_window mock_new_split scan
split_right-fails = refl

split_right-calls :
    (execute mock_context split_right_args mock_state).state.world.calls
    ≡ record { method = str "NewSplit"; args = split_arg split_right ∷ [] } ∷ []
unfolding execute handle_split_window parse_split_window mock_new_split scan
split_right-calls = refl

execute-Calls_example :
    Calls mock_context
      (str "split-window")
      failing_mock
      (execute mock_context split_right_args mock_state).state.world
execute-Calls_example = execute-Calls mock_context mock_state split_right_args
