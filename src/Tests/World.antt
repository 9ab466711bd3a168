-- ===== src/Tests/World.antt =====
-- A small world: the number of calls that were made. The first two connections to an agent are refused.
use shimux.Base.{ltb, if◌then◌else◌, str, Error, message, ok, ℕ, suc, true, none, some, [], ◌∷◌}
use shimux.Ghostty.{Controller}
use shimux.Pane.{Manager, new_manager}
use shimux.Agent.Client.{Host, Net}
use shimux.Tmux.Commands.{Context, State}

abbrev pub controller : Controller ℕ
controller = record {
  new_window = λ w. (none, suc w);
  new_tab = λ w. (none, suc w);
  new_split = λ d w. (none, suc w);
  goto_split = λ d w. (none, suc w);
  close_surface = λ w. (none, suc w);
}

abbrev pub refused : Error
refused = message (str "refused")

abbrev pub net : Net ℕ
net = record {
  dial = λ path w. if ltb w 2 then (some refused, suc w) else (none, suc w);
  marshal_request = λ text. ok text;
  write = λ bytes w. (none, suc w);
  close_write = λ w. suc w;
  read_response = λ w. (ok (record { ok = true; error = [] }), suc w);
  close = λ w. suc w;
  sleep = λ ms w. w;
}

abbrev pub host : Host
host = record { temp_dir = str "/tmp"; sha256 = λ s. 171 ∷ 205 ∷ [] }

abbrev pub context : Context ℕ
context = record {
  controller = controller;
  net = net;
  host = host;
  visit = λ m. [];
  session = str "work";
}

abbrev pub no_manager : Manager
no_manager = new_manager (str "panes.json")

abbrev pub empty_state : State ℕ
empty_state = record { manager = no_manager; stdout = []; stderr = []; world = 0 }
