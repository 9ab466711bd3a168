-- ===== src/Tmux/Commands.antt =====
-- internal/tmux/commands.go: the commands, run against the terminal, the panes and the agents.
pub mod Typed
pub mod Calls
pub mod Cases
pub mod Target
pub mod Effects
pub mod Kill
pub mod Invariant
pub mod Output
use shimux.Base.{
  ◌==◌, if◌then◌else◌, Bytes, str, equal, is, Error, message, wrap, Result, ok, err, ℕ, ◌+◌, ◌-◌,
  ◌%◌, false, not, ◌&&◌, Option, none, some, List, [], ◌∷◌, ◌++◌,
}
use mathlib.Core.Option
use shimux.Base.Int.{ℤ, pos}
use shimux.Base.Decimal.{decimal, is_digit}
use shimux.Ghostty.{SplitDirection, split_down, split_right, split_left, split_up, Controller}
use shimux.Pane.{Pane, Manager, register, unregister, list, index_of, get_active_in}
use shimux.Agent.Client.{Host, Net, safe_socket_path, send_keys}
use shimux.Tmux.Parser.{ParseResult}
use shimux.Tmux.Parser.Commands.{
  HasSessionOptions, ShowOptionsOptions, SplitWindowOptions, SelectPaneOptions, KillPaneOptions,
  ListPanesOptions, DisplayMessageOptions, parse_has_session, parse_show_options,
  parse_split_window, parse_select_pane, parse_kill_pane, parse_list_panes, parse_display_message,
}
use shimux.Tmux.Parser.Keys.{SendKeysOptions, parse_send_keys}
use shimux.Tmux.Format.{FormatContext, expand_format}
use shimux.Tmux.Keys.{build_send_keys_data}

-- `CommandContext`, less what the commands change. `visit` gives the values of a manager's map in
-- the order in which Go visits them.
pub record Context (W : Type 0) : Type 0 where
  pub controller : Controller W
  pub net : Net W
  pub host : Host
  pub visit : Manager → List Pane
  pub session : Bytes

pub record State (W : Type 0) : Type 0 where
  pub manager : Manager
  pub stdout : Bytes
  pub stderr : Bytes
  pub world : W

-- The exit code and the error, and the state that the command leaves.
pub record Reply (W : Type 0) : Type 0 where
  pub code : ℕ
  pub error : Option Error
  pub state : State W

abbrev pub exit_ok : {W : Type 0} → State W → Reply W
exit_ok st = record { code = 0; error = none; state = st }

abbrev pub exit_fail : {W : Type 0} → Error → State W → Reply W
exit_fail e st = record { code = 1; error = some e; state = st }

-- `fmt.Fprintln(ctx.Stdout, line)`
abbrev pub print_line : {W : Type 0} → Bytes → State W → State W
print_line line st = record st { stdout = st.stdout ++ (line ++ b'\n' ∷ []) }

-- What follows the last '%'.
unfoldable pub after_percent : Bytes → Option Bytes
after_percent [] = none
after_percent (c ∷ s) = elim (after_percent s) [
  | some rest ↦ some rest
  | none ↦ if c == b'%' then some s else none
]

unfoldable pub leading_digits : Bytes → Bytes
leading_digits [] = []
leading_digits (c ∷ s) = if is_digit c then c ∷ leading_digits s else []

unfoldable pub extract_pane_id : Bytes → Bytes
unfolding after_percent leading_digits
extract_pane_id target = elim (after_percent target) [ none ↦ [] | some rest ↦ leading_digits rest ]

abbrev index_text : Option ℕ → Bytes
index_text none = str "0"
index_text (some i) = decimal i

unfoldable pub build_format_context : Bytes → Manager → Pane → FormatContext
build_format_context session m p = record {
  session_name = session;
  session_id = str "$0";
  window_index = str "0";
  window_id = str "@0";
  window_name = session;
  pane_id = b'%' ∷ p.id;
  pane_index = index_text (index_of p.id m);
  pane_pid = p.pid;
  pane_tty = p.tty;
  pane_path = p.current_path;
  pane_width = p.width;
  pane_height = p.height;
  pane_active = p.active;
}

-- `&FormatContext{SessionName: ctx.Session}`
abbrev pub session_context : Bytes → FormatContext
session_context session = record {
  session_name = session;
  session_id = [];
  window_index = [];
  window_id = [];
  window_name = [];
  pane_id = [];
  pane_index = [];
  pane_pid = pos 0;
  pane_tty = [];
  pane_path = [];
  pane_width = pos 0;
  pane_height = pos 0;
  pane_active = false;
}

abbrev pub or_pane_id : Bytes → Bytes
or_pane_id [] = str "#{pane_id}"
or_pane_id (c ∷ s) = c ∷ s

abbrev pub split_direction : Bytes → SplitDirection
split_direction d =
    if is d "right"
    then split_right
    else if is d "left"
    then split_left
    else if is d "up"
    then split_up
    else split_down

-- `if err != nil { return 1, err }` in front of a handler.
abbrev pub with_options : {W O : Type 0} → Result O → (O → State W → Reply W) → State W → Reply W
with_options (err e) handle st = exit_fail e st
with_options (ok opts) handle st = handle opts st

module _ {W : Type 0} (ctx : Context W) where
  unfoldable pub handle_has_session : HasSessionOptions → State W → Reply W
  handle_has_session opts st = record {
    code = if equal opts.target ctx.session then 0 else 1;
    error = none;
    state = st;
  }

  abbrev pub handle_switch_client : State W → Reply W
  handle_switch_client st = exit_ok st

  abbrev pub handle_new_session : State W → Reply W
  handle_new_session st = exit_ok st

  unfoldable pub handle_show_options : ShowOptionsOptions → State W → Reply W
  handle_show_options opts st =
      exit_ok
        (if opts.global && is opts.option "prefix" then print_line (str "prefix C-b") st else st)

  -- Steps 3 and 4: the registration does not fail.
  unfoldable pub split_done : SplitWindowOptions → State W → Reply W
  split_done opts st =
      let (p, m) = register [] st.manager in
      let st' = record st { manager = m } in
      let line = expand_format (or_pane_id opts.format) (build_format_context ctx.session m p) in
      exit_ok (if opts.print_after then print_line line st' else st')

  unfoldable pub handle_split_window : SplitWindowOptions → State W → Reply W
  handle_split_window opts st =
      let (r, w) = ctx.controller.new_split (split_direction opts.direction) st.world in
      let st' = record st { world = w } in
      elim r [ some e ↦ exit_fail (wrap (str "split-window") e) st' | none ↦ split_done opts st' ]

  abbrev id_of : Option Pane → Bytes
  id_of none = []
  id_of (some p) = p.id

  -- Step 3: the pane of the target, or else the active one.
  unfoldable pub target_pane : Bytes → Manager → Bytes
  target_pane target m =
      let id = extract_pane_id target in
      if is id "" then id_of (get_active_in (ctx.visit m)) else id

  unfoldable pub send_text : Bytes → Bytes → State W → Reply W
  send_text text pane_id st =
      let path = safe_socket_path ctx.host ctx.session pane_id in
      let (r, w) = send_keys ctx.net path text st.world in
      let st' = record st { world = w } in
      elim r [ some e ↦ exit_fail (wrap (str "send-keys") e) st' | none ↦ exit_ok st' ]

  unfoldable pub handle_send_keys : SendKeysOptions → State W → Reply W
  handle_send_keys opts st =
      let text = build_send_keys_data opts.keys opts.literal in
      let pane_id = target_pane opts.target st.manager in
      if is text ""
      then exit_ok st
      else if is pane_id ""
      then exit_fail (message (str "send-keys: no target pane specified")) st
      else send_text text pane_id st

  abbrev pub handle_select_pane : SelectPaneOptions → State W → Reply W
  handle_select_pane opts st = exit_ok st

  unfoldable pub forget_pane : Bytes → State W → Reply W
  forget_pane pane_id st =
      if is pane_id "" then exit_ok st else elim (unregister pane_id st.manager) [
        | err e ↦ exit_fail (wrap (str "kill-pane: unregister") e) st
        | ok m ↦ exit_ok (record st { manager = m })
      ]

  unfoldable pub handle_kill_pane : KillPaneOptions → State W → Reply W
  handle_kill_pane opts st =
      let (r, w) = ctx.controller.close_surface st.world in
      let st' = record st { world = w } in
      elim r [
        | some e ↦ exit_fail (wrap (str "kill-pane") e) st'
        | none ↦ forget_pane (extract_pane_id opts.target) st'
      ]

  unfoldable pub print_panes : Bytes → List Pane → State W → State W
  print_panes format [] st = st
  print_panes format (p ∷ ps) st =
      print_panes format ps
        (print_line (expand_format format (build_format_context ctx.session st.manager p)) st)

  -- No panes: nothing is printed either way.
  unfoldable pub handle_list_panes : ListPanesOptions → State W → Reply W
  handle_list_panes opts st = exit_ok (print_panes (or_pane_id opts.format) (list st.manager) st)

  abbrev active_context : Option Pane → Manager → FormatContext
  active_context none m = session_context ctx.session
  active_context (some p) m = build_format_context ctx.session m p

  unfoldable pub handle_display_message : DisplayMessageOptions → State W → Reply W
  handle_display_message opts st =
      let active = get_active_in (ctx.visit st.manager) in
      let line = expand_format opts.format (active_context active st.manager) in
      exit_ok (if not opts.print then st else print_line line st)

  unfoldable pub handle_unsupported : Bytes → State W → Reply W
  handle_unsupported cmd st = exit_ok (record st {
    stderr = st.stderr ++ (str "shimux: unsupported tmux command: " ++ (cmd ++ b'\n' ∷ []));
  })

  unfoldable pub execute : ParseResult → State W → Reply W
  execute r st =
      if is r.command "has-session"
      then with_options (parse_has_session r.args) handle_has_session st
      else if is r.command "switch-client"
      then handle_switch_client st
      else if is r.command "new-session"
      then handle_new_session st
      else if is r.command "show-options"
      then with_options (parse_show_options r.args) handle_show_options st
      else if is r.command "split-window"
      then with_options (parse_split_window r.args) handle_split_window st
      else if is r.command "send-keys"
      then with_options (parse_send_keys r.args) handle_send_keys st
      else if is r.command "select-pane"
      then with_options (parse_select_pane r.args) handle_select_pane st
      else if is r.command "kill-pane"
      then with_options (parse_kill_pane r.args) handle_kill_pane st
      else if is r.command "list-panes"
      then with_options (parse_list_panes r.args) handle_list_panes st
      else if is r.command "display-message"
      then with_options (parse_display_message r.args) handle_display_message st
      else handle_unsupported r.command st
