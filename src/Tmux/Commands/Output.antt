-- ===== src/Tmux/Commands/Output.antt =====
-- internal/tmux/commands.go: what the commands print.
use shimux.Base.{
  Bytes, str, ◌≡◌, sym, ap, ◌∙◌, true, none, List, [], ◌∷◌, ◌++◌, append-nil, append_assoc, arith,
}
use shimux.Base.Decimal.{decimal, itoa, itoa-pos}
use shimux.Pane.{Pane, Manager, list, register}
use shimux.Pane.Panes.{Panes}
use shimux.Pane.Refines.{Represents, readers}
use shimux.Tmux.Format.{expand_format}
use shimux.Tmux.Parser.Commands.{SplitWindowOptions}
use shimux.Tmux.Commands.{
  Context, State, exit_ok, print_line, build_format_context, print_panes, handle_list_panes,
  split_done, split_direction, handle_split_window,
}

-- The default format of list-panes and split-window prints a percent sign and the ID.
default_format :
    (session : Bytes) (m : Manager) (p : Pane)
    → expand_format (str "#{pane_id}") (build_format_context session m p) ≡ b'%' ∷ p.id
unfolding expand_format build_format_context
default_format session m p = append-nil (b'%' ∷ p.id)

-- A line for each pane.
abbrev pub id_lines : List Pane → Bytes
id_lines [] = []
id_lines (p ∷ ps) = (b'%' ∷ (p.id ++ b'\n' ∷ [])) ++ id_lines ps

id-register : (m : Manager) {s : Panes} → Represents m s → (register [] m).0.id ≡ decimal s.next
unfolding register
id-register m {s} r = ap itoa r.next_is ∙ itoa-pos s.next

module _ {W : Type 0} (ctx : Context W) where
  print_panes-default :
      (ps : List Pane) (st : State W)
      → print_panes ctx (str "#{pane_id}") ps st ≡ record st { stdout = st.stdout ++ id_lines ps }
  unfolding print_panes
  print_panes-default [] st =
      ap (λ (out : Bytes). record st { stdout = out }) (sym (append-nil st.stdout))
  print_panes-default (p ∷ ps) st =
      ap (λ (line : Bytes). print_panes ctx (str "#{pane_id}") ps (print_line line st))
        (default_format ctx.session st.manager p)
      ∙ print_panes-default ps (print_line (b'%' ∷ p.id) st)
      ∙ ap (λ (out : Bytes). record st { stdout = out })
          (append_assoc st.stdout (b'%' ∷ (p.id ++ b'\n' ∷ [])) (id_lines ps))

  -- list-panes with no format prints, for the panes that the manager holds, one line for each in the
  -- order of registration: a percent sign and the ID. It exits with 0 and changes nothing else.
  pub handle_list_panes-default :
      (target : Bytes) (st : State W) {s : Panes}
      → Represents st.manager s
      → handle_list_panes ctx (record { format = []; target = target }) st
        ≡ exit_ok (record st { stdout = st.stdout ++ id_lines s.items })
  unfolding handle_list_panes
  handle_list_panes-default target st {s} r = ap exit_ok (
      print_panes-default (list st.manager) st
      ∙ ap (λ (ps : List Pane). record st { stdout = st.stdout ++ id_lines ps }) (readers [] r).1)

  -- split-window -P with no format prints the ID that the new pane gets, the next one in decimal, once
  -- the terminal has made the split.
  pub handle_split_window-print :
      (opts : SplitWindowOptions) (st : State W) (w : W) {s : Panes}
      → Represents st.manager s
      → opts.print_after ≡ true
      → opts.format ≡ []
      → ctx.controller.new_split (split_direction opts.direction) st.world ≡ (none, w)
      → handle_split_window ctx opts st
        ≡ exit_ok (record {
          manager = (register [] st.manager).1;
          stdout = st.stdout ++ (b'%' ∷ (decimal s.next ++ b'\n' ∷ []));
          stderr = st.stderr;
          world = w;
        })
  unfolding handle_split_window split_done
  handle_split_window-print opts st w {s} r print_it no_format split = ground (
    arith,
    default_format ctx.session (register [] st.manager).1 (register [] st.manager).0,
    id-register st.manager r,
  )
