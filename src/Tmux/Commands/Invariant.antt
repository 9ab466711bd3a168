-- ===== src/Tmux/Commands/Invariant.antt =====
-- internal/tmux/commands.go: the panes over every command.
use shimux.Base.{Bytes, str, ok, ◌<◌, ◌≡◌, refl, sym, subst, ◌⊎◌, inl, inr, []}
use shimux.Base.Int.{max_int}
use shimux.Pane.{Manager, unregister, register}
use shimux.Pane.Panes.{Panes, added, removed}
use shimux.Pane.Refines.{Represents, Outcome, register-Represents, unregister-Represents}
use shimux.Pane.Active.{OneActive, OneActive-kept}
use shimux.Tmux.Parser.{ParseResult}
use shimux.Tmux.Commands.{Context, State, execute}
use shimux.Tmux.Commands.Effects.{execute-IsProper}

-- The panes after the command `cmd`: those before it, with one more at the end for split-window, or
-- with one fewer, and the others in their places, for kill-pane.
abbrev pub Follows : Bytes → Panes → Panes → Type 0
Follows cmd s s' =
    (s' ≡ s)
    ⊎ ((cmd ≡ str "split-window") × (s' ≡ added [] s))
    ⊎ ((cmd ≡ str "kill-pane") × ((id : Bytes) × (s' ≡ removed id s)))

-- The manager is that of a list of distinct panes, at most one of which is active, that the command
-- makes of the panes `s`.
abbrev pub InOrder : Bytes → Panes → Manager → Type 0
InOrder cmd s m = (s' : Panes) × Represents m s' × OneActive s'.items × Follows cmd s s'

register-InOrder :
    {m : Manager} (cmd : Bytes) (s : Panes)
    → cmd ≡ str "split-window"
    → s.next < max_int
    → Represents m s
    → OneActive s.items
    → InOrder cmd s (register [] m).1
register-InOrder cmd s c room r o = (
  added [] s,
  register-Represents [] room r,
  (OneActive-kept s [] r.distinct o).0,
  inr (inl (c, refl)),
)

unregister-InOrder :
    {m m' : Manager} (cmd : Bytes) (s : Panes) (id : Bytes)
    → cmd ≡ str "kill-pane"
    → Represents m s
    → OneActive s.items
    → unregister id m ≡ ok m'
    → InOrder cmd s m'
unregister-InOrder cmd s id c r o e =
    let after = subst (λ x. Outcome x id s (removed id s)) e (unregister-Represents id r) in
    (removed id s, after.1, (OneActive-kept s id r.distinct o).1, inr (inr (c, (id, refl))))

-- Whatever command is run, with whatever arguments and answers of the terminal and the agents, the
-- panes stay distinct and at most one of them is active, as long as the counter of the IDs has room for
-- one more. They stay in the order of registration: a command leaves the list as it is, or split-window
-- puts one new pane at its end, or kill-pane takes the panes with one ID out of it.
pub execute-InOrder :
    {W : Type 0} (ctx : Context W) (r : ParseResult) (st : State W) (s : Panes)
    → s.next < max_int
    → Represents st.manager s
    → OneActive s.items
    → InOrder r.command s (execute ctx r st).state.manager
execute-InOrder ctx r st s room rep o = elim ((execute-IsProper ctx r st).manager_is) [
  | inl same ↦ subst (InOrder r.command s) (sym same) (s, rep, o, inl refl)
  | inr (inl (c, e)) ↦
      subst (InOrder r.command s) (sym e) (register-InOrder r.command s c room rep o)
  | inr (inr (c, (id, e))) ↦ unregister-InOrder r.command s id c rep o e
]
