-- ===== src/Tmux/Format.antt =====
-- internal/tmux/format.go: `ExpandFormat` and `lookupVar`.
pub mod Search
pub mod Expansion
use shimux.Base.{
  if◌then◌else◌, length, Bytes, str, equal, is, ℕ, zero, suc, ◌+◌, Bool, none, some, [], ◌∷◌, ◌++◌,
}
use shimux.Base.Int.{ℤ}
use shimux.Base.Decimal.{itoa}
use shimux.Tmux.Format.Search.{index_open, index_close}

pub record FormatContext : Type 0 where
  pub session_name : Bytes
  pub session_id : Bytes
  pub window_index : Bytes
  pub window_id : Bytes
  pub window_name : Bytes
  pub pane_id : Bytes
  pub pane_index : Bytes
  pub pane_pid : ℤ
  pub pane_tty : Bytes
  pub pane_path : Bytes
  pub pane_width : ℤ
  pub pane_height : ℤ
  pub pane_active : Bool

-- "#{" + name + "}"
abbrev pub variable : Bytes → Bytes
variable name = b'#' ∷ b'{' ∷ (name ++ b'}' ∷ [])

unfoldable pub lookup_var : Bytes → FormatContext → Bytes
unfolding equal itoa
lookup_var name ctx =
    if is name "session_name"
    then ctx.session_name
    else if is name "session_id"
    then ctx.session_id
    else if is name "window_index"
    then ctx.window_index
    else if is name "window_id"
    then ctx.window_id
    else if is name "window_name"
    then ctx.window_name
    else if is name "pane_id"
    then ctx.pane_id
    else if is name "pane_index"
    then ctx.pane_index
    else if is name "pane_pid"
    then itoa ctx.pane_pid
    else if is name "pane_tty"
    then ctx.pane_tty
    else if is name "pane_current_path"
    then ctx.pane_path
    else if is name "pane_width"
    then itoa ctx.pane_width
    else if is name "pane_height"
    then itoa ctx.pane_height
    else if is name "pane_active"
    then (if ctx.pane_active then str "1" else str "0")
    else variable name

-- One round of the loop writes to `out` and goes on with a shorter template. The fuel is the
-- template's length and one more; `Expansion` proves that this is enough.
unfoldable pub expand_loop : ℕ → FormatContext → Bytes → Bytes → Bytes
unfolding index_open index_close lookup_var
expand_loop zero ctx out template = out
expand_loop (suc fuel) ctx out template = elim (index_open template) [
  | none ↦ out ++ template
  | some (before, rest) ↦ elim (index_close rest) [
    | none ↦ (out ++ before) ++ b'#' ∷ b'{' ∷ rest
    | some (name, after) ↦ expand_loop fuel ctx ((out ++ before) ++ lookup_var name ctx) after
  ]
]

unfoldable pub expand_format : Bytes → FormatContext → Bytes
unfolding expand_loop
expand_format template ctx = expand_loop (suc (length template)) ctx [] template
