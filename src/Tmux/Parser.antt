-- ===== src/Tmux/Parser.antt =====
-- internal/tmux/parser.go: `Parse`, the options before the command name, and the loop that the
-- parsers of the commands share. The parsers themselves are in `Commands` and `Keys`.
pub mod Commands
pub mod Keys
pub mod Scan
pub mod Flags
pub mod Missing
pub mod Printed
pub mod SplitWindow
pub mod Global
use shimux.Base.{
  Bool, true, false, List, [], ◌∷◌, ◌++◌, Bytes, str, equal, is, if◌then◌else◌, Error, message,
  Result, ok, err,
}

pub record GlobalOptions : Type 0 where
  pub socket_name : Bytes
  pub socket_path : Bytes
  pub config_file : Bytes
  pub version : Bool

pub record ParseResult : Type 0 where
  pub global : GlobalOptions
  pub command : Bytes
  pub args : List Bytes

abbrev pub no_options : GlobalOptions
no_options = record { socket_name = []; socket_path = []; config_file = []; version = false }

-- `fmt.Errorf("-t requires a value")`
abbrev pub requires : Bytes → Error
requires flag = message (flag ++ str " requires a value")

abbrev pub no_command : Error
no_command = message (str "no command specified")

-- Stage 2 and stage 3.
unfoldable pub take_command : GlobalOptions → Bytes → List Bytes → Result ParseResult
unfolding equal
take_command g cmd rest =
    if is cmd ""
    then err (message (str "empty command name"))
    else ok (record { global = g; command = cmd; args = rest })

abbrev pub versioned : GlobalOptions → ParseResult
versioned g = record { global = record g { version = true }; command = []; args = [] }

-- The loop of stage 1; `g` is `result.Global`.
unfoldable pub parse_global : GlobalOptions → List Bytes → Result ParseResult
unfolding equal take_command
parse_global g [] =
    if g.version then ok (record { global = g; command = []; args = [] }) else err no_command
parse_global g (arg ∷ []) =
    if is arg "-V"
    then ok (versioned g)
    else if is arg "-L"
    then err (requires (str "-L"))
    else if is arg "-S"
    then err (requires (str "-S"))
    else if is arg "-f"
    then err (requires (str "-f"))
    else take_command g arg []
parse_global g (arg ∷ v ∷ rest) =
    let named = parse_global (record g { socket_name = v }) rest in
    let located = parse_global (record g { socket_path = v }) rest in
    let configured = parse_global (record g { config_file = v }) rest in
    if is arg "-V"
    then ok (versioned g)
    else if is arg "-L"
    then named
    else if is arg "-S"
    then located
    else if is arg "-f"
    then configured
    else take_command g arg (v ∷ rest)

unfoldable pub parse : List Bytes → Result ParseResult
unfolding parse_global
parse [] = err no_command
parse (arg ∷ rest) = parse_global no_options (arg ∷ rest)

-- What the `switch` of a command's parser makes of one argument: it is used up, with the options
-- that it leaves, or it is a flag that takes the next argument. With the flag stands the name that the
-- case writes in its error, each case its own.
pub data Arg (O : Type 0) : Type 0 where
  bare : O → Arg O
  value : Bytes → (Bytes → O) → Arg O

-- `for i < len(args) { switch args[i] { … } i++ }`, where a flag with a value does `i++` first.
module _ {O : Type 0} (step : Bytes → O → Arg O) where
  unfoldable pub scan : List Bytes → O → Result O
  scan [] o = ok o
  scan (arg ∷ []) o = elim (step arg o) [ bare o' ↦ ok o' | value flag f ↦ err (requires flag) ]
  scan (arg ∷ v ∷ rest) o = elim (step arg o) [
    | bare o' ↦ scan (v ∷ rest) o'
    | value flag f ↦ scan rest (f v)
  ]
