-- ===== src/Tmux/Parser/Keys.antt =====
-- internal/tmux/parser.go: `ParseSendKeys`, which stops at the first key.
use shimux.Base.{
  Bool, true, false, List, [], ◌∷◌, ◌++◌, ◌≡◌, Bytes, str, equal, is, if◌then◌else◌, Result, ok,
  err, arith,
}
use shimux.Tmux.Parser.{requires}

pub record SendKeysOptions : Type 0 where
  pub target : Bytes
  pub literal : Bool
  pub keys : List Bytes

abbrev pub send_keys_defaults : SendKeysOptions
send_keys_defaults = record { target = []; literal = false; keys = [] }

-- `opts.Keys = append(opts.Keys, args[i:]...)`
abbrev add_keys : SendKeysOptions → List Bytes → SendKeysOptions
add_keys o ks = record o { keys = o.keys ++ ks }

unfoldable pub send_keys_loop : SendKeysOptions → List Bytes → Result SendKeysOptions
unfolding equal
send_keys_loop o [] = ok o
send_keys_loop o (arg ∷ []) =
    if is arg "--"
    then ok (add_keys o [])
    else if is arg "-t"
    then err (requires (str "-t"))
    else if is arg "-l"
    then ok (record o { literal = true })
    else ok (add_keys o (arg ∷ []))
send_keys_loop o (arg ∷ v ∷ rest) =
    let targeted = send_keys_loop (record o { target = v }) rest in
    let as_is = send_keys_loop (record o { literal = true }) (v ∷ rest) in
    if is arg "--"
    then ok (add_keys o (v ∷ rest))
    else if is arg "-t"
    then targeted
    else if is arg "-l"
    then as_is
    else ok (add_keys o (arg ∷ v ∷ rest))

unfoldable pub parse_send_keys : List Bytes → Result SendKeysOptions
unfolding send_keys_loop
parse_send_keys args = send_keys_loop send_keys_defaults args

abbrev pub print_target : Bytes → List Bytes
print_target t = str "-t" ∷ t ∷ []

abbrev pub print_literal : Bool → List Bytes
print_literal b = if b then str "-l" ∷ [] else []

-- The arguments that a careful caller writes for the options `o`.
abbrev pub print_send_keys : SendKeysOptions → List Bytes
print_send_keys o = print_target o.target ++ (print_literal o.literal ++ str "--" ∷ o.keys)

-- Printed with `--` before the keys, every target, literal flag and list of keys is read back,
-- whatever the keys look like.
pub parse_send_keys-print : (o : SendKeysOptions) → parse_send_keys (print_send_keys o) ≡ ok o
unfolding parse_send_keys
parse_send_keys-print o = ground arith

-- An argument that the loop does not take for `--`, `-t` or `-l`.
abbrev pub IsKey : Bytes → Type 0
IsKey k = (is k "--" ≡ false) × (is k "-t" ≡ false) × (is k "-l" ≡ false)

-- Without `--` the keys begin at the first argument that is no flag, and all that follows it is
-- keys too, flags included.
pub parse_send_keys-first_key :
    (t : Bytes) (l : Bool) (k : Bytes) (ks : List Bytes)
    → IsKey k
    → parse_send_keys (print_target t ++ (print_literal l ++ k ∷ ks))
      ≡ ok (record { target = t; literal = l; keys = k ∷ ks })
unfolding parse_send_keys
parse_send_keys-first_key t l k ks h = ground arith
