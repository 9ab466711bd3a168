-- ===== src/Cli/Typed.antt =====
-- cmd/shimux/main.go: `tmux send-keys`, from the arguments of the program to the terminal of a pane.
use shimux.Base.{
  length, Bytes, str, equal, is, equal-false, Error, Result, ok, err, ◌+◌, ◌≤◌, ◌≡◌, refl, ap, ◌∙◌,
  ◌≢◌, true, Option, none, some, [], ◌∷◌, sym,
}
use shimux.Base.FilePath.{base_name}
use shimux.Agent.Client.{SendKeysResponse}
use shimux.Agent.Server.{max_request_size}
use shimux.Agent.Exchange.{Codec, Wire, client_side, times}
use shimux.Tmux.Parser.{ParseResult, no_options, parse}
use shimux.Tmux.Parser.Keys.{SendKeysOptions, parse_send_keys-print, print_send_keys}
use shimux.Tmux.Keys.{build_send_keys_data}
use shimux.Tmux.Commands.{
  Context, State, execute, handle_send_keys, target_pane, extract_pane_id, with_options,
}
use shimux.Tmux.Commands.Typed.{send_keys-typed}
use shimux.Agent.Client.{safe_socket_path}
use shimux.AgentCli.{AgentProcess, agent_of}
use shimux.Cli.{
  Process, Exit, context, start, finish, run_parsed, complain, shown, run_tmux_mode, run_main,
}

-- What the command line is parsed to.
abbrev send_keys_line : SendKeysOptions → ParseResult
send_keys_line opts = record {
  global = no_options;
  command = str "send-keys";
  args = print_send_keys opts;
}

parse-send_keys_line :
    (opts : SendKeysOptions)
    → parse (str "send-keys" ∷ print_send_keys opts) ≡ ok (send_keys_line opts)
unfolding parse equal
parse-send_keys_line opts = refl

execute-send_keys_line :
    {W : Type 0} (ctx : Context W) (opts : SendKeysOptions) (st : State W)
    → execute ctx (send_keys_line opts) st ≡ handle_send_keys ctx opts st
unfolding execute equal
execute-send_keys_line ctx opts st =
    ap (λ o. with_options o (handle_send_keys ctx) st) (parse_send_keys-print opts)

run_tmux_mode-send_keys_line :
    {W : Type 0} (proc : Process W) (opts : SendKeysOptions) (w : W)
    → run_tmux_mode proc (str "send-keys" ∷ print_send_keys opts) w
      ≡ finish proc (handle_send_keys (context proc) opts (start proc w))
unfolding run_tmux_mode run_parsed
run_tmux_mode-send_keys_line {W} proc opts w =
    ap
      (λ (p : Result ParseResult). elim p as (λ x. Exit W) [
        | err e ↦ complain proc (shown proc e) w
        | ok r ↦ run_parsed proc r w
      ])
      (parse-send_keys_line opts)
    ∙ ap (finish proc) (execute-send_keys_line (context proc) opts (start proc w))

run_main-send_keys_line :
    {W : Type 0} (proc : Process W) (program : Bytes) (opts : SendKeysOptions) (w : W)
    → is (base_name program) "tmux" ≡ true
    → run_main proc (program ∷ str "send-keys" ∷ print_send_keys opts) w
      ≡ finish proc (handle_send_keys (context proc) opts (start proc w))
unfolding run_main
run_main-send_keys_line proc program opts w called =
    rw called (run_tmux_mode-send_keys_line proc opts w)

target_pane-named :
    {W : Type 0} (ctx : Context W) (opts : SendKeysOptions) (st : State W)
    → extract_pane_id opts.target ≢ []
    → target_pane ctx opts.target st.manager ≡ extract_pane_id opts.target
unfolding target_pane
target_pane-named ctx opts st named = rw (equal-false (extract_pane_id opts.target) [] named) refl

-- The path at which the program shimux-agent serves a pane of a session.
abbrev pub agent_path : {V : Type 0} → AgentProcess V → Bytes → Bytes → Bytes
agent_path agent session pane_id = (agent_of agent session pane_id).socket_path

agent_path-safe :
    {V : Type 0} (agent : AgentProcess V) (session pane_id : Bytes)
    → agent_path agent session pane_id ≡ safe_socket_path agent.host session pane_id
unfolding agent_of shimux.Agent.Process.new_agent
agent_path-safe agent session pane_id = refl

module _ {A : Type 0} (address : Bytes) (codec : Codec) (quote : Bytes → Bytes)
    (handler : Bytes → A → Option Error × A) where
  -- A process whose connections lead to the server of one agent, which listens at `address`.
  abbrev pub with_agent : Process (Wire A) → Process (Wire A)
  with_agent proc = record proc { net = client_side address codec quote handler }

  -- `tmux send-keys -t TARGET … -- KEYS`, with a target that names a pane, keys that give a text, JSON
  -- texts that read back and a request within the limit. The one agent that can be reached listens where
  -- shimux-agent, on the same host, serves that pane of the session that SHIMUX_SESSION names. If it
  -- takes the text, it takes it once and in whole, the program exits with 0 and writes nothing. If it
  -- takes effect and fails each time, the effect takes place 10 times and the program exits with 1.
  pub run_main-typed :
      {V : Type 0} (agent : AgentProcess V) (proc : Process (Wire A)) (program : Bytes)
      (opts : SendKeysOptions) (bytes : Bytes) (w : Wire A)
      → agent.host ≡ proc.host
      → agent_path agent (proc.getenv (str "SHIMUX_SESSION")) (extract_pane_id opts.target)
        ≡ address
      → is (base_name program) "tmux" ≡ true
      → build_send_keys_data opts.keys opts.literal ≢ []
      → extract_pane_id opts.target ≢ []
      → codec.marshal_request (build_send_keys_data opts.keys opts.literal) ≡ ok bytes
      → codec.unmarshal_request bytes ≡ ok (build_send_keys_data opts.keys opts.literal)
      → length bytes ≤ max_request_size + 1
      → ((resp : SendKeysResponse)
          → codec.unmarshal_response (codec.marshal_response resp) ≡ ok resp)
      → ((a : A)
          → handler (build_send_keys_data opts.keys opts.literal) w.agent ≡ (none, a)
          → (w' : Wire A) × (run_main
                (with_agent proc)
                (program ∷ str "send-keys" ∷ print_send_keys opts)
                w
              ≡ record { code = 0; stdout = []; stderr = []; world = w' })
            × (w'.agent ≡ a))
        × ((e : Error) (effect : A → A)
            → ((a : A)
                → handler (build_send_keys_data opts.keys opts.literal) a ≡ (some e, effect a))
            → let x =
                run_main (with_agent proc) (program ∷ str "send-keys" ∷ print_send_keys opts) w in
              (x.code ≡ 1) × (x.world.agent ≡ times 10 effect w.agent))
  unfolding finish
  run_main-typed agent proc program opts bytes w same_host served called some_text named marshalled
        read small answered =
      let p = with_agent proc in
      let st = start p w in
      let run = run_main-send_keys_line p program opts w called in
      let session = proc.getenv (str "SHIMUX_SESSION") in
      let target = target_pane-named (context p) opts st named in
      let here =
        ap (safe_socket_path proc.host session) target
        ∙ ap (λ h. safe_socket_path h session (extract_pane_id opts.target)) (sym same_host)
        ∙ sym (agent_path-safe agent session (extract_pane_id opts.target))
        ∙ served in
      let (once, failing) =
        send_keys-typed address codec quote handler (context proc) opts st some_text
          (λ e. named (sym target ∙ e)) bytes here marshalled read small answered in
      (
        λ a h. let (w', same, took) = once a h in (w', run ∙ ap (finish p) same, took),
        λ e effect h.
            let (w', same, took) = failing e effect h in
            let ends = run ∙ ap (finish p) same in
            (
              ap (λ (x : Exit (Wire A)). x.code) ends,
              ap (λ (x : Exit (Wire A)). x.world.agent) ends ∙ took,
            ),
      )
