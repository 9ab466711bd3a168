-- ===== src/Tmux/Commands/Typed.antt =====
-- internal/tmux/commands.go: send-keys, joined with the server of the agent that it sends to.
use shimux.Base.{
  length, Bytes, str, equal-false, Error, message, wrap, ok, error_text, ◌+◌, ◌≤◌, ◌≡◌, refl, ap,
  ◌∙◌, ◌≢◌, Option, none, some, [], ◌++◌,
}
use shimux.Agent.Client.{send_keys, gave_up, safe_socket_path, SendKeysResponse}
use shimux.Agent.Server.{max_request_size}
use shimux.Agent.Exchange.{Codec, Wire, client_side, times, send_keys-exchange}
use shimux.Tmux.Parser.Keys.{SendKeysOptions}
use shimux.Tmux.Keys.{build_send_keys_data}
use shimux.Tmux.Commands.{
  Context, State, Reply, exit_fail, exit_ok, handle_send_keys, send_text, target_pane,
}

-- The reply for what `SendKeys` returned.
abbrev pub replied : {W : Type 0} → State W → Option Error × W → Reply W
replied st (some e, w) = exit_fail (wrap (str "send-keys") e) (record st { world = w })
replied st (none, w) = exit_ok (record st { world = w })

module _ {A : Type 0} (address : Bytes) (codec : Codec) (quote : Bytes → Bytes)
    (handler : Bytes → A → Option Error × A) where
  -- A context whose connections lead to the server of one agent, which listens at `address`.
  abbrev pub joined : Context (Wire A) → Context (Wire A)
  joined ctx = record ctx { net = client_side address codec quote handler }

  module _ (context : Context (Wire A)) (opts : SendKeysOptions) (st : State (Wire A))
      (some_text : build_send_keys_data opts.keys opts.literal ≢ [])
      (some_pane : target_pane (joined context) opts.target st.manager ≢ []) where
    abbrev ctx : Context (Wire A)
    ctx = joined context

    abbrev text : Bytes
    text = build_send_keys_data opts.keys opts.literal

    abbrev pane_id : Bytes
    pane_id = target_pane ctx opts.target st.manager

    abbrev sent : Option Error × Wire A
    sent = send_keys ctx.net (safe_socket_path ctx.host ctx.session pane_id) text st.world

    send_text-sent : send_text ctx text pane_id st ≡ replied st sent
    unfolding send_text
    send_text-sent = by_result sent.0 sent.1
      where
        by_result :
            (r : Option Error) (w : Wire A)
            → (elim r as (λ x. Reply (Wire A)) [
              | some e ↦ exit_fail (wrap (str "send-keys") e) (record st { world = w })
              | none ↦ exit_ok (record st { world = w })
            ])
              ≡ replied st (r, w)
        by_result (some e) w = refl
        by_result none w = refl

    handle_send_keys-sent : handle_send_keys ctx opts st ≡ replied st sent
    unfolding handle_send_keys
    handle_send_keys-sent =
        rw (equal-false text [] some_text, equal-false pane_id [] some_pane) send_text-sent

    -- send-keys, from its arguments to the agent that listens at the socket path of the target pane, and to
    -- no other path, with JSON texts that read back and a
    -- request within the limit. If the agent takes the text of the keys, it takes it once and in whole
    -- and the command exits with 0. If the agent takes effect and fails each time, the effect takes
    -- place 10 times, and the command exits with 1 and the agent's error. The panes and the output are
    -- as they were.
    pub send_keys-typed :
        (bytes : Bytes)
        → safe_socket_path ctx.host ctx.session pane_id ≡ address
        → codec.marshal_request text ≡ ok bytes
        → codec.unmarshal_request bytes ≡ ok text
        → length bytes ≤ max_request_size + 1
        → ((resp : SendKeysResponse)
            → codec.unmarshal_response (codec.marshal_response resp) ≡ ok resp)
        → ((a : A)
            → handler text st.world.agent ≡ (none, a)
            → (w : Wire A) × (handle_send_keys ctx opts st ≡ exit_ok (record st { world = w }))
              × (w.agent ≡ a))
          × ((e : Error) (effect : A → A)
              → ((a : A) → handler text a ≡ (some e, effect a))
              → (w : Wire A) × (handle_send_keys ctx opts st
                  ≡ exit_fail
                      (wrap
                        (str "send-keys")
                        (gave_up (some (message (str "server error: " ++ error_text quote e)))))
                      (record st { world = w }))
                × (w.agent ≡ times 10 effect st.world.agent))
    send_keys-typed bytes here marshalled read small answered =
        let at = λ (path : Bytes). send_keys ctx.net path text st.world in
        let (once, failing) =
          send_keys-exchange address codec quote handler text bytes marshalled read small answered
            st.world in
        (
          λ a h.
              let (w, same, took) = once a h in
              (w, handle_send_keys-sent ∙ ap (replied st) (ap at here ∙ same), took),
          λ e effect h.
              let (w, same, took) = failing e effect h in
              (w, handle_send_keys-sent ∙ ap (replied st) (ap at here ∙ same), took),
        )
