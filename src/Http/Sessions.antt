-- ===== src/Http/Sessions.antt =====
-- Sequences of requests: those that the Linux server is sent, and the calls of the handler that the
-- HTTP server of Zephyr makes, with the slots of their buffers.
use mqtt_field_bridge_app.Base.{
  ℕ, refl, inl, inr, Option-cases, List, [], ◌∷◌, Bytes, ◌&&◌, ◌||◌, take, Bool-cases,
}
use mqtt_field_bridge_app.Config.{Platform, IsWellFormed, Effect-IsWellFormed}
use mqtt_field_bridge_app.Bridge.{Mesh}
use mqtt_field_bridge_app.Runtime.{P2p, IsRun-both}
use mqtt_field_bridge_app.Http.Handlers.{Server, is_path}
use mqtt_field_bridge_app.Http.Linux.{handle_request, before_char}
use mqtt_field_bridge_app.Http.Zephyr.{
  Slots, Transaction, aborted, complete, more_data, data_final, Request, zephyr_page, zephyr_answer,
  zephyr_acquire_buffers, zephyr_dynamic_handler, is_get,
}
use mqtt_field_bridge_app.Http.Valid.{
  IsAct, same, same_config, handle_request-IsAct, zephyr_page-config, zephyr_page-Runs,
  zephyr_post-IsAct,
}

-- One call of zephyr_dynamic_handler.
pub record Call : Type 0 where
  pub client : ℕ
  pub transaction : Transaction
  pub request : Request

module _ {S T : Type 0} (env : Platform S) (mesh : Mesh T) (p2p : P2p) where
  unfoldable pub handle_requests : List Bytes → Server S T → Server S T
  handle_requests [] s = s
  handle_requests (req ∷ reqs) s = handle_requests reqs (handle_request env mesh p2p req s).1

  unfoldable pub handle_calls : List Call → Slots → Server S T → Slots × Server S T
  handle_calls [] slots s = (slots, s)
  handle_calls (call ∷ calls) slots s =
      let (response, slots', s') =
        zephyr_dynamic_handler env mesh p2p call.client call.transaction call.request slots s in
      handle_calls calls slots' s'

  pub IsAct-IsWellFormed :
      (s s' : Server S T) → IsAct env s s' → IsWellFormed s.config → IsWellFormed s'.config
  IsAct-IsWellFormed s s' act h = Effect-IsWellFormed env _ _ _ act.acts.1 h

  -- Over any requests, whatever they hold and whichever saves fail, settings that validate stay
  -- settings that validate, and every slot keeps a peer.
  pub handle_requests-IsWellFormed :
      (reqs : List Bytes) (s : Server S T)
      → IsWellFormed s.config
      → IsWellFormed (handle_requests reqs s).config
  unfolding handle_requests
  handle_requests-IsWellFormed [] s h = h
  handle_requests-IsWellFormed (req ∷ reqs) s h =
      handle_requests-IsWellFormed reqs _
        (IsAct-IsWellFormed s _ (handle_request-IsAct env mesh p2p req s) h)

  -- One call does one operation on the configuration at most, and some events of the status.
  zephyr_answer-IsAct :
      (request : Request) (path : Bytes) (s : Server S T)
      → IsAct env s (zephyr_answer env mesh p2p request path s).1
  unfolding zephyr_answer
  zephyr_answer-IsAct request path s =
      let (text, s') = zephyr_page env mesh p2p request.method path s in
      let unchanged = zephyr_page-config env mesh p2p request.method path s in
      let page_runs = zephyr_page-Runs env mesh p2p request.method path s in
      elim (Option-cases text) [
        | inl e ↦
            let act = zephyr_post-IsAct env mesh p2p request.method path request.content s' in
            rw (e, zephyr_answer)
              record {
                acts = rw unchanged at act.acts;
                runs = IsRun-both _ _ _ page_runs act.runs;
                sized = λ h. act.sized (rw unchanged h);
              }
        | inr (t, e) ↦ rw (e, zephyr_answer) (same_config unchanged page_runs)
      ]

  pub zephyr_dynamic_handler-IsAct :
      (client : ℕ) (transaction : Transaction) (request : Request) (slots : Slots) (s : Server S T)
      → IsAct env s (zephyr_dynamic_handler env mesh p2p client transaction request slots s).2
  unfolding zephyr_dynamic_handler
  zephyr_dynamic_handler-IsAct client aborted request slots s = same refl refl
  zephyr_dynamic_handler-IsAct client complete request slots s = same refl refl
  zephyr_dynamic_handler-IsAct client more_data request slots s = same refl refl
  zephyr_dynamic_handler-IsAct client data_final request slots s =
      let path = before_char b'?' (take 127 request.url) in
      elim (Bool-cases
        (is_get request.method && (is_path path "/" || is_path path "/index.html"))) [
          | inl e ↦ rw (e, zephyr_dynamic_handler) (same refl refl)
          | inr e ↦ elim (Option-cases (zephyr_acquire_buffers client slots)) [
            | inl e' ↦ rw (e, e', zephyr_dynamic_handler) (same refl refl)
            | inr (slots', e') ↦
                rw (e, e', zephyr_dynamic_handler) (zephyr_answer-IsAct request path s)
          ]
        ]

  -- Over any calls of the handler, whatever the requests hold, whoever aborts and whichever saves
  -- fail, settings that validate stay settings that validate, and every slot keeps a peer.
  pub handle_calls-IsWellFormed :
      (calls : List Call) (slots : Slots) (s : Server S T)
      → IsWellFormed s.config
      → IsWellFormed (handle_calls calls slots s).1.config
  unfolding handle_calls
  handle_calls-IsWellFormed [] slots s h = h
  handle_calls-IsWellFormed (call ∷ calls) slots s h = handle_calls-IsWellFormed calls _ _ (
      IsAct-IsWellFormed s _
        (zephyr_dynamic_handler-IsAct call.client call.transaction call.request slots s) h)
