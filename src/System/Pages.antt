-- ===== src/System/Pages.antt =====
-- The status page of the node, over the handler of the HTTP server.
use mqtt_field_bridge_app.Base.{ℕ, ◌≡◌, refl, ap, equal, some, Bytes, codes, cstr, take, arith}
use mqtt_field_bridge_app.Config.{IsSizedStore}
use mqtt_field_bridge_app.Runtime.{
  P2p, RuntimeStatus, get_status, runtime_init, IsRun, IsBounded, on_events-IsBounded, IsNarrow,
  on_events-IsNarrow, get_status-IsNarrow,
}
use mqtt_field_bridge_app.Http.{
  Server, Request, http_get, data_final, Slots, before_char, json, zephyr_acquire_buffers,
  zephyr_answer, zephyr_page, zephyr_dynamic_handler, zephyr_resp_buf_size, status_page, page_of,
  page_text, page_text-status_page, status_text,
}
use mqtt_field_bridge_app.Topics.{topic_text}
use mqtt_field_bridge_app.System.{System, server_of}
use mqtt_field_bridge_app.System.Steps.{Build, Reach}
use mqtt_field_bridge_app.System.Sized.{Reach-HasSizes, first_store}
use mqtt_field_bridge_app.System.Safety.{Reach-IsSound}

-- A status that events made of the first one.
IsRun-IsBounded : (s : RuntimeStatus) → IsRun runtime_init.status s → IsBounded s
IsRun-IsBounded s h = rw h.outcome (on_events-IsBounded h.events)

module _ {S T : Type 0} (b : Build S T) where
  -- In every reachable state every text of the status is terminated in its array.
  pub Reach-IsBounded : {s : System S T} → Reach b s → IsBounded s.runtime.status
  Reach-IsBounded h = IsRun-IsBounded _ (Reach-IsSound b h).status

  pub Reach-IsNarrow : {s : System S T} → Reach b s → IsNarrow s.runtime.status
  Reach-IsNarrow h =
      let runs = (Reach-IsSound b h).status in rw runs.outcome (on_events-IsNarrow runs.events)

  zephyr_answer-shown :
      (p2p : P2p) (request : Request) (path : Bytes) (t : Server S T) (text : Bytes)
      → request.method ≡ http_get
      → path ≡ codes "/status"
      → (page_text b.env b.mesh p2p status_page zephyr_resp_buf_size t).0 ≡ some text
      → (zephyr_answer b.env b.mesh p2p request path t).0 ≡ record { code = 200; body = json text }
  unfolding zephyr_answer zephyr_page page_of equal
  zephyr_answer-shown p2p request path t text get here shown =
      rw (here, get, shown, zephyr_answer) refl

  -- Over a store that gives back what it holds, and that at the first power-on holds only records
  -- with terminated texts and with numbers that fit their types, in every reachable state: a GET
  -- request for /status, from a client that has or gets a slot of buffers, is answered with 200 and
  -- the whole text of the refreshed status, with the test topic of the prefix.
  pub status_page-shown :
      {Holds : S → Type 0} (laws : IsSizedStore b.env Holds) (p2p : P2p) (client : ℕ)
      (request : Request) (slots : Slots) (s : System S T) (h : Reach b s)
      → Holds (first_store b h)
      → request.method ≡ http_get
      → before_char b'?' (take 127 request.url) ≡ codes "/status"
      → zephyr_acquire_buffers client s.slots ≡ some slots
      → (zephyr_dynamic_handler b.env b.mesh p2p client data_final request s.slots (server_of s)).0
        ≡ some (record {
          code = 200;
          body = json (
              status_text
                (get_status p2p s.runtime.status)
                (topic_text (cstr s.config.settings.broker.topic_prefix) (codes "test")));
        })
  unfolding zephyr_dynamic_handler equal server_of
  status_page-shown laws p2p client request slots s h held get path slot =
      let sound = Reach-IsSound b h in
      let numbers = get_status-IsNarrow p2p s.runtime.status (Reach-IsNarrow h) in
      let shown =
        page_text-status_page b.env b.mesh p2p zephyr_resp_buf_size (server_of s) (omega arith)
          sound.form.valid (Reach-HasSizes b laws h held).memory (Reach-IsBounded h)
          (omega (arith, numbers.connected_peers)) (omega (arith, numbers.remote_subscriptions)) in
      let answer = zephyr_answer-shown p2p request _ (server_of s) _ get path shown in
      rw (get, path, slot, zephyr_dynamic_handler) (ap some answer)
