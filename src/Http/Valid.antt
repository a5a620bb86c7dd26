-- ===== src/Http/Valid.antt =====
-- What one request to either server does to the configuration and to the runtime status.
use mqtt_field_bridge_app.Http.Posts.{
  linux_post_config-zephyr_post_config, linux_post_peer-zephyr_post_peer,
  linux_post_control-zephyr_post_control, linux_post_publish-zephyr_post_publish,
  linux_post_reset-zephyr_post_reset,
}
use mqtt_field_bridge_app.Base.{
  ◌≡◌, refl, ap, inl, inr, Option, Option-cases, Bytes, ok, codes, equal, ◌||◌, Bool-cases,
}
use mqtt_field_bridge_app.Config.{Platform, kept, IsSized}
use mqtt_field_bridge_app.Bridge.{Mesh}
use mqtt_field_bridge_app.Runtime.{P2p, IsRun-kept}
use mqtt_field_bridge_app.Topics.{strncmp_eq}
use mqtt_field_bridge_app.Http.Handlers.{Server, is_path, page_of}
use mqtt_field_bridge_app.Http.Linux.{
  scan_word, linux_get, linux_post, linux_answer, handle_request, request_path, request_body,
  resp_buf_size,
}
use mqtt_field_bridge_app.Http.Zephyr.{
  Method, http_get, http_post, http_other, zephyr_page, zephyr_copy_request_body, zephyr_route,
  zephyr_post, zephyr_resp_buf_size,
}
use mqtt_field_bridge_app.Http.Agreement.{zephyr_route-linux_post}
use mqtt_field_bridge_app.Http.Acts.{
  Acts, page_text-config, zephyr_post_config-Acts, zephyr_post_peer-Acts,
  zephyr_post_control-config, zephyr_post_publish-config, zephyr_post_reset-Acts,
}
use mqtt_field_bridge_app.Http.Sized.{
  zephyr_post_config-IsSized, zephyr_post_peer-settings, zephyr_post_reset-IsSized,
}
use mqtt_field_bridge_app.Http.Runs.{
  Runs, page_text-Runs, zephyr_post_config-Runs, zephyr_post_peer-Runs, zephyr_post_control-Runs,
  zephyr_post_publish-Runs, zephyr_post_reset-Runs,
}

-- The state before a request and behind it, where that did one operation on the configuration at
-- most, and some events of the status, and kept the sizes of the settings.
pub record IsAct {S T : Type 0} (env : Platform S) (s s' : Server S T) : Type 0 where
  pub acts : Acts env s s'
  pub runs : Runs s s'
  pub sized : IsSized s.config.settings → IsSized s'.config.settings

module _ {S T : Type 0} {env : Platform S} {s s' : Server S T} where
  pub same_config : s'.config ≡ s.config → Runs s s' → IsAct env s s'
  same_config e runs = record { acts = (ok, kept e); runs = runs; sized = λ h. rw e h }

  pub same : s'.config ≡ s.config → s'.runtime ≡ s.runtime → IsAct env s s'
  same e e' = same_config e (IsRun-kept (ap (λ r. r.status) e'))

module _ {S T : Type 0} (env : Platform S) (mesh : Mesh T) (p2p : P2p) where
  linux_get-IsAct : (path : Bytes) (s : Server S T) → IsAct env s (linux_get env mesh p2p path s).1
  unfolding linux_get
  linux_get-IsAct path s = elim (Bool-cases (is_path path "/" || is_path path "/index.html")) [
    | inl e ↦ rw (e, linux_get) (same refl refl)
    | inr e ↦ elim (Option-cases (page_of path)) [
      | inl e' ↦ rw (e, e', linux_get) (same refl refl)
      | inr (page, e') ↦
          rw (e, e', linux_get)
            (same_config (page_text-config env mesh p2p page resp_buf_size s)
              (page_text-Runs env mesh p2p page resp_buf_size s))
    ]
  ]

  linux_post-IsAct :
      (path body : Bytes) (s : Server S T) → IsAct env s (linux_post env mesh p2p path body s).1
  unfolding linux_post
  linux_post-IsAct path body s = elim (Bool-cases (is_path path "/config")) [
    | inl e₁ ↦
        rw (e₁, linux_post, linux_post_config-zephyr_post_config env mesh p2p body s)
          record {
            acts = zephyr_post_config-Acts env mesh p2p body s;
            runs = zephyr_post_config-Runs env mesh p2p body s;
            sized = zephyr_post_config-IsSized env mesh p2p body s;
          }
    | inr e₁ ↦ elim (Bool-cases (strncmp_eq path (codes "/peers/") 7)) [
      | inl e₂ ↦
          rw (e₁, e₂, linux_post, linux_post_peer-zephyr_post_peer env mesh p2p path body s)
            record {
              acts = zephyr_post_peer-Acts env mesh p2p path body s;
              runs = zephyr_post_peer-Runs env mesh p2p path body s;
              sized = λ h. rw (zephyr_post_peer-settings env mesh p2p path body s) h;
            }
      | inr e₂ ↦ elim (Bool-cases (is_path path "/broker/control")) [
        | inl e₃ ↦
            rw (e₁, e₂, e₃, linux_post, linux_post_control-zephyr_post_control env mesh p2p body s)
              (same_config (zephyr_post_control-config env mesh p2p body s)
                (zephyr_post_control-Runs env mesh p2p body s))
        | inr e₃ ↦ elim (Bool-cases (is_path path "/publish-test")) [
          | inl e₄ ↦
              rw
                (
                  e₁,
                  e₂,
                  e₃,
                  e₄,
                  linux_post,
                  linux_post_publish-zephyr_post_publish env mesh p2p body s,
                )
                (same_config (zephyr_post_publish-config env mesh p2p body s)
                  (zephyr_post_publish-Runs env mesh p2p body s))
          | inr e₄ ↦ elim (Bool-cases (is_path path "/config/reset")) [
            | inl e₅ ↦
                rw
                  (
                    e₁,
                    e₂,
                    e₃,
                    e₄,
                    e₅,
                    linux_post,
                    linux_post_reset-zephyr_post_reset env mesh p2p s,
                  )
                  record {
                    acts = zephyr_post_reset-Acts env mesh p2p s;
                    runs = zephyr_post_reset-Runs env mesh p2p s;
                    sized = λ h. zephyr_post_reset-IsSized env mesh p2p s;
                  }
            | inr e₅ ↦ elim (Bool-cases (is_path path "/reboot")) [
              | inl e₆ ↦ rw (e₁, e₂, e₃, e₄, e₅, e₆, linux_post) (same refl refl)
              | inr e₆ ↦ rw (e₁, e₂, e₃, e₄, e₅, e₆, linux_post) (same refl refl)
            ]
          ]
        ]
      ]
    ]
  ]

  linux_answer-IsAct :
      (method path body : Bytes) (s : Server S T)
      → IsAct env s (linux_answer env mesh p2p method path body s).1
  unfolding linux_answer
  linux_answer-IsAct method path body s = elim (Bool-cases (equal method (codes "GET"))) [
    | inl e ↦ rw (e, linux_answer) (linux_get-IsAct path s)
    | inr e ↦ elim (Bool-cases (equal method (codes "POST"))) [
      | inl e' ↦ rw (e, e', linux_answer) (linux_post-IsAct path body s)
      | inr e' ↦ rw (e, e', linux_answer) (same refl refl)
    ]
  ]

  pub handle_request-IsAct :
      (req : Bytes) (s : Server S T) → IsAct env s (handle_request env mesh p2p req s).1
  unfolding handle_request
  handle_request-IsAct req s = elim (Option-cases (scan_word 7 req)) [
    | inl e ↦ rw (e, handle_request) (same refl refl)
    | inr ((method, rest), e) ↦ elim (Option-cases (scan_word 127 rest)) [
      | inl e' ↦ rw (e, e', handle_request) (same refl refl)
      | inr ((raw_path, rest'), e') ↦
          rw (e, e', handle_request)
            (linux_answer-IsAct method (request_path raw_path) (request_body req) s)
    ]
  ]

  pub zephyr_page-config :
      (method : Method) (path : Bytes) (s : Server S T)
      → (zephyr_page env mesh p2p method path s).1.config ≡ s.config
  unfolding zephyr_page
  zephyr_page-config http_get path s = elim (Option-cases (page_of path)) [
    | inl e ↦ rw (e, zephyr_page) refl
    | inr (page, e) ↦
        rw (e, zephyr_page) (page_text-config env mesh p2p page zephyr_resp_buf_size s)
  ]
  zephyr_page-config http_post path s = refl
  zephyr_page-config http_other path s = refl

  pub zephyr_page-Runs :
      (method : Method) (path : Bytes) (s : Server S T)
      → Runs s (zephyr_page env mesh p2p method path s).1
  unfolding zephyr_page
  zephyr_page-Runs http_get path s = elim (Option-cases (page_of path)) [
    | inl e ↦ rw (e, zephyr_page) (IsRun-kept refl)
    | inr (page, e) ↦ rw (e, zephyr_page) (page_text-Runs env mesh p2p page zephyr_resp_buf_size s)
  ]
  zephyr_page-Runs http_post path s = IsRun-kept refl
  zephyr_page-Runs http_other path s = IsRun-kept refl

  zephyr_route-IsAct :
      (path body : Bytes) (s : Server S T) → IsAct env s (zephyr_route env mesh p2p path body s).1
  zephyr_route-IsAct path body s =
      let outcome = zephyr_route-linux_post env mesh p2p path body s in
      let act = linux_post-IsAct path body s in
      record {
        acts = rw outcome.1 act.acts;
        runs = rw outcome.2 act.runs;
        sized = λ h. rw outcome.1 (act.sized h);
      }

  pub zephyr_post-IsAct :
      (method : Method) (path : Bytes) (content : Option Bytes) (s : Server S T)
      → IsAct env s (zephyr_post env mesh p2p method path content s).1
  unfolding zephyr_post
  zephyr_post-IsAct http_get path content s = same refl refl
  zephyr_post-IsAct http_other path content s = same refl refl
  zephyr_post-IsAct http_post path content s =
      elim (Option-cases (zephyr_copy_request_body content)) [
        | inl e ↦ rw (e, zephyr_post) (same refl refl)
        | inr (body, e) ↦ rw (e, zephyr_post) (zephyr_route-IsAct path body s)
      ]
