-- ===== src/Http/Agreement.antt =====
-- The two servers of provisioning_http.c, side by side.
use mqtt_field_bridge_app.Http.Posts.{
  linux_post_config-zephyr_post_config, linux_post_peer-zephyr_post_peer,
  linux_post_control-zephyr_post_control, linux_post_publish-zephyr_post_publish,
  linux_post_reset-zephyr_post_reset,
}
use mqtt_field_bridge_app.Base.{◌≡◌, refl, inl, inr, Bytes, codes, Bool-cases}
use mqtt_field_bridge_app.Config.{Platform}
use mqtt_field_bridge_app.Bridge.{Mesh}
use mqtt_field_bridge_app.Runtime.{P2p}
use mqtt_field_bridge_app.Topics.{strncmp_eq}
use mqtt_field_bridge_app.Http.Handlers.{Server, Response, is_path}
use mqtt_field_bridge_app.Http.Linux.{linux_post}
use mqtt_field_bridge_app.Http.Zephyr.{zephyr_route}

-- The same response, and the same configuration, runtime and seed table.
abbrev pub IsSameOutcome : {S T : Type 0} → Response × Server S T → Response × Server S T → Type 0
IsSameOutcome x y =
    (x.0 ≡ y.0) × (x.1.config ≡ y.1.config) × (x.1.runtime ≡ y.1.runtime) × (x.1.table ≡ y.1.table)

module _ {S T : Type 0} (env : Platform S) (mesh : Mesh T) (p2p : P2p) where
  pub zephyr_route-linux_post :
      (path body : Bytes) (s : Server S T)
      → IsSameOutcome (zephyr_route env mesh p2p path body s) (linux_post env mesh p2p path body s)
  unfolding zephyr_route linux_post
  zephyr_route-linux_post path body s = elim (Bool-cases (is_path path "/config")) [
    | inl e₁ ↦
        rw (e₁, zephyr_route, linux_post, linux_post_config-zephyr_post_config env mesh p2p body s)
          (refl, refl, refl, refl)
    | inr e₁ ↦ elim (Bool-cases (strncmp_eq path (codes "/peers/") 7)) [
      | inl e₂ ↦
          rw
            (
              e₁,
              e₂,
              zephyr_route,
              linux_post,
              linux_post_peer-zephyr_post_peer env mesh p2p path body s,
            )
            (refl, refl, refl, refl)
      | inr e₂ ↦ elim (Bool-cases (is_path path "/broker/control")) [
        | inl e₃ ↦
            rw
              (
                e₁,
                e₂,
                e₃,
                zephyr_route,
                linux_post,
                linux_post_control-zephyr_post_control env mesh p2p body s,
              )
              (refl, refl, refl, refl)
        | inr e₃ ↦ elim (Bool-cases (is_path path "/publish-test")) [
          | inl e₄ ↦
              rw
                (
                  e₁,
                  e₂,
                  e₃,
                  e₄,
                  zephyr_route,
                  linux_post,
                  linux_post_publish-zephyr_post_publish env mesh p2p body s,
                )
                (refl, refl, refl, refl)
          | inr e₄ ↦ elim (Bool-cases (is_path path "/config/reset")) [
            | inl e₅ ↦
                rw
                  (
                    e₁,
                    e₂,
                    e₃,
                    e₄,
                    e₅,
                    zephyr_route,
                    linux_post,
                    linux_post_reset-zephyr_post_reset env mesh p2p s,
                  )
                  (refl, refl, refl, refl)
            | inr e₅ ↦ elim (Bool-cases (is_path path "/reboot")) [
              | inl e₆ ↦
                  rw (e₁, e₂, e₃, e₄, e₅, e₆, zephyr_route, linux_post) (refl, refl, refl, refl)
              | inr e₆ ↦
                  rw (e₁, e₂, e₃, e₄, e₅, e₆, zephyr_route, linux_post) (refl, refl, refl, refl)
            ]
          ]
        ]
      ]
    ]
  ]
