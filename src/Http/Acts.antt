-- ===== src/Http/Acts.antt =====
-- What a request does to the configuration: apply_config_json, apply_peer_json and the handlers of
-- the POST requests.
use mqtt_field_bridge_app.Base.{
  ℕ, ◌≡◌, refl, inl, inr, Bool-cases, Option-cases, some, Bytes, ℤ, Rc, ok, fail, arith, drop,
}
use mqtt_field_bridge_app.Config.{
  Settings, Platform, Config, is_ok, get_settings, set_settings, get_peer, set_peer, reset_all,
  Effect, kept, by_settings, by_peer, by_reset, ok_of, fail_of,
}
use mqtt_field_bridge_app.Bridge.{Mesh}
use mqtt_field_bridge_app.Runtime.{P2p}
use mqtt_field_bridge_app.Console.{atoi}
use mqtt_field_bridge_app.Http.Apply.{
  same_settings, read_settings, read_peer, commit_config, apply_config_json, apply_peer_json,
}
use mqtt_field_bridge_app.Http.Handlers.{
  Server, Page, status_page, config_page, peers_page, peer_status_page, page_text,
  zephyr_post_config, zephyr_post_peer, zephyr_post_control, zephyr_post_publish, zephyr_post_reset,
}

-- One operation at most, with some result.
abbrev pub Acts : {S T : Type 0} → Platform S → Server S T → Server S T → Type 0
Acts env s s' = (rc : Rc) × Effect env s.config rc s'.config

module _ {S : Type 0} (env : Platform S) where
  commit_config-Effect :
      (old new : Settings) (c : Config S)
      → let r = commit_config env old new c in Effect env c r.0 r.2
  unfolding commit_config
  commit_config-Effect old new c = elim (Bool-cases (same_settings old new)) [
    | inl e ↦ rw e (kept refl)
    | inr e ↦ elim (Bool-cases (is_ok (set_settings env c (some new)).0)) [
      | inl e' ↦ rw (e, e') (by_settings new (ok_of _ e') refl)
      | inr e' ↦ rw (e, e') (by_settings new (fail_of _ e') refl)
    ]
  ]

  -- apply_config_json keeps the configuration, or sets the settings and returns the result of that.
  pub apply_config_json-Effect :
      (body : Bytes) (c : Config S) → let r = apply_config_json env body c in Effect env c r.0 r.2
  unfolding apply_config_json get_settings
  apply_config_json-Effect body c = elim (Option-cases (read_settings body c.settings)) [
    | inl e ↦ rw (e, apply_config_json) (kept refl)
    | inr ((seen, new), e) ↦ elim (Bool-cases seen) [
      | inl e' ↦ rw (e, e', apply_config_json) (commit_config-Effect c.settings new c)
      | inr e' ↦ rw (e, e', apply_config_json) (kept refl)
    ]
  ]

  apply_peer_json-Effect :
      {T : Type 0} (mesh : Mesh T) (index : ℤ) (body : Bytes) (c : Config S) (table : T)
      → let r = apply_peer_json env mesh index body c table in Effect env c r.0 r.1
  unfolding apply_peer_json
  apply_peer_json-Effect mesh index body c table = elim (Option-cases (get_peer env c index)) [
    | inl e ↦ rw (e, apply_peer_json) (kept refl)
    | inr (p, e) ↦ elim (Bool-cases (is_ok (set_peer env c index (some (read_peer body p))).0)) [
      | inl e' ↦ rw (e, e', apply_peer_json) (by_peer index (read_peer body p) (ok_of _ e') refl)
      | inr e' ↦ rw (e, e', apply_peer_json) (by_peer index (read_peer body p) (fail_of _ e') refl)
    ]
  ]

module _ {S T : Type 0} (env : Platform S) (mesh : Mesh T) (p2p : P2p) where
  pub page_text-config :
      (page : Page) (size : ℕ) (s : Server S T)
      → (page_text env mesh p2p page size s).1.config ≡ s.config
  unfolding page_text
  page_text-config status_page size s = refl
  page_text-config config_page size s = refl
  page_text-config peers_page size s = refl
  page_text-config peer_status_page size s = refl

  pub zephyr_post_config-Acts :
      (body : Bytes) (s : Server S T) → Acts env s (zephyr_post_config env mesh p2p body s).1
  unfolding zephyr_post_config
  zephyr_post_config-Acts body s =
      let r = apply_config_json env body s.config in
      (
        r.0,
        elim (Bool-cases (is_ok r.0)) [
          | inl e ↦ rw e (apply_config_json-Effect env body s.config)
          | inr e ↦ rw e (apply_config_json-Effect env body s.config)
        ],
      )

  pub zephyr_post_peer-Acts :
      (path body : Bytes) (s : Server S T)
      → Acts env s (zephyr_post_peer env mesh p2p path body s).1
  unfolding zephyr_post_peer
  zephyr_post_peer-Acts path body s =
      let r = apply_peer_json env mesh (atoi (drop 7 path)) body s.config s.table in
      let effect = apply_peer_json-Effect env mesh (atoi (drop 7 path)) body s.config s.table in
      (r.0, elim (Bool-cases (is_ok r.0)) [ inl e ↦ rw e effect | inr e ↦ rw e effect ])

  pub zephyr_post_control-config :
      (body : Bytes) (s : Server S T)
      → (zephyr_post_control env mesh p2p body s).1.config ≡ s.config
  unfolding zephyr_post_control
  zephyr_post_control-config body s = ground arith

  pub zephyr_post_publish-config :
      (body : Bytes) (s : Server S T)
      → (zephyr_post_publish env mesh p2p body s).1.config ≡ s.config
  unfolding zephyr_post_publish
  zephyr_post_publish-config body s = ground arith

  pub zephyr_post_reset-Acts : (s : Server S T) → Acts env s (zephyr_post_reset env mesh p2p s).1
  unfolding zephyr_post_reset
  zephyr_post_reset-Acts s = elim (Bool-cases (is_ok (reset_all env s.config).0)) [
    | inl e ↦ (ok, rw e (by_reset (ok_of _ e) refl))
    | inr e ↦ (fail, rw e (by_reset (fail_of _ e) refl))
  ]
