-- ===== src/Http/Lists.antt =====
-- The pages /peers and /peer-status of provisioning_http.c: build_peers_json and
-- build_peer_status_json.
use mqtt_field_bridge_app.Base.{
  ℕ, zero, suc, ◌+◌, ◌≡◌, ◌∙◌, refl, sym, ap, inl, inr, true, false, Bool-cases, Option, none, some,
  List, [], ◌∷◌, ◌++◌, Bytes, pos, arith, append-nil, if◌then◌else◌, codes, length, ltb,
  append_assoc, length-append, get_elem?, take-eq_self,
}
use mqtt_field_bridge_app.Config.{
  Peer, Platform, Config, peer_max, get_peer, IsWellFormed, get_peer-get_elem?,
}
use mqtt_field_bridge_app.Runtime.{
  RuntimeStatus, PeerStatus, P2p, numbered, get_peer_statuses-numbered,
}
use mqtt_field_bridge_app.Http.Builders.{
  append_text, close_list, status_entries, peer_entries, build_peers_json, build_peer_status_json,
  peer_text, peer_status_text,
}

-- The texts of the peers, numbered from `i`.
abbrev pub peer_texts : ℕ → List Peer → Bytes
peer_texts i [] = []
peer_texts i (p ∷ ps) = peer_text i p ++ peer_texts (i + 1) ps

abbrev pub peer_status_texts : ℕ → List PeerStatus → Bytes
peer_status_texts i [] = []
peer_status_texts i (p ∷ ps) = peer_status_text i p ++ peer_status_texts (i + 1) ps

length-numbered :
    (p2p : P2p) (s : RuntimeStatus) (i : ℕ) (ps : List Peer)
    → length (numbered p2p s i ps) ≡ length ps
length-numbered p2p s i [] = refl
length-numbered p2p s i (p ∷ ps) = ap suc (length-numbered p2p s (i + 1) ps)

-- A text in a buffer of `cap` bytes, if it and a terminator fit.
unfoldable pub fitted : ℕ → Bytes → Option Bytes
fitted cap text = if ltb (length text) cap then some text else none

fitted_start : (cap : ℕ) → append_text cap [] (codes "[") ≡ fitted cap (codes "[")
unfolding append_text fitted
fitted_start cap = ground arith

fitted-append :
    (cap : ℕ) (out text : Bytes)
    → ltb (length out) cap ≡ true
    → append_text cap out text ≡ fitted cap (out ++ text)
unfolding append_text fitted
fitted-append cap out text h = let len = length-append out text in ground arith

none_fits :
    (cap : ℕ) (out text : Bytes) → ltb (length out) cap ≡ false → fitted cap (out ++ text) ≡ none
unfolding fitted
none_fits cap out text h = let len = length-append out text in ground arith

fitted-some : (cap : ℕ) (out : Bytes) → ltb (length out) cap ≡ true → fitted cap out ≡ some out
unfolding fitted
fitted-some cap out h = rw h refl

fitted-none : (cap : ℕ) (out : Bytes) → ltb (length out) cap ≡ false → fitted cap out ≡ none
unfolding fitted
fitted-none cap out h = rw h refl

close_list-fitted :
    (cap : ℕ) (out : Bytes) → close_list cap (fitted cap out) ≡ fitted cap (out ++ codes "]")
unfolding close_list
close_list-fitted cap out = elim (Bool-cases (ltb (length out) cap)) [
  | inl h ↦ rw (fitted-some cap out h) (fitted-append cap out (codes "]") h)
  | inr h ↦ rw (fitted-none cap out h) (sym (none_fits cap out (codes "]") h))
]

status_entries-none : (cap : ℕ) (ps : List PeerStatus) (i : ℕ) → status_entries cap ps i none ≡ none
unfolding status_entries
status_entries-none cap [] i = refl
status_entries-none cap (p ∷ ps) i = refl

status_entries-fitted :
    (cap : ℕ) (ps : List PeerStatus) (i : ℕ) (out : Bytes)
    → status_entries cap ps i (fitted cap out) ≡ fitted cap (out ++ peer_status_texts i ps)
unfolding status_entries
status_entries-fitted cap [] i out = rw append-nil refl
status_entries-fitted cap (p ∷ ps) i out = elim (Bool-cases (ltb (length out) cap)) [
  | inl h ↦
      rw (fitted-some cap out h, fitted-append cap out (peer_status_text i p) h)
        (status_entries-fitted cap ps (i + 1) (out ++ peer_status_text i p)
          ∙ ap (fitted cap)
              (append_assoc out (peer_status_text i p) (peer_status_texts (i + 1) ps)))
  | inr h ↦ rw (fitted-none cap out h) (sym (none_fits cap out (peer_status_texts i (p ∷ ps)) h))
]

module _ {S : Type 0} (env : Platform S) (p2p : P2p) (c : Config S) where
  peer_entries-fitted :
      (cap n i : ℕ) (ps : List Peer) (out : Bytes)
      → ((k : ℕ) → get_peer env c (pos (i + k)) ≡ get_elem? ps k)
      → length ps ≡ n
      → peer_entries env p2p c cap n i (fitted cap out) ≡ fitted cap (out ++ peer_texts i ps)
  unfolding peer_entries
  peer_entries-fitted cap zero i [] out at len = rw append-nil refl
  peer_entries-fitted cap zero i (p ∷ ps) out at len = absurd (omega arith)
  peer_entries-fitted cap (suc n) i [] out at len = absurd (omega arith)
  peer_entries-fitted cap (suc n) i (p ∷ ps) out at len =
      let e : i + 0 ≡ i = omega arith in
      let first : get_peer env c (pos i) ≡ some p = rw e at (at 0) in
      elim (Bool-cases (ltb (length out) cap)) [
        | inl h ↦
            rw (fitted-some cap out h, first, peer_entries, fitted-append cap out (peer_text i p) h)
              (peer_entries-fitted cap n (i + 1) ps (out ++ peer_text i p)
                  (λ k. let e' : i + 1 + k ≡ i + suc k = omega arith in rw e' (at (suc k)))
                  (omega arith)
                ∙ ap (fitted cap) (append_assoc out (peer_text i p) (peer_texts (i + 1) ps)))
        | inr h ↦ rw (fitted-none cap out h) (sym (none_fits cap out (peer_texts i (p ∷ ps)) h))
      ]

  -- With a well-formed configuration, build_peers_json leaves the list of every slot in order if the
  -- list and a terminator fit the buffer, and otherwise it fails.
  pub build_peers_json-whole :
      (cap : ℕ)
      → IsWellFormed c
      → build_peers_json env p2p c cap
        ≡ fitted cap ((codes "[" ++ peer_texts 0 c.peers) ++ codes "]")
  unfolding build_peers_json
  build_peers_json-whole cap h =
      rw
        (
          fitted_start cap,
          peer_entries-fitted cap peer_max 0 c.peers (codes "[") (get_peer-get_elem? env c h)
              h.slots,
        )
        (close_list-fitted cap (codes "[" ++ peer_texts 0 c.peers))

  -- With a well-formed configuration, build_peer_status_json leaves the list of the states of every
  -- slot in order if the list and a terminator fit the buffer, and otherwise it fails.
  pub build_peer_status_json-whole :
      (s : RuntimeStatus) (cap : ℕ)
      → IsWellFormed c
      → build_peer_status_json env p2p c s cap
        ≡ fitted cap ((codes "[" ++ peer_status_texts 0 (numbered p2p s 0 c.peers)) ++ codes "]")
  unfolding build_peer_status_json
  build_peer_status_json-whole s cap h =
      let all = numbered p2p s 0 c.peers in
      let shown =
        take-eq_self peer_max all (omega (arith, length-numbered p2p s 0 c.peers, h.slots)) in
      rw
        (
          get_peer_statuses-numbered env p2p s c 1 h,
          build_peer_status_json,
          shown,
          fitted_start cap,
          status_entries-fitted cap all 0 (codes "["),
        )
        (close_list-fitted cap (codes "[" ++ peer_status_texts 0 all))
