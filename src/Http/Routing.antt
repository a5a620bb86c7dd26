-- ===== src/Http/Routing.antt =====
-- How handle_request takes the text of a request apart.
use mqtt_field_bridge_app.Base.{
  ℕ, zero, suc, ◌<◌, ◌≤◌, ◌≡◌, ◌∙◌, refl, ap, true, false, some, List, [], ◌∷◌, ◌++◌, Bytes, All,
  arith, ◌==◌, codes, length, take-eq_self, append_assoc,
}
use mqtt_field_bridge_app.Config.{Platform}
use mqtt_field_bridge_app.Bridge.{Mesh}
use mqtt_field_bridge_app.Runtime.{P2p}
use mqtt_field_bridge_app.Topics.{strncmp_eq}
use mqtt_field_bridge_app.Console.{is_space, skip_spaces}
use mqtt_field_bridge_app.Http.Json.{strstr}
use mqtt_field_bridge_app.Http.Handlers.{Server}
use mqtt_field_bridge_app.Http.Linux.{
  word_chars, scan_word, before_char, request_path, request_body, linux_answer, handle_request,
}

-- A line that is not empty, without a carriage return.
abbrev pub IsLine : Bytes → Type 0
IsLine l = (0 < length l) × All (λ c. (c == 13) ≡ false) l

-- Lines, each with its end, an empty line, and a body.
abbrev pub head_text : List Bytes → Bytes → Bytes
head_text [] body = codes "\r\n" ++ body
head_text (l ∷ ls) body = l ++ (codes "\r\n" ++ head_text ls body)

-- A word without blanks.
abbrev pub IsWordText : ℕ → Bytes → Type 0
IsWordText width w = (0 < length w) × (length w ≤ width) × All (λ c. is_space c ≡ false) w

strstr-line :
    (l t : Bytes)
    → All (λ c. (c == 13) ≡ false) l
    → strstr (l ++ t) (codes "\r\n\r\n") ≡ strstr t (codes "\r\n\r\n")
unfolding strstr strncmp_eq
strstr-line [] t h = refl
strstr-line (c ∷ l) t h = rw h.0 (strstr-line l t h.1)

strstr-head_text :
    (l : Bytes) (ls : List Bytes) (body : Bytes)
    → All IsLine (l ∷ ls)
    → strstr (head_text (l ∷ ls) body) (codes "\r\n\r\n") ≡ some (codes "\r\n\r\n" ++ body)
unfolding strstr strncmp_eq
strstr-head_text l [] body h = strstr-line l (codes "\r\n\r\n" ++ body) h.0.1
strstr-head_text l ([] ∷ ls) body h = absurd (omega (arith, h.1.0.0))
strstr-head_text l ((c ∷ l') ∷ ls) body h =
    let first = h.1.0.1.0 in
    let ih = strstr-head_text (c ∷ l') ls body h.1 in
    strstr-line l (codes "\r\n" ++ head_text ((c ∷ l') ∷ ls) body) h.0.1 ∙ rw first (rw first at ih)

word_chars-append :
    (width : ℕ) (w : Bytes) (c : ℕ) (t : Bytes)
    → length w ≤ width
    → All (λ c. is_space c ≡ false) w
    → is_space c ≡ true
    → word_chars width (w ++ c ∷ t) ≡ (w, c ∷ t)
unfolding word_chars
word_chars-append zero [] c t short h e = refl
word_chars-append zero (x ∷ w) c t short h e = absurd (omega arith)
word_chars-append (suc width) [] c t short h e = rw e refl
word_chars-append (suc width) (x ∷ w) c t short h e =
    rw (h.0, word_chars-append width w c t (omega arith) h.1 e) refl

scan_word-append :
    (width : ℕ) (w : Bytes) (c : ℕ) (t : Bytes)
    → IsWordText width w
    → is_space c ≡ true
    → scan_word width (w ++ c ∷ t) ≡ some (w, c ∷ t)
unfolding scan_word skip_spaces
scan_word-append width [] c t h e = absurd (omega (arith, h.0))
scan_word-append width (x ∷ w) c t h e =
    let start : skip_spaces (x ∷ (w ++ c ∷ t)) ≡ x ∷ (w ++ c ∷ t) = rw h.2.0 refl in
    let word = word_chars-append width (x ∷ w) c t h.1 h.2 e in
    let both : word_chars width (skip_spaces (x ∷ (w ++ c ∷ t))) ≡ (x ∷ w, c ∷ t) =
      ap (word_chars width) start ∙ word in
    rw (both, scan_word, ap (λ r. r.1) both) refl

scan_word-blank : (width : ℕ) (s : Bytes) → scan_word width (b' ' ∷ s) ≡ scan_word width s
unfolding scan_word skip_spaces is_space
scan_word-blank width s = refl

before_char-plain : (c : ℕ) (s : Bytes) → All (λ x. (x == c) ≡ false) s → before_char c s ≡ s
unfolding before_char
before_char-plain c [] h = refl
before_char-plain c (x ∷ s) h = rw (h.0, before_char-plain c s h.1) refl

request_path-plain :
    (p : Bytes)
    → length p < 127
    → All (λ x. (x == b'?') ≡ false) p
    → request_path (b'/' ∷ p) ≡ b'/' ∷ p
unfolding request_path strncmp_eq
request_path-plain p short h =
    rw (take-eq_self 127 (b'/' ∷ p) (omega arith)) (before_char-plain b'?' (b'/' ∷ p) (refl, h))

-- The first line of a request.
abbrev pub request_line : Bytes → Bytes → Bytes → Bytes
request_line method path version = method ++ (b' ' ∷ (path ++ (b' ' ∷ version)))

module _ {S T : Type 0} (env : Platform S) (mesh : Mesh T) (p2p : P2p) where
  -- A request of a method, a path without a query, a version, further lines and a body is answered by
  -- the method, the path and the body alone.
  pub handle_request-request_line :
      (method p version : Bytes) (ls : List Bytes) (body : Bytes) (s : Server S T)
      → IsWordText 7 method
      → IsWordText 127 (b'/' ∷ p)
      → All (λ x. (x == b'?') ≡ false) p
      → All IsLine (request_line method (b'/' ∷ p) version ∷ ls)
      → handle_request env mesh p2p (head_text (request_line method (b'/' ∷ p) version ∷ ls) body) s
        ≡ linux_answer env mesh p2p method (b'/' ∷ p) body s
  unfolding handle_request request_body is_space
  handle_request-request_line method p version ls body s word path plain lines =
      let path_text = b'/' ∷ p in
      let rest = version ++ (codes "\r\n" ++ head_text ls body) in
      let req = method ++ (b' ' ∷ (path_text ++ (b' ' ∷ rest))) in
      let whole : head_text (request_line method path_text version ∷ ls) body ≡ req =
        simp append_assoc in
      let first = scan_word-append 7 method b' ' (path_text ++ (b' ' ∷ rest)) word refl in
      let second =
        scan_word-blank 127 (path_text ++ (b' ' ∷ rest))
        ∙ scan_word-append 127 path_text b' ' rest path refl in
      let found = strstr-head_text (request_line method path_text version) ls body lines in
      let found' = rw whole at found in
      let path_same = request_path-plain p (omega (arith, path.1)) plain in
      rw whole (rw (first, handle_request, second, found', request_body, path_same) refl)
