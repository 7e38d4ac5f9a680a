-- ===== src/Chclient/Api/Laws.antt =====
-- chclient/client.go: what the requests answer.
use mathlib.Core.List.{append_assoc, append-nil}
use packer_plugin_cloud_hype.Prelude.{
  ℕ, ◌≤◌, ◌<◌, String, ◌≡◌, refl, sym, ◌⊎◌, ◌↔◌, inl, inr, Option, none, some, List, [], ◌∷◌, ◌++◌,
  Str, codes, arith, Among,
}
use mathlib.Core.Path.{subst}
use mathlib.Core.Option.{some-injective}
use packer_plugin_cloud_hype.Runtime.{
  http, ok, err, Client, Context, Platform, Machine, Exchange, no_response, unread, response,
}
use packer_plugin_cloud_hype.Chclient.Api.{join, detail, answer, do_request}

abbrev pub Infix : Str → Str → Type 0
Infix m s = (before : Str) × (after : Str) × (s ≡ before ++ (m ++ after))

join-Infix : (sep m : Str) (ms : List Str) → Among m ms → Infix m (join sep ms)
unfolding join
join-Infix sep m [] h = elim h [ ]
join-Infix sep m (x ∷ []) (inl e) = ([], [], rw (append-nil, e) refl)
join-Infix sep m (x ∷ []) (inr h) = elim h [ ]
join-Infix sep m (x ∷ y ∷ rest) (inl e) = ([], sep ++ join sep (y ∷ rest), rw e refl)
join-Infix sep m (x ∷ y ∷ rest) (inr h) =
    let (before, after, e) = join-Infix sep m (y ∷ rest) h in
    (x ++ (sep ++ before), after, rw e (simp append_assoc))

detail-Infix :
    (parsed : Option (List Str)) (body m : Str) (ms : List Str)
    → parsed ≡ some ms
    → Among m ms
    → Infix m (detail parsed body)
unfolding detail
detail-Infix none body m ms e h = cc
detail-Infix (some []) body m ms e h = absurd (subst (Among m) (sym (some-injective _ _ e)) h)
detail-Infix (some (x ∷ xs)) body m ms e h =
    join-Infix (codes ", ") m (x ∷ xs) (subst (Among m) (sym (some-injective _ _ e)) h)

module _ ⦃P : Platform⦄ where
  -- A request succeeds with a body exactly when the server has answered with a status below 400
  -- and that body.
  pub answer-eq-ok_iff :
      (method path : String) (x : Exchange) (body : Str)
      → (answer method path x ≡ ok body)
        ↔ ((status : ℕ) × (x ≡ response status body) × (status < 400))
  unfolding answer
  answer-eq-ok_iff method path (no_response e) body = (λ h. cc, λ h. cc (h.1))
  answer-eq-ok_iff method path (unread e) body = (λ h. cc, λ h. cc (h.1))
  answer-eq-ok_iff method path (response status b) body =
      (λ h. (status, ground arith, ground arith), λ h. ground arith)

  -- A response with a status of 400 or more, whose body is a list of messages, fails with that
  -- status and a text that contains each of the messages.
  answer_of_messages :
      (method path : String) (status : ℕ) (body : Str) (ms : List Str) (m : Str)
      → 400 ≤ status
      → P.unmarshal body ≡ some ms
      → Among m ms
      → (text : Str) × (answer method path (response status body) ≡ err (http status text))
        × Infix m text
  unfolding answer
  answer_of_messages method path status body ms m h e among = (
    detail (P.unmarshal body) body,
    ground arith,
    detail-Infix (P.unmarshal body) body m ms e among,
  )

  -- A response with a status of 400 or more, whose body is no list of messages, fails with that
  -- status and the body.
  answer_of_text :
      (method path : String) (status : ℕ) (body : Str)
      → 400 ≤ status
      → P.unmarshal body ≡ none
      → answer method path (response status body) ≡ err (http status body)
  unfolding answer detail
  answer_of_text method path status body h e = ground arith

  -- A response with a status of 400 or more fails with that status and a text: with one that
  -- contains each of the messages, where the body is a list of messages, and with the body
  -- itself, where it is no such list or an empty one.
  pub answer_of_failure :
      (method path : String) (status : ℕ) (body : Str)
      → 400 ≤ status
      → (text : Str) × (answer method path (response status body) ≡ err (http status text))
        × ((ms : List Str) (m : Str) → P.unmarshal body ≡ some ms → Among m ms → Infix m text)
        × ((P.unmarshal body ≡ none) ⊎ (P.unmarshal body ≡ some []) → text ≡ body)
  unfolding answer
  answer_of_failure method path status body h = (
    detail (P.unmarshal body) body,
    ground arith,
    λ ms m e among. detail-Infix (P.unmarshal body) body m ms e among,
    λ e. unfold detail in ground arith,
  )

  -- A request leaves the state bag alone.
  pub bag-do_request :
      (c : Client) (ctx : Context) (method path content_type : String) (body : Option Str)
      (w : Machine)
      → (do_request c ctx method path content_type body w).1.bag ≡ w.bag
  unfolding do_request
  bag-do_request c ctx method path content_type body w = ground arith
