-- ===== src/Bench/Http.antt =====
-- `http_request` and the requests of a run: health, cache reset, warmup.
pub mod Polls
use glm5_3_flash_2x_dgx_spar.Prelude.{
  ℕ, zero, suc, Bool, true, false, not, ◌||◌, Option, none, some, List, [], ◌∷◌, ◌++◌, ◌==◌, Result,
  ok, err, if◌then◌else◌,
}
use glm5_3_flash_2x_dgx_spar.Number.{Float, ◌+ᶠ◌, ◌-ᶠ◌, ◌≤ᶠ◌, ◌<ᶠ◌}
use glm5_3_flash_2x_dgx_spar.Text.{Text, codes}
use glm5_3_flash_2x_dgx_spar.Bench.Json.{
  Json, bool, number, text, array, nil, cons, object, Fields, end, field, get_field, as_fields,
  as_items,
}
use glm5_3_flash_2x_dgx_spar.Bench.Urls.{api_root, chat_url}
use glm5_3_flash_2x_dgx_spar.Bench.System.{
  Request, Outcome, responded, http_error, unreachable, escaped, System,
}
use glm5_3_flash_2x_dgx_spar.Bench.Results.{Health, CacheReset, reset, absent, failed}

pub record HttpResponse : Type 0 where
  pub code : ℕ
  pub body : Text
  pub error : Option Text

abbrev or_no_text : Option Text → Text
or_no_text none = []
or_no_text (some t) = t

-- `none` for an exception
respond : Outcome → Option HttpResponse
respond (responded code body) = some (record { code = code; body = body; error = none })
respond (http_error code body) = some (record { code = code; body = or_no_text body; error = none })
respond (unreachable why) =
    some (record { code = 0; body = []; error = some (codes "connection error: " ++ why) })
respond escaped = none

abbrev content_headers : {A : Type 0} → Option A → List (Text × Text)
content_headers none = []
content_headers (some a) = (codes "Content-Type", codes "application/json") ∷ []

abbrev auth_headers : Text → List (Text × Text)
auth_headers [] = []
auth_headers (c ∷ cs) = (codes "Authorization", codes "Bearer " ++ (c ∷ cs)) ∷ []

-- why `wait_for_health` gives no answer: the options are bad, a request raised, or the polls allowed are used up
pub data HealthError : Type 0 where
  bad_health_timeout bad_health_interval request_raised polls_used_up : HealthError

module _ {F : Type 0} ⦃f : Float F⦄ where
  -- `min(a, b)` and `max(a, b)`
  abbrev pub smaller : F → F → F
  smaller a b = if b <ᶠ a then b else a

  abbrev pub larger : F → F → F
  larger a b = if a <ᶠ b then b else a

module _ {F W : Type 0} ⦃f : Float F⦄ (sys : System F W) where
  unfoldable pub http_request :
      Text → Text → Option (Json F) → F → Text → W → Option HttpResponse × W
  unfolding respond
  http_request url method payload timeout api_key w =
      let (o, v) =
        sys.send
          (record {
            url = url;
            method = method;
            payload = payload;
            headers =
                (codes "Accept", codes "application/json")
                ∷ (content_headers payload ++ auth_headers api_key);
            timeout = timeout;
          })
          w in
      (respond o, v)

  -- the loop of `wait_for_health`, with at most `polls` rounds
  health_loop : ℕ → Text → F → F → F → Text → ℕ → W → Result HealthError Health × W
  unfolding http_request
  health_loop zero url timeout interval deadline api_key attempts w = (err polls_used_up, w)
  health_loop (suc polls) url timeout interval deadline api_key attempts w =
      let (response, v) =
        http_request url (codes "GET") none (smaller (f.of_ℕ 10) (larger (f.of_ℕ 1) timeout))
          api_key w in
      elim response [
        | none ↦ (err request_raised, v)
        | some r ↦
            let remaining = deadline -ᶠ sys.monotonic v in
            elim (r.code == 200) [
              | true ↦ (ok (record { ok = true; code = 200; attempts = suc attempts }), v)
              | false ↦ elim (remaining ≤ᶠ f.of_ℕ 0) [
                | true ↦ (ok (record { ok = false; code = r.code; attempts = suc attempts }), v)
                | false ↦
                    health_loop polls url timeout interval deadline api_key (suc attempts)
                      (sys.sleep (smaller interval remaining) v)
              ]
            ]
      ]

  unfoldable pub wait_for_health : ℕ → Text → F → F → Text → W → Result HealthError Health × W
  unfolding health_loop
  wait_for_health polls base_url timeout interval api_key w =
      if timeout ≤ᶠ f.of_ℕ 0
      then (err bad_health_timeout, w)
      else if interval ≤ᶠ f.of_ℕ 0
      then (err bad_health_interval, w)
      else health_loop polls (api_root base_url ++ codes "/health") timeout interval
          (sys.monotonic w +ᶠ timeout) api_key 0 w

  -- what a status says of the reset
  reset_of : ℕ → CacheReset
  reset_of code =
      if code == 200 || code == 204 then reset else if code == 404 then absent else failed code

  reset_answer : Option HttpResponse → Option CacheReset
  unfolding reset_of
  reset_answer none = none
  reset_answer (some r) = some (reset_of r.code)

  -- `none` for an exception
  unfoldable pub reset_prefix_cache : Text → F → Text → W → Option CacheReset × W
  unfolding reset_answer http_request
  reset_prefix_cache base_url timeout api_key w =
      let (r, v) =
        http_request (api_root base_url ++ codes "/reset_prefix_cache") (codes "POST")
          (some (object end)) timeout api_key w in
      (reset_answer r, v)

  warmup_payload : Text → Json F
  warmup_payload model = object (
      field (codes "model") (text model) (
        field (codes "messages")
          (array (
            cons
              (object (
                field (codes "role") (text (codes "user"))
                  (field (codes "content") (text (codes "Reply with OK.")) end)))
              nil))
          (field (codes "temperature") (number (f.of_ℕ 0)) (
            field (codes "max_tokens") (number (f.of_ℕ 8)) (
              field (codes "chat_template_kwargs")
                (object (field (codes "enable_thinking") (bool false) end)) end)))))

  -- whether the body is an object with a `choices` list that is not empty
  has_choices : Option (Json F) → Bool
  has_choices none = false
  has_choices (some body) = elim (as_fields body) [
    | none ↦ false
    | some fs ↦ elim (as_items (get_field (codes "choices") fs)) [
      | none ↦ false
      | some [] ↦ false
      | some (c ∷ cs) ↦ true
    ]
  ]

  warmup_answer : Option HttpResponse → Option Bool
  unfolding has_choices
  warmup_answer none = none
  warmup_answer (some r) =
      some (if not (r.code == 200) then false else has_choices (sys.loads r.body))

  -- whether it is `ok`; `none` for an exception
  unfoldable pub warmup_request : Text → Text → F → Text → W → Option Bool × W
  unfolding warmup_payload warmup_answer http_request
  warmup_request base_url model timeout api_key w =
      let (r, v) =
        http_request (chat_url base_url) (codes "POST") (some (warmup_payload model)) timeout
          api_key w in
      (warmup_answer r, v)
