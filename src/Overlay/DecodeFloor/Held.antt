-- ===== src/Overlay/DecodeFloor/Held.antt =====
-- What the policy does to a prefill beside a decoding peer, and that it does nothing else.
use glm5_3_flash_2x_dgx_spar.Prelude.{
  ℕ, zero, suc, min, ◌≡◌, refl, Bool, true, false, ◌&&◌, Option, none, some, List, [], ◌∷◌, any,
  ltb, leb, arith, Bool-cases, inl, inr, if◌then◌else◌,
}
use glm5_3_flash_2x_dgx_spar.Text.{Text}
use glm5_3_flash_2x_dgx_spar.Overlay.DecodeFloor.{
  Request, is_decoding_peer, configured_cap, peer_cap, mixed_prefill_policy, cap_running,
  running_tokens, cap_waiting, waiting_tokens,
}

-- the request is prefilling and some peer decodes
abbrev pub is_mixed : List Request → Request → ℕ → Bool
is_mixed running request num_computed_tokens =
    any (is_decoding_peer request) running && ltb num_computed_tokens request.num_prompt_tokens

peer_cap-any :
    (cap : ℕ) (running : List Request) (current : Request)
    → peer_cap (some cap) running current
      ≡ (if any (is_decoding_peer current) running then some cap else none)
unfolding peer_cap
peer_cap-any cap [] current = refl
peer_cap-any cap (r ∷ running) current = elim (Bool-cases (is_decoding_peer current r)) [
  | inl e ↦ rw e refl
  | inr e ↦ rw e (peer_cap-any cap running current)
]

-- what is left of the tokens of a running request, and of a waiting one: by the configured cap, where the
-- step is mixed
abbrev pub held_running : Option ℕ → Bool → ℕ → ℕ
held_running none mixed n = n
held_running (some cap) mixed n = if mixed then min n cap else n

abbrev pub held_waiting : Option ℕ → Bool → ℕ → Option ℕ
held_waiting none mixed n = some n
held_waiting (some zero) mixed n = if mixed then none else some n
held_waiting (some (suc cap)) mixed n = if mixed then some (min n (suc cap)) else some n

running-held :
    (cap : ℕ) (peer : Bool) (request : Request) (n : ℕ)
    → let mixed = peer && ltb request.num_computed_tokens request.num_prompt_tokens in
      cap_running (if peer then some cap else none) request n ≡ held_running (some cap) mixed n
unfolding cap_running
running-held cap true request n = refl
running-held cap false request n = refl

waiting-held :
    (cap : ℕ) (peer : Bool) (request : Request) (c n : ℕ)
    → let mixed = peer && ltb c request.num_prompt_tokens in
      cap_waiting (if peer then some cap else none) request c n ≡ held_waiting (some cap) mixed n
unfolding cap_waiting
waiting-held zero true request c n = refl
waiting-held zero false request c n = refl
waiting-held (suc cap) true request c n =
    let above : leb (suc cap) 0 ≡ false = ground arith in rw above refl
waiting-held (suc cap) false request c n = refl

held-lem :
    (cap : Option ℕ) (running : List Request) (request : Request) (c n : ℕ)
    → (cap_running (peer_cap cap running request) request n
        ≡ held_running cap (is_mixed running request request.num_computed_tokens) n)
      × (cap_waiting (peer_cap cap running request) request c n
          ≡ held_waiting cap (is_mixed running request c) n)
unfolding peer_cap cap_running cap_waiting
held-lem none running request c n = (refl, refl)
held-lem (some cap) running request c n =
    let peer = any (is_decoding_peer request) running in
    rw (peer_cap-any cap running request)
      (running-held cap peer request n, waiting-held cap peer request c n)

-- Where a step is mixed, that is the request is prefilling and another running request decodes, the tokens
-- of a running request are capped as configured, by 0 to skip it, and a waiting one is put back by a cap
-- of 0 and capped by any other. Where no policy is configured, and in every other step, its
-- tokens are as they were.
pub tokens-held :
    (env : Option Text) (running : List Request) (request : Request) (c n : ℕ)
    → let cap = configured_cap env in
      (running_tokens env running request n
        ≡ held_running cap (is_mixed running request request.num_computed_tokens) n)
      × (waiting_tokens env running request c n ≡ held_waiting cap (is_mixed running request c) n)
unfolding running_tokens waiting_tokens mixed_prefill_policy
tokens-held env running request c n = held-lem (configured_cap env) running request c n
