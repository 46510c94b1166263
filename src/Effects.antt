-- ===== src/Effects.antt =====
-- What a handler does besides changing its page's state: the requests that it sends and its calls
-- of the browser and of the router, in order. Replies are arguments of the handlers.
use mini_drop_test.Base.{String, List, ◌∷◌, ◌++◌}
use mini_drop_test.Api.Requests.{Call}

pub data Effect : Type 0 where
  send : Call → Effect
  navigate : String → Effect
  replace : String → Effect  -- `navigate(to, { replace: true })`
  alert : String → Effect
  notify_success : String → Effect  -- `message.success`
  notify_error : String → Effect  -- `message.error`
  start_poller : String → Effect
  set_cookie : String → String → Effect  -- kept for seven days
  expire_cookie : String → Effect
  create_object_url : String → Effect
  revoke_object_url : String → Effect

-- A handler's result: the new state and its effects.
abbrev pub Run {ℓ} : Type ℓ → Type ℓ
Run S = S × List Effect

-- An effect before the others of a run
abbrev pub also {ℓ} : {S : Type ℓ} → Effect → Run S → Run S
also effect (s, effects) = (s, effect ∷ effects)

-- A run, and then what follows in its state
abbrev pub then_do {ℓ} : {S : Type ℓ} → Run S → (S → Run S) → Run S
then_do (s, effects) next = let (t, later) = next s in (t, effects ++ later)
