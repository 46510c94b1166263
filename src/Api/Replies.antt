-- ===== src/Api/Replies.antt =====
-- ApiResponse, a rejected request, and the text that the pages show for one.
use mini_drop_test.Base.{ℕ, String, Option, none, some, or_else, ◌==◌, Bool, true, truthy, ◌≡◌, ◌≢◌}
use mini_drop_test.Base.Text.Chars.{truthy-or_else, truthy-ne}

pub record ApiResponse {ℓ} (A : Type ℓ) : Type ℓ where
  pub code : ℕ
  pub payload : Option A  -- `data`
  pub message : Option String

-- What a `catch` block reads of an error: `e.response.data.message` and `e.message`.
pub record Failure : Type 0 where
  pub response_message : Option String
  pub message : Option String

pub data Reply {ℓ} (A : Type ℓ) : Type ℓ where
  response : ApiResponse A → Reply A
  rejected : Failure → Reply A

-- `throw new Error(text)`
abbrev pub thrown : String → Failure
thrown text = record { response_message = none; message = some text }

-- `e?.response?.data?.message || e?.message || fallback`
abbrev pub failure_text : String → Failure → String
failure_text fallback f = or_else f.response_message (or_else f.message fallback)

-- `res.code === 0`
abbrev pub is_ok {ℓ} : {A : Type ℓ} → ApiResponse A → Bool
is_ok res = res.code == 0

pub truthy-failure_text :
    (fallback : String) (e : Failure)
    → truthy fallback ≡ true
    → truthy (failure_text fallback e) ≡ true
truthy-failure_text fallback e h =
    truthy-or_else e.response_message (or_else e.message fallback)
      (truthy-or_else e.message fallback h)

pub failure_text-ne :
    (fallback : String) (e : Failure) → truthy fallback ≡ true → failure_text fallback e ≢ ""
failure_text-ne fallback e h =
    truthy-ne (failure_text fallback e) (truthy-failure_text fallback e h)
