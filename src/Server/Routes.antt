-- ===== src/Server/Routes.antt =====
-- internal/server/server.go: the routes, the listing of models, and the ids of completions, whose
-- two random numbers are arguments. Types of /v1/models are in types.go.
pub mod Ids
use flash_qwen.Prelude.{
  ℕ, zero, suc, ◌+◌, ◌-◌, ◌/◌, ◌%◌, List, [], ◌∷◌, ◌++◌, ltb, if◌then◌else◌, Bytes, codes,
}

pub data Method : Type 0 where
  get post : Method

pub data Handler : Type 0 where
  healthz list_models chat_completions completions : Handler

pub record Route : Type 0 where
  pub method : Method
  pub path : Bytes
  pub handler : Handler

-- What `Run` registers; the router that it hands them to is gin's.
unfoldable pub routes : List Route
routes =
    record { method = get; path = codes "/healthz"; handler = healthz }
    ∷ record { method = get; path = codes "/v1/models"; handler = list_models }
    ∷ record { method = post; path = codes "/v1/chat/completions"; handler = chat_completions }
    ∷ record { method = post; path = codes "/v1/completions"; handler = completions }
    ∷ []

pub record Model : Type 0 where
  pub id : Bytes
  pub object : Bytes
  pub created : ℕ
  pub owned_by : Bytes

pub record ModelList : Type 0 where
  pub object : Bytes
  pub models : List Model

unfoldable pub model_list : Bytes → ℕ → ModelList
model_list model now = record {
  object = codes "list";
  models =
      record { id = model; object = codes "model"; created = now; owned_by = codes "flashqwen" }
      ∷ [];
}

unfoldable pub hex_digit : ℕ → ℕ
hex_digit d = if ltb d 10 then b'0' + d else b'a' + (d - 10)

-- The last `k` digits, with leading zeros.
hex_from : ℕ → ℕ → Bytes
unfolding hex_digit
hex_from zero n = []
hex_from (suc k) n = hex_from k (n / 16) ++ hex_digit (n % 16) ∷ []

-- %016x of a uint64
abbrev pub hex16 : ℕ → Bytes
unfolding hex_from
hex16 n = hex_from 16 n

unfoldable pub new_id : ℕ → ℕ → Bytes
new_id a b = codes "chatcmpl-" ++ (hex16 a ++ hex16 b)
