-- ===== src/Engine/Generate/Policy.antt =====
-- The length policy: what `resolveMaxTokens` and `buildRequest` send to the engine.
use mathlib.Core.Path.{subst}
use flash_qwen.Chatml.{stop_token_ids}
use flash_qwen.Engine.Client.{Failure, err_prompt_too_long, Result, ok, err, ◌>>=◌}
use flash_qwen.Engine.Generate.{
  Generator, GenerateRequest, Floats, resolve_max_tokens, prompt_ids, build_request, request_of,
}
use flash_qwen.Engine.{Request}
use flash_qwen.Prelude.Int.{ℤ, pos, negsuc, int32, int32_lem, to_ℕ}
use flash_qwen.Prelude.{
  ◌∷◌, Option, ℕ, suc, ◌+◌, ◌^◌, ◌≤◌, ◌<◌, List, [], length, map, Bytes, ◌≡◌, refl, ap, arith, ◌⊎◌,
  if◌then◌else◌,
}

-- The room is the context less the prompt. A request for a number of tokens from one up to the room
-- gets that number, and any other request gets the room.
abbrev pub Grants : ℕ → ℕ → ℤ → Result ℤ → Type 0
Grants max_ctx prompt_len requested (ok (pos n)) =
    (1 ≤ n)
    × (prompt_len + n ≤ max_ctx)
    × (((requested ≡ pos n))
        ⊎ ((prompt_len + n ≡ max_ctx) × (((to_ℕ requested ≡ 0)) ⊎ (n < to_ℕ requested))))
Grants max_ctx prompt_len requested (ok (negsuc n)) = ⊥
Grants max_ctx prompt_len requested (err e) =
    (max_ctx ≤ prompt_len) × (e ≡ err_prompt_too_long prompt_len (pos max_ctx))

-- The policy on every branch, for a context window of `max_ctx` tokens: the error exactly when the
-- prompt leaves no room, and otherwise at least one token and never more than fit.
pub resolve_max_tokens-Grants :
    (g : Generator) (max_ctx prompt_len : ℕ) (requested : ℤ)
    → g.max_ctx ≡ pos max_ctx
    → Grants max_ctx prompt_len requested (resolve_max_tokens g prompt_len requested)
unfolding resolve_max_tokens
resolve_max_tokens-Grants g max_ctx prompt_len (pos n) e = rw e (ground arith)
resolve_max_tokens-Grants g max_ctx prompt_len (negsuc n) e = rw e (ground arith)

-- A budget that the policy granted survives the conversion to the protocol's `int32`.
granted :
    (max_ctx prompt_len : ℕ) (requested budget : ℤ)
    → max_ctx < 2 ^ 31
    → Grants max_ctx prompt_len requested (ok budget)
    → (n : ℕ) × (int32 budget ≡ pos n) × (1 ≤ n) × (prompt_len + n ≤ max_ctx)
granted max_ctx prompt_len requested (pos n) h gr = (n, int32_lem n (omega arith), gr.0, gr.1)
granted max_ctx prompt_len requested (negsuc n) h gr = absurd gr

length-map : (f : ℤ → ℤ) (ids : List ℤ) → length (map f ids) ≡ length ids
length-map f [] = refl
length-map f (id ∷ ids) = ap suc (length-map f ids)

ok_injective : {A : Type 0} {a b : A} → ok a ≡ ok b → a ≡ b
ok_injective e = cc

err_ne_ok : {A : Type 0} {a : A} {f : Failure} → err f ≡ ok a → ⊥
err_ne_ok e = cc

module _ (fl : Floats) (marshal : Bytes → Option Bytes → Bytes → Bytes) where
  -- What every request that is sent to the engine satisfies.
  pub record IsSendable (g : Generator) (req : Request fl.Float) (max_ctx : ℕ)
      (r : GenerateRequest fl.Float32) : Type 0 where
    pub ids : r.input_ids ≡ map int32 (prompt_ids fl marshal g req)
    pub budget : (n : ℕ) × (r.max_tokens ≡ pos n) × (1 ≤ n) × (length r.input_ids + n ≤ max_ctx)
    pub stops : r.stop_token_ids ≡ (if req.ignore_eos then [] else map int32 g.cm.eos_ids)

  request_of-IsSendable :
      (g : Generator) (req : Request fl.Float) (max_ctx : ℕ) (budget : ℤ)
      → max_ctx < 2 ^ 31
      → Grants max_ctx (length (prompt_ids fl marshal g req)) req.max_tokens (ok budget)
      → IsSendable g req max_ctx (request_of fl marshal g req (prompt_ids fl marshal g req) budget)
  unfolding request_of stop_token_ids
  request_of-IsSendable g req max_ctx budget h gr =
      let ids = prompt_ids fl marshal g req in
      let (n, same, least, fits) = granted max_ctx (length ids) req.max_tokens budget h gr in
      record {
        ids = refl;
        budget = (n, same, least, omega (arith, length-map int32 ids));
        stops = refl;
      }

  -- The request that is sent, or the error of a prompt that leaves no room.
  abbrev pub Prepares :
      Generator → Request fl.Float → ℕ → Result (GenerateRequest fl.Float32) → Type 0
  Prepares g req max_ctx (ok r) = IsSendable g req max_ctx r
  Prepares g req max_ctx (err e) =
      (max_ctx ≤ length (prompt_ids fl marshal g req))
      × (e ≡ err_prompt_too_long (length (prompt_ids fl marshal g req)) (pos max_ctx))

  pub build_request-Prepares :
      (g : Generator) (req : Request fl.Float) (max_ctx : ℕ)
      → g.max_ctx ≡ pos max_ctx
      → max_ctx < 2 ^ 31
      → Prepares g req max_ctx (build_request fl marshal g req)
  unfolding build_request
  build_request-Prepares g req max_ctx e h =
      by_budget (resolve_max_tokens g (length ids) req.max_tokens)
        (resolve_max_tokens-Grants g max_ctx (length ids) req.max_tokens e)
    where
      ids : List ℤ
      ids = prompt_ids fl marshal g req

      by_budget :
          (o : Result ℤ)
          → Grants max_ctx (length ids) req.max_tokens o
          → Prepares g req max_ctx (o >>= λ budget. ok (request_of fl marshal g req ids budget))
      by_budget (ok budget) gr = request_of-IsSendable g req max_ctx budget h gr
      by_budget (err f) gr = gr

  -- A request is sent only if its prompt leaves room. It then carries the ids of the prompt, each
  -- converted to int32 (with its wrap-around), a budget of at least one token that fits into the
  -- context behind the prompt, and as stop ids none if EOS is ignored, and the format's EOS ids, each
  -- converted to int32, if not.
  pub build_request-IsSendable :
      (g : Generator) (req : Request fl.Float) (max_ctx : ℕ) (r : GenerateRequest fl.Float32)
      → g.max_ctx ≡ pos max_ctx
      → max_ctx < 2 ^ 31
      → build_request fl marshal g req ≡ ok r
      → IsSendable g req max_ctx r
  build_request-IsSendable g req max_ctx r e h b =
      subst (Prepares g req max_ctx) b (build_request-Prepares g req max_ctx e h)
