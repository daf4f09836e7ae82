-- ===== src/Gateway/Delivery/Retry.antt =====
-- How often a response is sent, and when the loop stops.
use open_nipper.Prelude.{
  ℕ, zero, suc, ◌<◌, ◌≡◌, refl, ◌∙◌, ◌⊎◌, inl, inr, Bool, true, false, ◌||◌, [], ◌∷◌, ◌++◌, arith,
  ◌==◌, nat_eq, if◌then◌else◌,
}
use mathlib.Core.List.{append_assoc}
use open_nipper.Models.Channel.{ChannelType}
use open_nipper.Models.Message.{NipperResponse}
use open_nipper.Gateway.Delivery.{
  attempted, Trace, Adapter, Env, retry, deliver_with_retry, delivery_max_retries,
}

-- So many failed attempts.
abbrev pub failures : ChannelType → NipperResponse → ℕ → Trace
failures ct resp zero = []
failures ct resp (suc n) = attempted ct resp false ∷ failures ct resp n

-- The attempts that were made, one after the other: some failures and a last attempt.
pub record Attempts (env : Env) (ct : ChannelType) (resp : NipperResponse) (limit : ℕ)
    (before after : Trace) : Type 0 where
  pub failed : ℕ
  pub success : Bool
  pub shape : after ≡ before ++ (failures ct resp failed ++ attempted ct resp success ∷ [])
  pub within : failed < limit
  -- the loop gives up only after its last attempt, or if the context is done
  pub reason : (success ≡ true) ⊎ ((suc failed ≡ limit) ⊎ (env.cancelled after ≡ true))

retry_later :
    (env : Env) (ct : ChannelType) (resp : NipperResponse) (left : ℕ) (before after : Trace)
    → Attempts env ct resp left (before ++ attempted ct resp false ∷ []) after
    → Attempts env ct resp (suc left) before after
retry_later env ct resp left before after a = record {
  failed = suc a.failed;
  success = a.success;
  shape = a.shape ∙ append_assoc before (attempted ct resp false ∷ []) _;
  within = omega (arith, a.within);
  reason = ground (arith, a.reason);
}

stop :
    (env : Env) (ct : ChannelType) (resp : NipperResponse) (left : ℕ) (tr : Trace) (success : Bool)
    → (success ≡ true)
      ⊎ ((1 ≡ suc left) ⊎ (env.cancelled (tr ++ attempted ct resp success ∷ []) ≡ true))
    → Attempts env ct resp (suc left) tr (tr ++ attempted ct resp success ∷ [])
stop env ct resp left tr success why = record {
  failed = 0;
  success = success;
  shape = refl;
  within = omega arith;
  reason = why;
}

suc-ne-zero : (n : ℕ) → (suc n == 0) ≡ false
suc-ne-zero n = ground arith

-- One round of the loop: it stops, or goes on after a failure that was not the last attempt.
retry_round :
    (env : Env) (ct : ChannelType) (resp : NipperResponse) (left : ℕ) (tr again : Trace)
    (success cancelled : Bool)
    → env.cancelled (tr ++ attempted ct resp success ∷ []) ≡ cancelled
    → (success ≡ false
        → 0 < left
        → Attempts env ct resp left (tr ++ attempted ct resp success ∷ []) again)
    → Attempts env ct resp (suc left) tr (
        if success || (left == 0 || cancelled) then tr ++ attempted ct resp success ∷ [] else again)
retry_round env ct resp left tr again true cancelled e more =
    stop env ct resp left tr true (inl refl)
retry_round env ct resp zero tr again false cancelled e more =
    stop env ct resp 0 tr false (inr (inl refl))
retry_round env ct resp (suc left) tr again false true e more =
    rw (suc-ne-zero left) (stop env ct resp (suc left) tr false (inr (inr e)))
retry_round env ct resp (suc left) tr again false false e more =
    rw (suc-ne-zero left) (retry_later env ct resp (suc left) tr again (more refl (omega arith)))

retry-Attempts :
    (env : Env) (ct : ChannelType) (adapter : Adapter) (resp : NipperResponse) (left : ℕ)
    (tr : Trace)
    → 0 < left
    → Attempts env ct resp left tr (retry env ct adapter resp left tr)
unfolding retry
retry-Attempts env ct adapter resp zero tr h = absurd (omega arith)
retry-Attempts env ct adapter resp (suc left) tr h =
    retry_round env ct resp left tr _ (adapter.delivers tr resp) _ refl
      (λ failed. retry-Attempts env ct adapter resp left _)

-- A response is sent once, and again after a failure, at most three times in all. The loop stops
-- at the first success, and before the third attempt only at a success or when the context is done.
pub deliver-Attempts :
    (env : Env) (ct : ChannelType) (adapter : Adapter) (resp : NipperResponse) (tr : Trace)
    → Attempts env ct resp delivery_max_retries tr (deliver_with_retry env ct adapter resp tr)
unfolding deliver_with_retry
deliver-Attempts env ct adapter resp tr =
    retry-Attempts env ct adapter resp delivery_max_retries tr (omega arith)
