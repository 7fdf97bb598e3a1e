-- ===== src/Checks/RetryWithoutBudget.antt =====
-- pkg/templates/retrywithoutbudget
use gwlint.Prelude.{
  String, Option, none, some, List, [], ◌∷◌, Bool, false, not, ◌==◌, ◌||◌, suc, zero, if◌then◌else◌,
  Diagnostic, lit, int, ℤ, pos, negsuc, int_eq,
}
use gwlint.Prelude.Tests.{string_eq, nat_eq}
use gwlint.Api.{
  LintContext, Object, K8sObject, Retry, PerRetryPolicy, BackOffPolicy, BackendTrafficPolicy,
  backend_traffic_policy,
}

-- `p != nil && *p != ""`
abbrev pub is_given : Option String → Bool
is_given none = false
is_given (some s) = not (s == "")

abbrev timeout_given : Option PerRetryPolicy → Bool
timeout_given none = false
timeout_given (some per_retry) = is_given per_retry.timeout

unfoldable pub has_per_retry_timeout : Retry → Bool
has_per_retry_timeout retry = timeout_given retry.per_retry

abbrev interval_given : Option BackOffPolicy → Bool
interval_given none = false
interval_given (some back_off) = is_given back_off.base_interval || is_given back_off.max_interval

abbrev back_off_given : Option PerRetryPolicy → Bool
back_off_given none = false
back_off_given (some per_retry) = interval_given per_retry.back_off

unfoldable pub has_back_off_interval : Retry → Bool
has_back_off_interval retry = back_off_given retry.per_retry

-- `n + 1` on int32, whose largest value wraps around.
unfoldable pub add_one : ℤ → ℤ
add_one (pos n) = if n == 2147483647 then negsuc 2147483647 else pos (suc n)
add_one (negsuc zero) = pos 0
add_one (negsuc (suc n)) = negsuc n

abbrev pub message : ℤ → Diagnostic
message num_retries = record {
  message =
      lit "BackendTrafficPolicy sets spec.retry.numRetries to "
      ∷ int num_retries
      ∷ lit
          " with no spec.retry.perRetry.timeout and no spec.retry.perRetry.backOff interval, so one request can become "
      ∷ int (add_one num_retries)
      ∷ lit " unbounded attempts and retries will amplify load on a backend that is already failing"
      ∷ [];
}

abbrev judge_retries : Retry → Option ℤ → List Diagnostic
judge_retries retry none = []
judge_retries retry (some num_retries) =
    if num_retries == pos 0
    then []
    else if has_per_retry_timeout retry || has_back_off_interval retry
    then []
    else message num_retries ∷ []

abbrev judge_retry : Option Retry → List Diagnostic
judge_retry none = []
judge_retry (some retry) = judge_retries retry retry.num_retries

unfoldable pub judge : BackendTrafficPolicy → List Diagnostic
judge policy = judge_retry policy.retry

abbrev pub judge_object : K8sObject → List Diagnostic
judge_object (backend_traffic_policy policy) = judge policy
judge_object _ = []

unfoldable pub check_func : LintContext → Object → List Diagnostic
check_func ctx object = judge_object object.k8s_object
